-- ===== src/Reads/Filters.antt =====
-- backend/app/tools/read_executor.py: which tool a prompt asks for, and the filters that are read off
-- it. The groups that the regular expressions find in a prompt are functions of it.
use meridian_logistics.Prelude.{
  ℕ, String, Option, none, some, List, [], ◌∷◌, ◌==◌, Bool, true, false, if◌then◌else◌,
}
use meridian_logistics.Python.{Result, ok, and_then, null, number, Dict, get, or_default}
use meridian_logistics.Python.Json.{Reader, Json, leaf, text_leaf, optional_text_leaf}
use meridian_logistics.Autonomy.Service.{mentions_any}
use meridian_logistics.Reads.Bounds.{
  normalize_date_range_days, normalize_limit, normalize_metric, normalize_ranking_metric,
}

-- What Python gives for a prompt: lower(), and the groups of the first match of DAY_WINDOW_RE (the
-- direction by lower()), TOP_LIMIT_RE and LANE_RE.
pub record Prompts : Type 0 where
  pub lower : String → String
  pub day_window : String → Option (String × String)
  pub top_limit : String → Option String
  pub lane : String → Option (String × String)

-- token in prompt_text
abbrev mentions : String → String → Bool
mentions token prompt_text = mentions_any (token ∷ []) prompt_text

-- `has_resource` says that there is an active resource.
unfoldable pub classify_read_tool : Prompts → String → Bool → String
unfolding mentions_any
classify_read_tool p prompt has_resource =
    if has_resource
    then "shipment_exception_lookup"
    else if mentions_any ("top" ∷ "carrier" ∷ "on-time" ∷ "ranking" ∷ []) (p.lower prompt)
    then "carrier_ranking_lookup"
    else if mentions_any ("insurance" ∷ "exception" ∷ "in-transit" ∷ "delay" ∷ []) (p.lower prompt)
    then "shipment_exception_lookup"
    else "shipment_metrics_lookup"

days_found : Reader → String → ℕ → Option (String × String) → Result ℕ
days_found r direction default none = ok default
days_found r direction default (some (found, days)) =
    if found == direction then r.int_of days else ok default

unfoldable pub extract_day_window : Prompts → Reader → String → String → ℕ → Result ℕ
unfolding days_found
extract_day_window p r prompt direction default =
    days_found r direction default (p.day_window prompt)

first_of : Option (String × String) → Option String
first_of none = none
first_of (some (a, b)) = some a

second_of : Option (String × String) → Option String
second_of none = none
second_of (some (a, b)) = some b

-- _extract_lane, by its two parts
unfoldable pub extract_origin : Prompts → String → Option String
unfolding first_of
extract_origin p prompt = first_of (p.lane prompt)

unfoldable pub extract_destination : Prompts → String → Option String
unfolding second_of
extract_destination p prompt = second_of (p.lane prompt)

unfoldable pub extract_shipment_mode : String → Option String
unfolding mentions_any
extract_shipment_mode prompt_text =
    if mentions "ftl" prompt_text
    then some "FTL"
    else if mentions "ltl" prompt_text
    then some "LTL"
    else none

unfoldable pub extract_weight_class : String → Option String
unfolding mentions_any
extract_weight_class prompt_text =
    if mentions_any ("20,000" ∷ "20000" ∷ "20 000" ∷ []) prompt_text
    then some "20000_plus"
    else none

-- The known regions with their title().
abbrev known_regions : List (String × String)
known_regions =
    ("southeast", "Southeast")
    ∷ ("midwest", "Midwest")
    ∷ ("northeast", "Northeast")
    ∷ ("southwest", "Southwest")
    ∷ ("northwest", "Northwest")
    ∷ []

first_region : List (String × String) → String → Option String
unfolding mentions_any
first_region [] prompt_text = none
first_region ((region, title) ∷ regions) prompt_text =
    if mentions region prompt_text then some title else first_region regions prompt_text

unfoldable pub extract_region : String → Option String
unfolding first_region
extract_region prompt_text = first_region known_regions prompt_text

first_key : Dict Json → List String → Json → Json
first_key d [] fallback = fallback
first_key d (k ∷ ks) fallback = or_default (get d k) (first_key d ks fallback)

-- `keys` are the key and its aliases.
unfoldable pub select_filter_value : Option (Dict Json) → List String → Json → Json
unfolding first_key get
select_filter_value none keys fallback = fallback
select_filter_value (some d) keys fallback = first_key d keys fallback

pub record MetricsFilters : Type 0 where
  pub metric : String
  pub date_range_days : ℕ
  pub shipment_mode : Json
  pub origin_region : Json
  pub destination_region : Json

module _ (p : Prompts) (r : Reader) where
  -- The days of the arguments, or else those of the prompt.
  date_range : String → Option (Dict Json) → Result Json
  unfolding extract_day_window select_filter_value
  date_range prompt arguments = and_then (extract_day_window p r prompt "last" 30) λ days.
      ok
        (select_filter_value arguments ("date_range" ∷ "date_range_days" ∷ []) (leaf (number days)))

  unfoldable pub metrics_filters : String → Option (Dict Json) → Result MetricsFilters
  unfolding date_range select_filter_value normalize_metric normalize_date_range_days mentions_any
      extract_shipment_mode extract_origin extract_destination
  metrics_filters prompt arguments =
      let prompt_text : String = p.lower prompt in
      let raw_metric : Json = select_filter_value arguments ("metric" ∷ []) (
        text_leaf
          (if mentions "transit" prompt_text then "average_transit_time" else "shipment_count")) in
      and_then (date_range prompt arguments) λ raw_date_range.
        and_then (normalize_metric raw_metric) λ metric.
          and_then (normalize_date_range_days r raw_date_range) λ days. ok (record {
            metric = metric;
            date_range_days = days;
            shipment_mode =
                select_filter_value arguments ("shipment_mode" ∷ [])
                  (optional_text_leaf (extract_shipment_mode prompt_text));
            origin_region =
                select_filter_value arguments ("origin_region" ∷ [])
                  (optional_text_leaf (extract_origin p prompt));
            destination_region =
                select_filter_value arguments ("destination_region" ∷ [])
                  (optional_text_leaf (extract_destination p prompt));
          })

pub record RankingFilters : Type 0 where
  pub ranking_metric : String
  pub date_range_days : ℕ
  pub shipment_mode : Json
  pub weight_class : Json
  pub region : Json
  pub limit : Option ℕ

module _ (r : Reader) where
  -- None if limit_match is None else int(limit_match.group(1))
  prompt_limit : Option String → Result Json
  prompt_limit none = ok (leaf null)
  prompt_limit (some digits) = and_then (r.int_of digits) λ n. ok (leaf (number n))

  -- None if raw_limit is None else normalize_limit(raw_limit)
  filter_limit : Json → Result (Option ℕ)
  unfolding normalize_limit
  filter_limit (leaf null) = ok none
  filter_limit j = and_then (normalize_limit r j) λ n. ok (some n)

module _ (p : Prompts) (r : Reader) where
  unfoldable pub ranking_filters : String → Option (Dict Json) → Result RankingFilters
  unfolding date_range select_filter_value normalize_ranking_metric normalize_date_range_days
      mentions_any prompt_limit filter_limit extract_shipment_mode extract_weight_class
      extract_region
  ranking_filters prompt arguments =
      let prompt_text : String = p.lower prompt in
      let raw_ranking_metric : Json =
        select_filter_value arguments ("ranking_metric" ∷ []) (
          text_leaf
            (if mentions "on-time" prompt_text then "on_time_rate" else "shipment_count")) in
      and_then (date_range p r prompt arguments) λ raw_date_range.
        and_then (prompt_limit r (p.top_limit prompt)) λ found_limit.
          and_then (normalize_ranking_metric raw_ranking_metric) λ ranking_metric.
            and_then (normalize_date_range_days r raw_date_range) λ days.
              and_then (filter_limit r (select_filter_value arguments ("limit" ∷ []) found_limit))
                λ limit. ok (record {
                  ranking_metric = ranking_metric;
                  date_range_days = days;
                  shipment_mode =
                      select_filter_value arguments ("shipment_mode" ∷ [])
                        (optional_text_leaf (extract_shipment_mode prompt_text));
                  weight_class =
                      select_filter_value arguments ("weight_class" ∷ [])
                        (optional_text_leaf (extract_weight_class prompt_text));
                  region =
                      select_filter_value arguments ("region" ∷ [])
                        (optional_text_leaf (extract_region prompt_text));
                  limit = limit;
                })

pub record ExceptionFilters : Type 0 where
  pub exception_type : String
  pub shipment_state : Option String
  pub insurance_expiry_window_days : Option ℕ

module _ (p : Prompts) (r : Reader) where
  -- The window of an insurance, which is not normalised.
  insurance_window : String → Bool → Result (Option ℕ)
  unfolding extract_day_window
  insurance_window prompt false = ok none
  insurance_window prompt true =
      and_then (extract_day_window p r prompt "next" 30) λ days. ok (some days)

  unfoldable pub exception_filters : String → Result ExceptionFilters
  unfolding insurance_window mentions_any
  exception_filters prompt =
      let prompt_text : String = p.lower prompt in
      and_then (insurance_window prompt (mentions "insurance" prompt_text)) λ days. ok (record {
        exception_type = if mentions "insurance" prompt_text then "insurance_expiring" else "delay";
        shipment_state = if mentions "in-transit" prompt_text then some "in_transit" else none;
        insurance_expiry_window_days = days;
      })
