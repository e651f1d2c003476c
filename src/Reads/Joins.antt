-- ===== src/Reads/Joins.antt =====
-- backend/app/db/read_repository.py, `ReadRepository`: the queries over joined tables, carrier_rankings and
-- shipments_for_exception_view.
use meridian_logistics.Prelude.{
  ℕ, suc, ltb, String, Bool, true, false, Option, none, some, List, [], ◌∷◌, ◌++◌, ◌==◌, ◌&&◌, ◌||◌,
  opt_eq, map, if◌then◌else◌,
}
use meridian_logistics.Python.{Result, ok, and_then, Value, number, or_default}
use meridian_logistics.Python.Json.{Json, leaf, text_leaf}
use meridian_logistics.Table.{select_all, limit, order_by}
use meridian_logistics.Reads.Bounds.{
  normalize_date_range_days, normalize_limit, normalize_ranking_metric,
}
use meridian_logistics.Reads.Repository.{
  CarrierRow, QuoteRow, ShipmentRow, ReadRepository, bound, same_text, in_office,
  reference_timestamp, cutoff,
}

-- A row of shipments JOIN carriers LEFT JOIN shipment_quotes.
pub record Joined : Type 0 where
  pub shipment : ShipmentRow
  pub carrier : CarrierRow
  pub quote : Option QuoteRow

or_no_quote : List QuoteRow → List (Option QuoteRow)
or_no_quote [] = none ∷ []
or_no_quote (q ∷ qs) = map some (q ∷ qs)

unfoldable pub quotes_of : List QuoteRow → ShipmentRow → List (Option QuoteRow)
unfolding or_no_quote
quotes_of quotes s = or_no_quote (select_all (λ q. opt_eq s.quote_id (some q.quote_id)) quotes)

unfoldable pub with_carriers : ShipmentRow → Option QuoteRow → List CarrierRow → List Joined
with_carriers s q [] = []
with_carriers s q (c ∷ cs) = record { shipment = s; carrier = c; quote = q } ∷ with_carriers s q cs

unfoldable pub with_quotes : ShipmentRow → List CarrierRow → List (Option QuoteRow) → List Joined
unfolding with_carriers
with_quotes s cs [] = []
with_quotes s cs (q ∷ qs) = with_carriers s q cs ++ with_quotes s cs qs

unfoldable pub joins_of :
    List CarrierRow → (ShipmentRow → List (Option QuoteRow)) → ShipmentRow → List Joined
unfolding with_quotes
joins_of carriers quotes s =
    with_quotes s (select_all (λ c. c.carrier_id == s.carrier_id) carriers) (quotes s)

unfoldable pub join :
    List CarrierRow → (ShipmentRow → List (Option QuoteRow)) → List ShipmentRow → List Joined
unfolding joins_of
join carriers quotes [] = []
join carriers quotes (s ∷ t) = joins_of carriers quotes s ++ join carriers quotes t

-- A row of carrier_rankings, with the id that it is grouped by: the name and the rate depend on it.
pub record Ranking : Type 0 where
  pub carrier_id : String
  pub carrier_name : String
  pub on_time_rate : Value
  pub shipment_count : ℕ

-- One row more of a group.
unfoldable pub count_in : CarrierRow → List Ranking → List Ranking
count_in c [] =
    record {
      carrier_id = c.carrier_id;
      carrier_name = c.carrier_name;
      on_time_rate = c.on_time_rate;
      shipment_count = 1;
    }
    ∷ []
count_in c (g ∷ gs) =
    if g.carrier_id == c.carrier_id
    then record g { shipment_count = suc g.shipment_count } ∷ gs
    else g ∷ count_in c gs

-- GROUP BY the carrier, with COUNT(*)
unfoldable pub grouped : List Ranking → List Joined → List Ranking
unfolding count_in
grouped gs [] = gs
grouped gs (j ∷ js) = grouped (count_in j.carrier gs) js

-- a, or b where neither a nor its converse holds, and so on
abbrev then_by : Bool → Bool → Bool → Bool
then_by before after next = before || (if after then false else next)

module _ (r : ReadRepository) where
  by_name : Ranking → Ranking → Bool
  by_name a b = r.sql.text_lt a.carrier_name b.carrier_name

  unfoldable pub by_count : Ranking → Ranking → Bool
  unfolding by_name
  by_count a b =
      then_by (ltb b.shipment_count a.shipment_count) (ltb a.shipment_count b.shipment_count) (
        then_by (r.sql.rate_lt b.on_time_rate a.on_time_rate)
          (r.sql.rate_lt a.on_time_rate b.on_time_rate) (by_name a b))

  unfoldable pub by_rate : Ranking → Ranking → Bool
  unfolding by_name
  by_rate a b =
      then_by (r.sql.rate_lt b.on_time_rate a.on_time_rate)
        (r.sql.rate_lt a.on_time_rate b.on_time_rate)
        (then_by (ltb b.shipment_count a.shipment_count) (ltb a.shipment_count b.shipment_count)
          (by_name a b))

  abbrev quote_column : (QuoteRow → String) → Option QuoteRow → Option String
  quote_column f none = none
  quote_column f (some q) = some (f q)

  unfoldable pub in_region : Option Value → Option QuoteRow → Bool
  unfolding same_text
  in_region none q = true
  in_region (some v) q =
      same_text r.sql (quote_column (λ x. x.origin_region) q) (some v)
      || same_text r.sql (quote_column (λ x. x.destination_region) q) (some v)

  unfoldable pub is_ranked : String → Option Value → Option Value → Option Value → Joined → Bool
  unfolding same_text in_region
  is_ranked start mode weight_class region j =
      r.sql.is_since j.shipment.created_at start
      && (same_text r.sql (some j.shipment.shipment_mode) mode
          && (same_text r.sql (quote_column (λ x. x.weight_class) j.quote) weight_class
              && in_region region j.quote))

  -- None if the limit is None, and otherwise the normalised limit
  unfoldable pub bounded_limit : Option ℕ → Result (Option ℕ)
  unfolding normalize_limit
  bounded_limit none = ok none
  bounded_limit (some n) = and_then (normalize_limit r.reader (leaf (number n))) λ m. ok (some m)

  unfoldable pub limited : {A : Type 0} → Option ℕ → List A → List A
  limited none t = t
  limited (some n) t = limit n t

  unfoldable pub carrier_rankings :
      String → String → ℕ → Json → Json → Json → Option ℕ → Result (List Ranking)
  unfolding cutoff bound is_ranked bounded_limit limited in_office by_count by_rate
      normalize_date_range_days normalize_ranking_metric join quotes_of grouped
  carrier_rankings office ranking_metric days shipment_mode weight_class region asked =
      and_then (normalize_ranking_metric (text_leaf ranking_metric)) λ metric.
        and_then (normalize_date_range_days r.reader (leaf (number days))) λ bounded_days.
          and_then (bounded_limit asked) λ most. and_then (cutoff r office bounded_days) λ start.
            and_then (bound shipment_mode) λ mode. and_then (bound weight_class) λ weight.
              and_then (bound region) λ place. ok (
                limited most (
                  order_by (if metric == "shipment_count" then by_count else by_rate) (
                    grouped [] (
                      select_all
                        (λ j. in_office office j.shipment && is_ranked start mode weight place j)
                        (join r.tables.carriers (quotes_of r.tables.quotes) r.tables.shipments)))))

  -- AND the condition on the exception, which depends on the kind and on the window.
  unfoldable pub has_exception : String → Option (String × String) → Joined → Bool
  has_exception kind none j = opt_eq j.shipment.exception_type (some kind)
  has_exception kind (some (first, last)) j =
      r.sql.between j.carrier.insurance_expiry_date first last

  -- AND the condition on the resource: its id, or its number without the prefix.
  unfoldable pub has_resource : Option String → ShipmentRow → Bool
  has_resource none s = true
  has_resource (some id) s =
      let number_of = r.sql.replace (r.sql.replace id "quote-" "") "ship-" "" in
      s.shipment_id == id
      || (opt_eq s.quote_id (some id)
          || (r.sql.replace s.shipment_id "ship-" "" == number_of
              || r.sql.replace (or_default s.quote_id "") "quote-" "" == number_of))

  -- The window of an insurance that expires: from the reference date, where days are given.
  unfoldable pub window : String → String → Option ℕ → Result (Option (String × String))
  window kind reference none = ok none
  window kind reference (some days) =
      if kind == "insurance_expiring"
      then and_then (r.calendar.date_plus_days (r.calendar.date_of reference) days)
          (λ last. ok (some (r.calendar.date_of reference, last)))
      else ok none

  unfoldable pub is_exception :
      Option Value → String → Option (String × String) → Option String → Joined → Bool
  unfolding same_text has_exception has_resource
  is_exception state kind dates resource j =
      same_text r.sql (some j.shipment.shipment_status) state
      && (has_exception kind dates j && has_resource resource j.shipment)

  unfoldable pub shipments_for_exception_view :
      String → String → Json → Option ℕ → Option ℕ → Option String → Result (List Joined)
  unfolding reference_timestamp window bound is_exception in_office join bounded_limit limited
  shipments_for_exception_view office kind shipment_state days asked resource =
      and_then (reference_timestamp r office) λ reference.
        and_then (window kind reference days) λ dates. and_then (bounded_limit asked) λ most.
          and_then (bound shipment_state) λ state. ok (
            limited most (
              order_by (λ a b. r.sql.is_earlier b.shipment.created_at a.shipment.created_at)
                (select_all
                  (λ j. in_office office j.shipment && is_exception state kind dates resource j)
                  (join r.tables.carriers (λ s. none ∷ []) r.tables.shipments))))
