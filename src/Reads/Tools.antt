-- ===== src/Reads/Tools.antt =====
-- backend/app/tools/read_executor.py: the three read tools and the choice among them. The result of a
-- tool is a record, its components are JSON.
use Prim.Native.String.{◌++◌}
use meridian_logistics.Prelude.{
  ℕ, ◌+◌, String, Bool, true, false, Option, none, some, List, [], ◌∷◌, map, ◌==◌, length,
  if◌then◌else◌,
}
use meridian_logistics.Python.{
  value_error, Result, ok, err, and_then, Value, null, number, decimal, str, Dict, or_default,
}
use meridian_logistics.Python.Json.{
  Json, leaf, array, object, items_of, fields_of, text_leaf, optional_text_leaf, get_key, text_of,
}
use meridian_logistics.Jobs.Methods.{text_or}
use meridian_logistics.Reads.Repository.{
  ReadRepository, ShipmentRow, EventRow, shipments_for_metrics, shipment_events,
}
use meridian_logistics.Reads.Joins.{Joined, Ranking, carrier_rankings, shipments_for_exception_view}
use meridian_logistics.Reads.Filters.{
  Prompts, metrics_filters, ranking_filters, exception_filters, classify_read_tool,
}

pub record ReadResult : Type 0 where
  pub tool_name : String
  pub summary : String
  pub components : List Json
  pub denial_reason_class : Option String

-- A dict and a list, as JSON.
abbrev pub dict : Dict Json → Json
dict d = object (fields_of d)

abbrev pub items : List Json → Json
items xs = array (items_of xs)

-- {"component_id": ..., "component_type": "message_block", "body": ..., "tone": ...}
unfoldable pub message_block : String → String → String → Json
unfolding fields_of
message_block component_id body tone = dict (
    ("component_id", text_leaf component_id)
    ∷ ("component_type", text_leaf "message_block")
    ∷ ("body", text_leaf body)
    ∷ ("tone", text_leaf tone)
    ∷ [])

unfoldable pub empty_read_result : String → String → ReadResult
unfolding message_block
empty_read_result tool_name summary = record {
  tool_name = tool_name;
  summary = summary;
  components = message_block "msg-empty-read" summary "informational" ∷ [];
  denial_reason_class = none;
}

-- What a call is given besides the request: the repository, the functions of prompts, and
-- round(total / count / 24, 2) of the hours.
pub record ReadTools : Type 0 where
  pub repository : ReadRepository
  pub prompts : Prompts
  pub average_days : ℕ → ℕ → Value

unfoldable pub transit_total : List ShipmentRow → ℕ
transit_total [] = 0
transit_total (s ∷ t) = s.transit_hours + transit_total t

metric_entry : String → Value → Option String → Json
unfolding fields_of
metric_entry label value unit =
    dict
      (("label", text_leaf label) ∷ ("value", leaf value) ∷ ("unit", optional_text_leaf unit) ∷ [])

metric_card : String → String → List Json → List Json
unfolding fields_of items_of
metric_card component_id title metrics =
    dict (
      ("component_id", text_leaf component_id)
      ∷ ("component_type", text_leaf "metric_card")
      ∷ ("title", text_leaf title)
      ∷ ("metrics", items metrics)
      ∷ [])
    ∷ []

metrics_result : String → Value → Value → ReadResult
unfolding str metric_card metric_entry
metrics_result metric days count =
    let loads : Json = metric_entry "Loads" count none in
    let transit : Json = metric_entry "Average transit time" days (some "days") in
    if metric == "shipment_count"
    then record {
      tool_name = "shipment_metrics_lookup";
      summary = str count ++ " Memphis shipment(s) matched the current scope.";
      components = metric_card "metric-shipment-count" "Shipment count" (loads ∷ transit ∷ []);
      denial_reason_class = none;
    }
    else record {
      tool_name = "shipment_metrics_lookup";
      summary =
          "Average transit time is "
          ++ str days
          ++ " days across "
          ++ str count
          ++ " Memphis shipment(s).";
      components = metric_card "metric-transit-time" "Transit metrics" (transit ∷ loads ∷ []);
      denial_reason_class = none;
    }

unfoldable pub metrics_of : (ℕ → ℕ → Value) → String → List ShipmentRow → ReadResult
unfolding metrics_result transit_total empty_read_result
metrics_of average metric [] =
    empty_read_result "shipment_metrics_lookup"
      "No Memphis shipment metrics matched the current scope."
metrics_of average metric (s ∷ t) =
    metrics_result metric (average (transit_total (s ∷ t)) (length (s ∷ t)))
      (number (length (s ∷ t)))

column : String → String → String → Json
unfolding fields_of
column key label data_type =
    dict (
      ("key", text_leaf key) ∷ ("label", text_leaf label) ∷ ("data_type", text_leaf data_type) ∷ [])

table : String → String → List Json → List Json → Json
unfolding fields_of items_of
table component_id title columns rows = dict (
    ("component_id", text_leaf component_id)
    ∷ ("component_type", text_leaf "table")
    ∷ ("title", text_leaf title)
    ∷ ("columns", items columns)
    ∷ ("rows", items rows)
    ∷ [])

ranking_row : Ranking → Json
unfolding items_of
ranking_row g =
    items (text_leaf g.carrier_name ∷ leaf g.on_time_rate ∷ leaf (number g.shipment_count) ∷ [])

ranking_columns : List Json
unfolding column
ranking_columns =
    column "carrier_name" "Carrier" "string"
    ∷ column "on_time_rate" "On time %" "number"
    ∷ column "shipment_count" "Loads" "number"
    ∷ []

ranking_summary : String → Ranking → String
unfolding str decimal
ranking_summary metric g =
    if metric == "shipment_count"
    then "Top Memphis carrier is "
      ++ g.carrier_name
      ++ " with "
      ++ decimal g.shipment_count
      ++ " load(s)."
    else "Top Memphis carrier is " ++ g.carrier_name ++ " at " ++ str g.on_time_rate ++ "% on-time."

unfoldable pub rankings_of : String → List Ranking → ReadResult
unfolding ranking_summary ranking_row ranking_columns table empty_read_result
rankings_of metric [] =
    empty_read_result "carrier_ranking_lookup"
      "No Memphis carrier rankings matched the current scope."
rankings_of metric (g ∷ gs) = record {
  tool_name = "carrier_ranking_lookup";
  summary = ranking_summary metric g;
  components =
      table "table-carrier-rankings" "Carrier rankings" ranking_columns (map ranking_row (g ∷ gs))
      ∷ [];
  denial_reason_class = none;
}

exception_columns : List Json
unfolding column
exception_columns =
    column "shipment_id" "Shipment" "string"
    ∷ column "exception_type" "Exception" "string"
    ∷ column "carrier_name" "Carrier" "string"
    ∷ column "eta_at" "ETA" "string"
    ∷ []

exception_row : Joined → Json
unfolding items_of
exception_row j = items (
    text_leaf j.shipment.shipment_id
    ∷ optional_text_leaf j.shipment.exception_type
    ∷ text_leaf j.carrier.carrier_name
    ∷ text_leaf j.shipment.eta_at
    ∷ [])

event_entry : EventRow → Json
unfolding fields_of
event_entry e = dict (
    ("label", text_leaf e.event_type)
    ∷ ("timestamp", text_leaf e.event_at)
    ∷ ("state", text_leaf "active")
    ∷ [])

timeline : List EventRow → Json
unfolding fields_of items_of event_entry
timeline events = dict (
    ("component_id", text_leaf "timeline-shipment-events")
    ∷ ("component_type", text_leaf "timeline")
    ∷ ("title", text_leaf "Shipment timeline")
    ∷ ("events", items (map event_entry events))
    ∷ [])

-- The events are those of the first shipment.
unfoldable pub exceptions_of : ReadRepository → String → List Joined → ReadResult
unfolding exception_row exception_columns table timeline shipment_events decimal empty_read_result
exceptions_of r office [] =
    empty_read_result "shipment_exception_lookup"
      "No Memphis shipment exceptions matched the current scope."
exceptions_of r office (j ∷ js) = record {
  tool_name = "shipment_exception_lookup";
  summary =
      "Shipment exceptions found for " ++ decimal (length (j ∷ js)) ++ " Memphis shipment(s).";
  components =
      table "table-shipment-exceptions" "Shipment exceptions" exception_columns
        (map exception_row (j ∷ js))
      ∷ timeline (shipment_events r office (some j.shipment.shipment_id))
      ∷ [];
  denial_reason_class = none;
}

module _ (t : ReadTools) where
  unfoldable pub shipment_metrics_response :
      String → String → Option (Dict Json) → Result ReadResult
  unfolding metrics_filters shipments_for_metrics metrics_of
  shipment_metrics_response office prompt arguments =
      and_then (metrics_filters t.prompts t.repository.reader prompt arguments) λ f.
        and_then
          (shipments_for_metrics t.repository office f.date_range_days f.shipment_mode
            f.origin_region f.destination_region)
          λ shipments. ok (metrics_of t.average_days f.metric shipments)

  unfoldable pub carrier_ranking_response : String → String → Option (Dict Json) → Result ReadResult
  unfolding ranking_filters carrier_rankings rankings_of
  carrier_ranking_response office prompt arguments =
      and_then (ranking_filters t.prompts t.repository.reader prompt arguments) λ f.
        and_then
          (carrier_rankings t.repository office f.ranking_metric f.date_range_days f.shipment_mode
            f.weight_class f.region f.limit)
          λ rows. ok (rankings_of f.ranking_metric rows)

  -- None if active_resource is None else str(active_resource.get("resource_id"))
  unfoldable pub resource_id : Option Json → Result (Option String)
  unfolding get_key text_of
  resource_id none = ok none
  resource_id (some j) =
      and_then (get_key j "resource_id")
        λ found. ok (some (text_of t.repository.reader (or_default found (leaf null))))

  unfoldable pub shipment_exception_response : String → String → Option Json → Result ReadResult
  unfolding exception_filters resource_id shipments_for_exception_view exceptions_of
  shipment_exception_response office prompt active_resource =
      and_then (exception_filters t.prompts t.repository.reader prompt) λ f.
        and_then (resource_id active_resource) λ id.
          and_then
            (shipments_for_exception_view t.repository office f.exception_type
              (optional_text_leaf f.shipment_state) f.insurance_expiry_window_days none id)
            λ shipments. ok (exceptions_of t.repository office shipments)

  unfoldable pub is_active : Option Json → Bool
  is_active none = false
  is_active (some j) = true

  unfoldable pub execute_allowlisted_read :
      String → String → Option Json → Option String → Option (Dict Json) → Result ReadResult
  unfolding text_or classify_read_tool is_active shipment_metrics_response carrier_ranking_response
      shipment_exception_response
  execute_allowlisted_read prompt office active_resource tool_name arguments =
      let selected : String =
        text_or tool_name (classify_read_tool t.prompts prompt (is_active active_resource)) in
      if selected == "shipment_metrics_lookup"
      then shipment_metrics_response office prompt arguments
      else if selected == "carrier_ranking_lookup"
      then carrier_ranking_response office prompt arguments
      else if selected == "shipment_exception_lookup"
      then shipment_exception_response office prompt active_resource
      else err (value_error ("Unsupported read tool: " ++ selected))
