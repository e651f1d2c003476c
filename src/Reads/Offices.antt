-- ===== src/Reads/Offices.antt =====
-- backend/app/tools/read_executor.py and db/read_repository.py: a read sees the rows of its own office
-- only.
use meridian_logistics.Prelude.{
  ℕ, String, ◌≡◌, refl, ap, sym, ◌∙◌, Bool, Option, none, some, List, [], ◌∷◌, ◌&&◌, ◌==◌,
  if◌then◌else◌,
}
use meridian_logistics.Python.{Result, ok, err, and_then, number, Dict}
use meridian_logistics.Python.Json.{Json, leaf, optional_text_leaf, text_leaf}
use meridian_logistics.Table.{select_all, order_by}
use meridian_logistics.Reads.Bounds.{normalize_date_range_days, normalize_ranking_metric}
use meridian_logistics.Reads.Repository.{
  ReadRepository, ShipmentRow, EventRow, in_office, reference_timestamp, cutoff, bound,
  shipment_events, has_shipment, shipments_for_metrics, is_measured,
}
use meridian_logistics.Reads.Joins.{
  Joined, carrier_rankings, is_ranked, join, quotes_of, grouped, limited, bounded_limit, by_count,
  by_rate, shipments_for_exception_view, is_exception, window, Ranking,
}
use meridian_logistics.Reads.Filters.{metrics_filters, ranking_filters, exception_filters}
use meridian_logistics.Reads.Isolation.{select_all-and, select_all-join}
use meridian_logistics.Reads.Tools.{
  ReadTools, ReadResult, metrics_of, rankings_of, exceptions_of, shipment_metrics_response,
  carrier_ranking_response, shipment_exception_response, execute_allowlisted_read, resource_id,
}

and_then-cong :
    {A B : Type 0} (x : Result A) (f g : A → Result B)
    → ((a : A) → f a ≡ g a)
    → and_then x f ≡ and_then x g
and_then-cong (ok a) f g h = h a
and_then-cong (err e) f g h = refl

abbrev pub event_in : String → EventRow → Bool
event_in office e = e.office_id == office

-- The repository with other shipments and events.
abbrev pub with_rows : ReadRepository → List ShipmentRow → List EventRow → ReadRepository
with_rows r shipments events = record r {
  tables = record r.tables { shipments = shipments; events = events };
}

module _ (r : ReadRepository) (office : String) (shipments : List ShipmentRow)
    (events : List EventRow)
    (same_shipments : select_all (in_office office) shipments
      ≡ select_all (in_office office) r.tables.shipments)
    (same_events : select_all (event_in office) events
      ≡ select_all (event_in office) r.tables.events) where
  abbrev other : ReadRepository
  other = with_rows r shipments events

  same_reference : reference_timestamp other office ≡ reference_timestamp r office
  unfolding reference_timestamp
  same_reference = rw same_shipments refl

  same_cutoff : (days : ℕ) → cutoff other office days ≡ cutoff r office days
  unfolding cutoff
  same_cutoff days = rw same_reference refl

  same_selected :
      (p : ShipmentRow → Bool)
      → select_all (λ s. in_office office s && p s) shipments
        ≡ select_all (λ s. in_office office s && p s) r.tables.shipments
  same_selected p =
      select_all-and (in_office office) p shipments
      ∙ ap (select_all p) same_shipments
      ∙ sym (select_all-and (in_office office) p r.tables.shipments)

  same_joined :
      (cs : _) (qs : _) (p : Joined → Bool)
      → select_all (λ j. in_office office j.shipment && p j) (join cs qs shipments)
        ≡ select_all (λ j. in_office office j.shipment && p j) (join cs qs r.tables.shipments)
  same_joined cs qs p =
      select_all-join office p cs qs shipments
      ∙ ap (λ (t : List ShipmentRow). select_all p (join cs qs t)) same_shipments
      ∙ sym (select_all-join office p cs qs r.tables.shipments)

  pub events_isolated :
      (id : Option String) → shipment_events other office id ≡ shipment_events r office id
  unfolding shipment_events
  events_isolated id = ap (order_by (λ a b. r.sql.is_earlier a.event_at b.event_at)) (
      select_all-and (event_in office) (has_shipment r id) events
      ∙ ap (select_all (has_shipment r id)) same_events
      ∙ sym (select_all-and (event_in office) (has_shipment r id) r.tables.events))

  pub metrics_isolated :
      (days : ℕ) (mode origin destination : Json)
      → shipments_for_metrics other office days mode origin destination
        ≡ shipments_for_metrics r office days mode origin destination
  unfolding shipments_for_metrics
  metrics_isolated days mode origin destination =
      and_then-cong (normalize_date_range_days r.reader (leaf (number days))) _ _ λ n.
        rw (same_cutoff n) (
          and_then-cong (cutoff r office n) _ _ λ start. and_then-cong (bound mode) _ _ λ m.
            and_then-cong (bound origin) _ _ λ o. and_then-cong (bound destination) _ _ λ d.
              ap
                (λ (t : List ShipmentRow).
                  ok (order_by (λ a b. r.sql.is_earlier b.created_at a.created_at) t))
                (same_selected (is_measured r start m o d)))

  pub rankings_isolated :
      (metric : String) (days : ℕ) (mode weight region : Json) (asked : Option ℕ)
      → carrier_rankings other office metric days mode weight region asked
        ≡ carrier_rankings r office metric days mode weight region asked
  unfolding carrier_rankings
  rankings_isolated metric days mode weight region asked =
      and_then-cong (normalize_ranking_metric (text_leaf metric)) _ _ λ k.
        and_then-cong (normalize_date_range_days r.reader (leaf (number days))) _ _ λ n.
          and_then-cong (bounded_limit r asked) _ _ λ most. rw (same_cutoff n) (
            and_then-cong (cutoff r office n) _ _ λ start. and_then-cong (bound mode) _ _ λ m.
              and_then-cong (bound weight) _ _ λ v. and_then-cong (bound region) _ _ λ place.
                ap
                  (λ (t : List Joined). ok (
                    limited r most (
                      order_by (if k == "shipment_count" then by_count r else by_rate r)
                        (grouped [] t))))
                  (same_joined r.tables.carriers (quotes_of r.tables.quotes)
                    (is_ranked r start m v place)))

  pub exceptions_isolated :
      (kind : String) (state : Json) (days asked : Option ℕ) (id : Option String)
      → shipments_for_exception_view other office kind state days asked id
        ≡ shipments_for_exception_view r office kind state days asked id
  unfolding shipments_for_exception_view
  exceptions_isolated kind state days asked id = rw same_reference (
      and_then-cong (reference_timestamp r office) _ _ λ reference.
        and_then-cong (window r kind reference days) _ _ λ dates.
          and_then-cong (bounded_limit r asked) _ _ λ most. and_then-cong (bound state) _ _ λ st.
            ap
              (λ (t : List Joined). ok (
                limited r most (
                  order_by (λ a b. r.sql.is_earlier b.shipment.created_at a.shipment.created_at)
                    t)))
              (same_joined r.tables.carriers (λ s. none ∷ []) (is_exception r st kind dates id)))

abbrev pub with_repository : ReadTools → ReadRepository → ReadTools
with_repository t r = record t { repository = r }

module _ (t : ReadTools) (office : String) (shipments : List ShipmentRow) (events : List EventRow)
    (same_shipments : select_all (in_office office) shipments
      ≡ select_all (in_office office) t.repository.tables.shipments)
    (same_events : select_all (event_in office) events
      ≡ select_all (event_in office) t.repository.tables.events) where
  abbrev others : ReadTools
  others = with_repository t (with_rows t.repository shipments events)

  metrics_response :
      (prompt : String) (arguments : Option (Dict Json))
      → shipment_metrics_response others office prompt arguments
        ≡ shipment_metrics_response t office prompt arguments
  unfolding shipment_metrics_response
  metrics_response prompt arguments =
      and_then-cong (metrics_filters t.prompts t.repository.reader prompt arguments) _ _ λ f.
        ap
          (λ (x : Result (List ShipmentRow)).
            and_then x λ rows. ok (metrics_of t.average_days f.metric rows))
          (metrics_isolated t.repository office shipments events same_shipments same_events
            f.date_range_days f.shipment_mode f.origin_region f.destination_region)

  ranking_response :
      (prompt : String) (arguments : Option (Dict Json))
      → carrier_ranking_response others office prompt arguments
        ≡ carrier_ranking_response t office prompt arguments
  unfolding carrier_ranking_response
  ranking_response prompt arguments =
      and_then-cong (ranking_filters t.prompts t.repository.reader prompt arguments) _ _ λ f.
        ap
          (λ (x : Result (List Ranking)). and_then x λ rows. ok (rankings_of f.ranking_metric rows))
          (rankings_isolated t.repository office shipments events same_shipments same_events
            f.ranking_metric f.date_range_days f.shipment_mode f.weight_class f.region f.limit)

  shown_exceptions :
      (js : List Joined)
      → exceptions_of others.repository office js ≡ exceptions_of t.repository office js
  unfolding exceptions_of
  shown_exceptions [] = refl
  shown_exceptions (j ∷ js) =
      rw
        (events_isolated t.repository office shipments events same_shipments same_events
          (some j.shipment.shipment_id))
        refl

  exception_response :
      (prompt : String) (active_resource : Option Json)
      → shipment_exception_response others office prompt active_resource
        ≡ shipment_exception_response t office prompt active_resource
  unfolding shipment_exception_response resource_id
  exception_response prompt active_resource =
      and_then-cong (exception_filters t.prompts t.repository.reader prompt) _ _ λ f.
        and_then-cong (resource_id t active_resource) _ _ λ id.
          rw
            (exceptions_isolated t.repository office shipments events same_shipments same_events
              f.exception_type (optional_text_leaf f.shipment_state) f.insurance_expiry_window_days
              none id)
            (and_then-cong
              (shipments_for_exception_view t.repository office f.exception_type
                (optional_text_leaf f.shipment_state) f.insurance_expiry_window_days none id)
              _ _ λ js. ap (λ (x : ReadResult). ok x) (shown_exceptions js))

-- A read for an office depends on the shipments and the events of no other office: where the tables
-- are replaced by others with the same shipments and events of that office, in the same order, every
-- read gives the same result or error, whatever the tool, the prompt, the resource and the arguments.
pub reads_are_isolated :
    (t : ReadTools) (office prompt : String) (shipments : List ShipmentRow) (events : List EventRow)
    (active_resource : Option Json) (tool_name : Option String) (arguments : Option (Dict Json))
    → select_all (in_office office) shipments
      ≡ select_all (in_office office) t.repository.tables.shipments
    → select_all (event_in office) events ≡ select_all (event_in office) t.repository.tables.events
    → execute_allowlisted_read
        (with_repository t (with_rows t.repository shipments events))
        prompt
        office
        active_resource
        tool_name
        arguments
      ≡ execute_allowlisted_read t prompt office active_resource tool_name arguments
unfolding execute_allowlisted_read
reads_are_isolated t office prompt shipments events active_resource tool_name arguments hs he =
    rw
      (
        metrics_response t office shipments events hs he prompt arguments,
        ranking_response t office shipments events hs he prompt arguments,
        exception_response t office shipments events hs he prompt active_resource,
      )
      refl
