-- ===== src/Reads/Repository.antt =====
-- backend/app/db/read_repository.py, `ReadRepository`: its tables, and the queries of the read tools.
-- What SQLite and `datetime` do with texts and dates is a record of functions; a datetime is its
-- text in ISO format.
use meridian_logistics.Prelude.{
  ℕ, String, Bool, true, false, Option, none, some, List, [], ◌∷◌, ◌==◌, ◌&&◌, if◌then◌else◌,
}
use meridian_logistics.Python.{binding_error, Result, ok, err, and_then, Value, null, number}
use meridian_logistics.Python.Json.{Reader, Json, leaf, array, object}
use meridian_logistics.Table.{select_all, order_by}
use meridian_logistics.Reads.Bounds.{normalize_date_range_days}

pub record CarrierRow : Type 0 where
  pub carrier_id : String
  pub carrier_name : String
  pub shipment_mode : String
  pub on_time_rate : Value
  pub insurance_expiry_date : String

pub record QuoteRow : Type 0 where
  pub quote_id : String
  pub office_id : String
  pub broker_id : String
  pub carrier_id : String
  pub origin_region : String
  pub destination_region : String
  pub shipment_mode : String
  pub weight_class : String
  pub pickup_date : String
  pub quote_status : String

pub record ShipmentRow : Type 0 where
  pub shipment_id : String
  pub office_id : String
  pub broker_id : String
  pub carrier_id : String
  pub quote_id : Option String
  pub origin_region : String
  pub destination_region : String
  pub shipment_mode : String
  pub shipment_status : String
  pub exception_type : Option String
  pub transit_hours : ℕ
  pub eta_at : String
  pub created_at : String

pub record EventRow : Type 0 where
  pub shipment_id : String
  pub office_id : String
  pub event_type : String
  pub event_at : String
  pub event_summary : String

pub record Tables : Type 0 where
  pub carriers : List CarrierRow
  pub quotes : List QuoteRow
  pub shipments : List ShipmentRow
  pub events : List EventRow

-- What SQLite gives: `lower` of a value that is not NULL, `is_earlier a b` for datetime(a) <
-- datetime(b), `is_since` for >=, `between a b c` for date(a) BETWEEN date(b) AND date(c), the order
-- of texts and of rates, and replace(), which is str.replace() as well.
pub record Sql : Type 0 where
  pub lower : Value → String
  pub is_earlier : String → String → Bool
  pub is_since : String → String → Bool
  pub between : String → String → String → Bool
  pub text_lt : String → String → Bool
  pub rate_lt : Value → Value → Bool
  pub replace : String → String → String → String

-- What `datetime` gives: now, fromisoformat, and the differences and the sums that may overflow.
pub record Calendar : Type 0 where
  pub now : String
  pub from_iso_format : String → Result String
  pub minus_days : String → ℕ → Result String
  pub date_of : String → String
  pub date_plus_days : String → ℕ → Result String

pub record ReadRepository : Type 0 where
  pub reader : Reader
  pub sql : Sql
  pub calendar : Calendar
  pub tables : Tables

-- What a parameter of a statement is bound to; None stands for no condition.
unfoldable pub bound : Json → Result (Option Value)
bound (leaf null) = ok none
bound (leaf v) = ok (some v)
bound (array xs) = err binding_error
bound (object fs) = err binding_error

-- AND lower(column) = lower(?), where the parameter is given; NULL is equal to nothing.
unfoldable pub same_text : Sql → Option String → Option Value → Bool
same_text q column none = true
same_text q none (some v) = false
same_text q (some s) (some v) = q.lower (Value.text s) == q.lower v

unfoldable pub in_office : String → ShipmentRow → Bool
in_office office s = s.office_id == office

-- SELECT MAX(created_at)
unfoldable pub latest : Sql → Option String → List ShipmentRow → Option String
latest q best [] = best
latest q none (s ∷ t) = latest q (some s.created_at) t
latest q (some b) (s ∷ t) = latest q (some (if q.text_lt b s.created_at then s.created_at else b)) t

module _ (r : ReadRepository) where
  -- _parse_timestamp
  unfoldable pub parse_timestamp : Option String → Result String
  parse_timestamp none = ok r.calendar.now
  parse_timestamp (some raw) =
      if raw == ""
      then ok r.calendar.now
      else r.calendar.from_iso_format (r.sql.replace raw "Z" "+00:00")

  unfoldable pub reference_timestamp : String → Result String
  unfolding parse_timestamp latest in_office
  reference_timestamp office =
      parse_timestamp (latest r.sql none (select_all (in_office office) r.tables.shipments))

  -- (reference_timestamp - timedelta(days=...)).isoformat().replace("+00:00", "Z")
  unfoldable pub cutoff : String → ℕ → Result String
  unfolding reference_timestamp
  cutoff office days = and_then (reference_timestamp office) λ reference.
      and_then (r.calendar.minus_days reference days) λ start. ok (r.sql.replace start "+00:00" "Z")

  unfoldable pub has_shipment : Option String → EventRow → Bool
  has_shipment none e = true
  has_shipment (some id) e = e.shipment_id == id

  unfoldable pub shipment_events : String → Option String → List EventRow
  unfolding has_shipment
  shipment_events office shipment_id =
      order_by (λ a b. r.sql.is_earlier a.event_at b.event_at)
        (select_all (λ e. e.office_id == office && has_shipment shipment_id e) r.tables.events)

  unfoldable pub is_measured :
      String → Option Value → Option Value → Option Value → ShipmentRow → Bool
  unfolding same_text
  is_measured start mode origin destination s =
      r.sql.is_since s.created_at start
      && (same_text r.sql (some s.shipment_mode) mode
          && (same_text r.sql (some s.origin_region) origin
              && same_text r.sql (some s.destination_region) destination))

  -- The days are those that the caller has normalised.
  unfoldable pub shipments_for_metrics : String → ℕ → Json → Json → Json → Result (List ShipmentRow)
  unfolding cutoff is_measured bound in_office normalize_date_range_days
  shipments_for_metrics office days shipment_mode origin_region destination_region =
      and_then (normalize_date_range_days r.reader (leaf (number days))) λ bounded_days.
        and_then (cutoff office bounded_days) λ start. and_then (bound shipment_mode) λ mode.
          and_then (bound origin_region) λ origin.
            and_then (bound destination_region) λ destination. ok (
              order_by (λ a b. r.sql.is_earlier b.created_at a.created_at)
                (select_all (λ s. in_office office s && is_measured start mode origin destination s)
                  r.tables.shipments))
