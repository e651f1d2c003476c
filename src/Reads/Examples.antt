-- ===== src/Reads/Examples.antt =====
-- Reads of a repository with the shipments of two offices.
use meridian_logistics.Prelude.{
  ℕ, String, ◌≡◌, refl, ◌≤◌, true, false, none, some, List, [], ◌∷◌, arith, length,
}
use meridian_logistics.Python.{ok, err, value_error, null, number, str}
use meridian_logistics.Python.Json.{leaf}
use meridian_logistics.Table.{select_all, order_by, limit}
use meridian_logistics.Reads.Bounds.{coerce_bounded_int, normalize_limit}
use meridian_logistics.Reads.Repository.{
  in_office, ReadRepository, ShipmentRow, CarrierRow, EventRow,
}
use meridian_logistics.Reads.Joins.{Ranking, carrier_rankings}
use meridian_logistics.Reads.Tools.{ReadTools, execute_allowlisted_read}
use meridian_logistics.Reads.Ranges.{coerce_bounded_int_range, carrier_rankings_limited}
use meridian_logistics.Reads.Offices.{with_rows, with_repository, reads_are_isolated}

abbrev shipment : String → String → String → ShipmentRow
shipment id office carrier = record {
  shipment_id = id;
  office_id = office;
  broker_id = "broker-123";
  carrier_id = carrier;
  quote_id = none;
  origin_region = "Memphis";
  destination_region = "Dallas";
  shipment_mode = "FTL";
  shipment_status = "delivered";
  exception_type = none;
  transit_hours = 30;
  eta_at = "2026-03-02T00:00:00Z";
  created_at = "2026-03-01T00:00:00Z";
}

abbrev carrier : String → CarrierRow
carrier id = record {
  carrier_id = id;
  carrier_name = id;
  shipment_mode = "FTL";
  on_time_rate = number 97;
  insurance_expiry_date = "2026-04-01";
}

abbrev event : EventRow
event = record {
  shipment_id = "ship-9";
  office_id = "nashville";
  event_type = "delivered";
  event_at = "2026-03-01T00:00:00Z";
  event_summary = "Delivered.";
}

abbrev own : List ShipmentRow
own =
    shipment "ship-1" "memphis" "a"
    ∷ shipment "ship-2" "memphis" "b"
    ∷ shipment "ship-3" "memphis" "b"
    ∷ []

abbrev repository : ReadRepository
repository = record {
  reader = record { shown = λ j. "[]"; int_of = λ s. err (value_error s) };
  sql = record {
    lower = str;
    is_earlier = λ a b. false;
    is_since = λ a b. true;
    between = λ a b c. true;
    text_lt = λ a b. false;
    rate_lt = λ a b. false;
    replace = λ s a b. s;
  };
  calendar = record {
    now = "2026-03-01T00:00:00Z";
    from_iso_format = ok;
    minus_days = λ s n. ok s;
    date_of = λ s. s;
    date_plus_days = λ s n. ok s;
  };
  tables = record {
    carriers = carrier "a" ∷ carrier "b" ∷ [];
    quotes = [];
    shipments = shipment "ship-9" "nashville" "a" ∷ own;
    events = event ∷ [];
  };
}

abbrev tools : ReadTools
tools = record {
  repository = repository;
  prompts = record {
    lower = λ s. s;
    day_window = λ s. none;
    top_limit = λ s. none;
    lane = λ s. none;
  };
  average_days = λ total count. number 1;
}

coerce_bounded_int_range_example :
    (1 ≤ 90)
    × (90 ≤ 90)
    × (coerce_bounded_int repository.reader (leaf (number 90)) "date_range" 90 ≡ ok 90)
coerce_bounded_int_range_example =
    coerce_bounded_int_range repository.reader (leaf (number 400)) "date_range" 90 90 (omega arith)
      (unfold coerce_bounded_int in refl)

abbrev ranking : String → ℕ → Ranking
ranking id n = record {
  carrier_id = id;
  carrier_name = id;
  on_time_rate = number 97;
  shipment_count = n;
}

-- The carrier with two loads comes first.
best :
    carrier_rankings repository "memphis" "shipment_count" 30
      (leaf null)
      (leaf null)
      (leaf null)
      (some 1)
    ≡ ok (ranking "b" 2 ∷ [])
unfolding carrier_rankings normalize_limit select_all order_by limit
best = refl

carrier_rankings_limited_example :
    (1 ≤ 1)
    × (length {A = Ranking} (ranking "b" 2 ∷ []) ≤ 1)
    × (length {A = Ranking} (ranking "b" 2 ∷ []) ≤ 5)
carrier_rankings_limited_example =
    carrier_rankings_limited repository "memphis" "shipment_count" 30 1 (leaf null) (leaf null)
      (leaf null) (ranking "b" 2 ∷ []) best

-- Without the rows of the other office the answer is the same.
reads_are_isolated_example :
    execute_allowlisted_read
      (with_repository tools (with_rows repository own []))
      "top carrier"
      "memphis"
      none
      none
      none
    ≡ execute_allowlisted_read tools "top carrier" "memphis" none none none
reads_are_isolated_example =
    reads_are_isolated tools "memphis" "top carrier" own [] none none none
      (unfold select_all in_office in refl) (unfold select_all in_office in refl)
