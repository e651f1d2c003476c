-- ===== src/Reads/Bounds.antt =====
-- backend/app/db/read_repository.py: the normalisation of what a caller asks for.
use meridian_logistics.Prelude.{ℕ, ltb, leb, String, Option, none, some, ◌==◌, ◌||◌, if◌then◌else◌}
use Prim.Native.String.{◌++◌}
use meridian_logistics.Python.{Error, value_error, type_error, Result, ok, err, null, bool, text}
use meridian_logistics.Python.Json.{
  Reader, Json, leaf, array, object, Fields, find, int_json, truth_of,
}

abbrev pub max_read_date_range_days : ℕ
max_read_date_range_days = 90

abbrev pub max_read_limit : ℕ
max_read_limit = 5

abbrev pub not_positive : String → Error
not_positive field_name = value_error (field_name ++ " must be a positive integer")

unfoldable pub or_null : Option Json → Json
or_null none = leaf null
or_null (some v) = v

-- raw_value.get("days") or raw_value.get("value")
unfoldable pub days_or_value : Fields → Json
unfolding or_null truth_of find
days_or_value fs =
    if truth_of (or_null (find fs "days"))
    then or_null (find fs "days")
    else or_null (find fs "value")

-- candidate, where raw_value is not a bool
unfoldable pub candidate : Json → Json
unfolding days_or_value
candidate (object fs) = days_or_value fs
candidate j = j

unfoldable pub at_most : ℕ → ℕ → ℕ
at_most maximum n = if leb n maximum then n else maximum

-- except (TypeError, ValueError), and the test of the sign
unfoldable pub bounded : String → ℕ → Result ℕ → Result ℕ
unfolding at_most
bounded field_name maximum (ok n) =
    if ltb n 1 then err (not_positive field_name) else ok (at_most maximum n)
bounded field_name maximum (err (value_error m)) = err (not_positive field_name)
bounded field_name maximum (err type_error) = err (not_positive field_name)
bounded field_name maximum (err e) = err e

unfoldable pub coerce_bounded_int : Reader → Json → String → ℕ → Result ℕ
unfolding bounded candidate int_json
coerce_bounded_int r (leaf (bool b)) field_name maximum = err (not_positive field_name)
coerce_bounded_int r j field_name maximum = bounded field_name maximum (int_json r (candidate j))

unfoldable pub normalize_date_range_days : Reader → Json → Result ℕ
unfolding coerce_bounded_int
normalize_date_range_days r j = coerce_bounded_int r j "date_range" max_read_date_range_days

unfoldable pub normalize_limit : Reader → Json → Result ℕ
unfolding coerce_bounded_int
normalize_limit r j = coerce_bounded_int r j "limit" max_read_limit

-- raw_value in {a, b}; a list or a dict cannot be hashed
unfoldable pub one_of : String → String → String → Json → Result String
one_of message a b (leaf (text s)) = if s == a || s == b then ok s else err (value_error message)
one_of message a b (leaf v) = err (value_error message)
one_of message a b (array xs) = err type_error
one_of message a b (object fs) = err type_error

unfoldable pub normalize_metric : Json → Result String
unfolding one_of
normalize_metric =
    one_of "metric must be one of ['average_transit_time', 'shipment_count']" "average_transit_time"
      "shipment_count"

unfoldable pub normalize_ranking_metric : Json → Result String
unfolding one_of
normalize_ranking_metric =
    one_of "ranking_metric must be one of ['on_time_rate', 'shipment_count']" "on_time_rate"
      "shipment_count"
