-- ===== src/Jobs/Lists.antt =====
-- backend/app/jobs/store.py, `list_jobs`. `newest` is ORDER BY created_at DESC.
pub mod Own
use meridian_logistics.Prelude.{
  ℕ, zero, suc, String, Bool, true, Option, none, some, List, [], ◌∷◌, ◌==◌, ◌&&◌, if◌then◌else◌,
}
use meridian_logistics.Python.{Result, ok, Exec, and_then}
use meridian_logistics.Table.{select_all, limit}
use meridian_logistics.Jobs.Status.{JobStatus, value}
use meridian_logistics.Jobs.Store.{JobRow, JobState, JobStore, row_to_job}

-- OFFSET n
unfoldable pub offset : {R : Type 0} → ℕ → List R → List R
offset zero t = t
offset (suc n) [] = []
offset (suc n) (r ∷ t) = offset n t

-- A condition that is left out where the filter is None, or empty.
in_session : Option String → JobRow → Bool
in_session none r = true
in_session (some s) r = if s == "" then true else r.session_id == s

with_status : Option JobStatus → JobRow → Bool
with_status none r = true
with_status (some s) r = r.job_status == value s

unfoldable pub read_rows : List JobRow → Result (List JobState)
read_rows [] = ok []
read_rows (r ∷ t) = and_then (row_to_job r) λ j. and_then (read_rows t) λ js. ok (j ∷ js)

unfoldable pub is_listed : Option String → Option JobStatus → JobRow → Bool
unfolding in_session with_status
is_listed session status r = in_session session r && with_status status r

unfoldable pub list_jobs :
    (List JobRow → List JobRow)
    → Option String
    → Option JobStatus
    → ℕ
    → ℕ
    → Exec JobStore (List JobState)
unfolding read_rows is_listed
list_jobs newest session status skip n s =
    (read_rows (limit n (offset skip (newest (select_all (is_listed session status) s.jobs)))), s)
