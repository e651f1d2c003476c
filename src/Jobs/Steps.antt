-- ===== src/Jobs/Steps.antt =====
-- backend/app/jobs/store.py: what one method call does to one row of the table.
use meridian_logistics.Prelude.{
  String, ◌≡◌, refl, inl, inr, true, some, arith, ◌==◌, eq_iff, Bool-cases, option_map, ◌∙◌, ap,
}
use meridian_logistics.Python.{ok}
use meridian_logistics.Table.{apply_if}
use meridian_logistics.Table.Laws.{select-update, select_holds}
use meridian_logistics.Jobs.Status.{JobStatus, value, from_string, valid_transition}
use meridian_logistics.Jobs.Store.{JobRow, JobStore, has_id, row, set_rows}

-- The columns that record how a job ended.
pub record SameOutcome (r r' : JobRow) : Type 0 where
  pub job_status : r'.job_status ≡ r.job_status
  pub completed_response_id : r'.completed_response_id ≡ r.completed_response_id
  pub result_payload : r'.result_payload ≡ r.result_payload
  pub completed_at : r'.completed_at ≡ r.completed_at
  pub error_message : r'.error_message ≡ r.error_message
  pub failed_at : r'.failed_at ≡ r.failed_at
  pub progress_message : r'.progress_message ≡ r.progress_message

-- Who owns the job and who may poll it.
pub record SameOwner (r r' : JobRow) : Type 0 where
  pub job_id : r'.job_id ≡ r.job_id
  pub session_id : r'.session_id ≡ r.session_id
  pub broker_id : r'.broker_id ≡ r.broker_id
  pub office_id : r'.office_id ≡ r.office_id
  pub job_poll_token : r'.job_poll_token ≡ r.job_poll_token
  pub created_at : r'.created_at ≡ r.created_at

-- A row is left with its outcome, or its status moves along a legal transition.
pub data RowStep (r r' : JobRow) : Type 0 where
  kept : SameOutcome r r' → RowStep r r'
  moved :
      (a b : JobStatus)
      → from_string r.job_status ≡ ok a
      → r'.job_status ≡ value b
      → valid_transition a b ≡ true
      → RowStep r r'

-- What the store holds of one job after a call, given what it held before.
pub record Follows (k : String) (s : JobStore) (r : JobRow) : Type 0 where
  pub after : JobRow
  pub found : row k s ≡ some after
  pub owner : SameOwner r after
  pub step : RowStep r after

pub SameOutcome-refl : (r : JobRow) → SameOutcome r r
SameOutcome-refl r = ground arith

pub SameOwner-refl : (r : JobRow) → SameOwner r r
SameOwner-refl r = ground arith

pub SameOutcome-trans : {a b c : JobRow} → SameOutcome a b → SameOutcome b c → SameOutcome a c
SameOutcome-trans p q = ground arith

pub SameOwner-trans : {a b c : JobRow} → SameOwner a b → SameOwner b c → SameOwner a c
SameOwner-trans p q = ground arith

pub unmoved :
    (k : String) (s s' : JobStore) (r : JobRow) → row k s ≡ some r → s' ≡ s → Follows k s' r
unmoved k s s' r h e = record {
  after = r;
  found = rw e h;
  owner = SameOwner-refl r;
  step = kept (SameOutcome-refl r);
}

-- The row of a job after an UPDATE of some job's row that keeps the primary key.
pub row-set_rows :
    (k j : String) (f : JobRow → JobRow)
    → ((r : JobRow) → (f r).job_id ≡ r.job_id)
    → (s : JobStore) → row j (set_rows k f s) ≡ option_map (apply_if (has_id k) f) (row j s)
row-set_rows k j f same s =
    select-update (has_id j) (has_id k) f (λ r. ap (λ (i : String). i == j) (same r)) s.jobs

-- An UPDATE moves the rows of other jobs not at all, and the row of its own job by its SET list.
pub updated :
    (k j : String) (f : JobRow → JobRow) (s : JobStore) (r : JobRow)
    → ((x : JobRow) → SameOwner x (f x))
    → (r.job_id ≡ k → RowStep r (f r))
    → row j s ≡ some r
    → Follows j (set_rows k f s) r
updated k j f s r own move h = elim (Bool-cases (r.job_id == k)) [
  | inl e ↦ record {
    after = f r;
    found = row-set_rows k j f (λ x. (own x).job_id) s ∙ rw (h, e) refl;
    owner = own r;
    step = move ((eq_iff r.job_id k).0 e);
  }
  | inr e ↦ record {
    after = r;
    found = row-set_rows k j f (λ x. (own x).job_id) s ∙ rw (h, e) refl;
    owner = SameOwner-refl r;
    step = kept (SameOutcome-refl r);
  }
]

-- A query by primary key finds a row with that key.
pub row-job_id : (k : String) (s : JobStore) (r : JobRow) → row k s ≡ some r → r.job_id ≡ k
row-job_id k s r h = (eq_iff r.job_id k).0 (select_holds (has_id k) s.jobs r h)
