-- ===== src/Api/Lists.antt =====
-- backend/app/api/routes/jobs.py, `list_jobs`.
use meridian_logistics.Prelude.{
  ℕ, String, Option, none, some, List, [], ◌∷◌, length, if◌then◌else◌, ◌==◌,
}
use meridian_logistics.Python.{Result, ok, Exec, pure, lift, gets, ◌>>=◌, and_then, Dict}
use meridian_logistics.Python.Json.{Json}
use meridian_logistics.Table.{limit}
use meridian_logistics.Jobs.Status.{JobStatus, from_string}
use meridian_logistics.Jobs.Store.{JobRow, JobState}
use meridian_logistics.Jobs.Lists.{offset}
use meridian_logistics.Jobs.Lists as Lists
use meridian_logistics.Jobs.Documents.{to_dict}
use meridian_logistics.Session.{get_session_by_access_token}
use meridian_logistics.Api.Jobs.{App, on_jobs, known}

pub record JobListEnvelope (I : Type 0) : Type 0 where
  pub jobs : List I
  pub total : ℕ
  pub filtered : ℕ
  pub skipped : ℕ
  pub page : ℕ

-- JobStatusEnum.from_string(status) if status else None
status_filter : Option String → Result (Option JobStatus)
status_filter none = ok none
status_filter (some s) = if s == "" then ok none else and_then (from_string s) λ x. ok (some x)

-- `item` is model_validate of AsyncJobListEnvelope.
module _ {I : Type 0} (item : Dict Json → Result I) where
  items : List JobState → Result (List I)
  items [] = ok []
  items (j ∷ js) = and_then (item (to_dict j)) λ i. and_then (items js) λ is. ok (i ∷ is)

  unfoldable pub list_jobs :
      (List JobRow → List JobRow)
      → String
      → String
      → Option String
      → ℕ
      → ℕ
      → Exec App (JobListEnvelope I)
  unfolding items status_filter
  list_jobs newest session_id token status skip n = do
    found ← gets (λ a. get_session_by_access_token session_id token a.session_store)
    session ← known "unknown session" found
    filter ← lift (status_filter status)
    all ← on_jobs (Lists.list_jobs newest (some session_id) filter 0 10000)
    total ← on_jobs (Lists.list_jobs newest (some session_id) none 0 10000)
    shown ← lift (items (limit n (offset skip all)))
    pure (record {
      jobs = shown;
      total = length total;
      filtered = length all;
      skipped = skip;
      page = n;
    })
