-- ===== src/Orchestrator/Merges.antt =====
-- backend/app/orchestrator/graph.py: which jobs count as ended or running, and whose result is merged.
use meridian_logistics.Prelude.{
  String, ◌≡◌, refl, ◌↔◌, inl, inr, Bool, true, false, none, some, [], ◌∷◌, arith, ap, Option-cases,
  ◌&&◌, ◌∙◌, subst,
}
use meridian_logistics.Python.{Error, Result, ok, err, Result-cases}
use meridian_logistics.Jobs.Status.{
  JobStatus, pending, running, succeeded, failed, cancelled, expired, value, is_terminal_status,
}
use meridian_logistics.Jobs.Store.{JobRow, JobState, JobStore, row, row_to_job}
use meridian_logistics.Controller.Policy.{should_merge_subagent_result}
use meridian_logistics.Orchestrator.{
  status_in, orchestrator_job_is_terminal, orchestrator_job_is_running,
  orchestrator_can_merge_job_result, controller_should_merge_subagent_result,
}

-- The store has the job `k`, with this status.
pub record HasStatus (k : String) (s : JobStore) (b : JobStatus) : Type 0 where
  pub its_row : JobRow
  pub job : JobState
  pub found : row k s ≡ some its_row
  pub read : row_to_job its_row ≡ ok job
  pub status : job.status ≡ b

ended_in :
    (b : JobStatus)
    → status_in ("succeeded" ∷ "failed" ∷ "cancelled" ∷ "expired" ∷ []) b ≡ is_terminal_status b
unfolding status_in is_terminal_status
ended_in pending = refl
ended_in running = refl
ended_in succeeded = refl
ended_in failed = refl
ended_in cancelled = refl
ended_in expired = refl

unfoldable pub is_running_status : JobStatus → Bool
is_running_status running = true
is_running_status _ = false

running_in : (b : JobStatus) → status_in ("queued" ∷ "running" ∷ []) b ≡ is_running_status b
unfolding status_in is_running_status
running_in pending = refl
running_in running = refl
running_in succeeded = refl
running_in failed = refl
running_in cancelled = refl
running_in expired = refl

-- Of a job that is there, the orchestrator says that it has ended exactly if its status is terminal,
-- and that it runs exactly if its status is `running`: a pending job is neither.
pub job_checks :
    (k : String) (s : JobStore) (b : JobStatus)
    → HasStatus k s b
    → (orchestrator_job_is_terminal k s ≡ (ok (is_terminal_status b), s))
      × (orchestrator_job_is_running k s ≡ (ok (is_running_status b), s))
unfolding orchestrator_job_is_terminal orchestrator_job_is_running
job_checks k s b h = (
  rw (h.found, h.read, h.status, ended_in b) refl,
  rw (h.found, h.read, h.status, running_in b) refl,
)

-- What a merge rests on.
pub record MayMerge (k : String) (s : JobStore) (requested mutates conflicts : Bool) : Type 0 where
  pub ended_well : HasStatus k s succeeded
  pub asked : requested ≡ true
  pub no_mutation : mutates ≡ false
  pub no_conflict : conflicts ≡ false

is_success : JobStatus → Bool
is_success succeeded = true
is_success _ = false

module _ (k : String) (s : JobStore) (requested mutates conflicts : Bool) where
  abbrev flags : Bool
  flags = controller_should_merge_subagent_result requested mutates conflicts

  merge_answer :
      (b : JobStatus)
      → HasStatus k s b
      → orchestrator_can_merge_job_result k requested mutates conflicts s
        ≡ (ok (is_success b && flags), s)
  unfolding orchestrator_can_merge_job_result value is_success
  merge_answer pending h = rw (h.found, h.read, h.status) refl
  merge_answer running h = rw (h.found, h.read, h.status) refl
  merge_answer succeeded h = rw (h.found, h.read, h.status) (rw (h.found, h.read, h.status) refl)
  merge_answer failed h = rw (h.found, h.read, h.status) (rw (h.found, h.read, h.status) refl)
  merge_answer cancelled h = rw (h.found, h.read, h.status) (rw (h.found, h.read, h.status) refl)
  merge_answer expired h = rw (h.found, h.read, h.status) (rw (h.found, h.read, h.status) refl)

  merge_absent :
      row k s ≡ none
      → orchestrator_can_merge_job_result k requested mutates conflicts s ≡ (ok false, s)
  unfolding orchestrator_can_merge_job_result
  merge_absent h = rw h (rw h refl)

  merge_unread :
      (r : JobRow) (x : Error)
      → row k s ≡ some r
      → row_to_job r ≡ err x
      → orchestrator_can_merge_job_result k requested mutates conflicts s ≡ (err x, s)
  unfolding orchestrator_can_merge_job_result
  merge_unread r x h f = rw (h, f) refl

  merged_success :
      (b : JobStatus) → (is_success b && flags) ≡ true → (b ≡ succeeded) × (flags ≡ true)
  unfolding is_success
  merged_success succeeded h = (refl, h)
  merged_success pending h = absurd (cc h)
  merged_success running h = absurd (cc h)
  merged_success failed h = absurd (cc h)
  merged_success cancelled h = absurd (cc h)
  merged_success expired h = absurd (cc h)

  MayMerge-from :
      (b : JobStatus)
      → HasStatus k s b
      → (is_success b && flags) ≡ true
      → MayMerge k s requested mutates conflicts
  unfolding controller_should_merge_subagent_result should_merge_subagent_result
  MayMerge-from b h e =
      let (same, f) = merged_success b e in
      record {
        ended_well = subst (HasStatus k s) same h;
        asked = ground arith;
        no_mutation = ground arith;
        no_conflict = ground arith;
      }

  only_then :
      (orchestrator_can_merge_job_result k requested mutates conflicts s).0 ≡ ok true
      → MayMerge k s requested mutates conflicts
  only_then h = elim (Option-cases (row k s)) [
    | inl e ↦ absurd (cc (h, ap (λ (x : Result Bool × JobStore). x.0) (merge_absent e)))
    | inr (r, e) ↦ elim (Result-cases (row_to_job r)) [
      | inr (x, f) ↦
          absurd (cc (h, ap (λ (x : Result Bool × JobStore). x.0) (merge_unread r x e f)))
      | inl (j, f) ↦
          let there : HasStatus k s j.status = record {
            its_row = r;
            job = j;
            found = e;
            read = f;
            status = refl;
          } in
          MayMerge-from j.status there
            (cc (h, ap (λ (x : Result Bool × JobStore). x.0) (merge_answer j.status there)))
    ]
  ]

  then_merges :
      MayMerge k s requested mutates conflicts
      → (orchestrator_can_merge_job_result k requested mutates conflicts s).0 ≡ ok true
  unfolding is_success controller_should_merge_subagent_result should_merge_subagent_result
  then_merges m =
      ap (λ (x : Result Bool × JobStore). x.0) (merge_answer succeeded m.ended_well)
      ∙ rw (m.asked, m.no_mutation, m.no_conflict) refl

-- The result of a job may be merged exactly if the job is there and has succeeded, a merge was asked
-- for, and it neither mutates the controller's truth nor conflicts with the active artifact.
pub can_merge_iff :
    (k : String) (s : JobStore) (requested mutates conflicts : Bool)
    → ((orchestrator_can_merge_job_result k requested mutates conflicts s).0 ≡ ok true)
      ↔ MayMerge k s requested mutates conflicts
can_merge_iff k s requested mutates conflicts =
    (only_then k s requested mutates conflicts, then_merges k s requested mutates conflicts)
