-- ===== src/Jobs/Progress.antt =====
-- backend/app/jobs/store.py: what any call, and any sequence of calls, does to one job.
use meridian_logistics.Prelude.{
  String, ◌≡◌, refl, ◌⊎◌, inl, inr, Bool, true, some, List, [], ◌∷◌, arith, ap, subst, sym, ◌∙◌,
  Option-cases,
}
use meridian_logistics.Python.{ok, Result-cases}
use meridian_logistics.Table.{insert}
use meridian_logistics.Table.Laws.{select-snoc}
use meridian_logistics.Jobs.Status.{
  JobStatus, from_string, is_terminal_status, Reach, Reach-trans, Reach-antisym,
  valid_transition_from, from_string-value,
}
use meridian_logistics.Jobs.Store.{Payload, JobRow, JobStore, row_to_job, has_id, row, set_rows}
use meridian_logistics.Jobs.Methods.{
  NewJob, create_job, new_row, prepare_result, bind_pending_response, update_autonomy_metadata,
  metadata_set, prepare_set, bind_set,
}
use meridian_logistics.Jobs.Ops.{
  Op, create, prepare, bind, start, fail, cancel, expire, complete, refresh, annotate, apply, run,
}
use meridian_logistics.Jobs.Steps.{
  SameOutcome, SameOutcome-refl, SameOwner, SameOwner-refl, RowStep, kept, moved, Follows, unmoved,
  SameOwner-trans, SameOutcome-trans,
}
use meridian_logistics.Jobs.Changes.{
  start_job-Follows, fail_job-Follows, cancel_job-Follows, expire_job-Follows, complete_job-Follows,
  refresh_job-Follows, kept-Follows,
}

module _ (j : String) (s : JobStore) (r : JobRow) (here : row j s ≡ some r) where
  -- A new row leaves the rows that are there.
  create_job-Follows : (n : NewJob) (now : String) → Follows j (create_job n now s).1 r
  unfolding create_job insert
  create_job-Follows n now = elim (Option-cases (row n.job_id s)) [
    | inl e ↦ record {
      after = r;
      found = rw (e) (select-snoc (has_id j) s.jobs (new_row n now) ∙ rw here refl);
      owner = SameOwner-refl r;
      step = kept (SameOutcome-refl r);
    }
    | inr (x, e) ↦ unmoved j s _ r here (rw e refl)
  ]

  -- The metadata are written only for a job that is there.
  metadata_effect :
      (k : String) (p : Payload) (t : Bool) (now : String)
      → ((update_autonomy_metadata k p t now s).1 ≡ s)
        ⊎ ((update_autonomy_metadata k p t now s).1 ≡ set_rows k (metadata_set p t now) s)
  unfolding update_autonomy_metadata
  metadata_effect k p t now = elim (Option-cases (row k s)) [
    | inl e ↦ inl (rw e refl)
    | inr (x, e) ↦ elim (Result-cases (row_to_job x)) [
      | inl (job, f) ↦ inr (rw (e, f) refl)
      | inr (z, f) ↦ inl (rw (e, f) refl)
    ]
  ]

  metadata-Follows :
      (k : String) (p : Payload) (t : Bool) (now : String)
      → Follows j (update_autonomy_metadata k p t now s).1 r
  metadata-Follows k p t now = elim (metadata_effect k p t now) [
    | inl e ↦ unmoved j s _ r here e
    | inr e ↦ rw e (
        kept-Follows j s r here k (metadata_set p t now) (unfold metadata_set in λ x. ground arith)
          (unfold metadata_set in λ x. ground arith))
  ]

  -- Any call leaves the job in the table, with its owner, and its row left with its outcome or
  -- moved along one legal transition.
  pub apply-Follows : (op : Op) → Follows j (apply op s) r
  unfolding apply prepare_result bind_pending_response prepare_set bind_set
  apply-Follows (create n now) = create_job-Follows n now
  apply-Follows (prepare k p now) =
      kept-Follows j s r here k (prepare_set p now) (λ x. ground arith) (λ x. ground arith)
  apply-Follows (bind k id now) =
      kept-Follows j s r here k (bind_set id now) (λ x. ground arith) (λ x. ground arith)
  apply-Follows (start k m now) = start_job-Follows j s r here k m now
  apply-Follows (fail k e m now) = fail_job-Follows j s r here k e m now
  apply-Follows (cancel k m now) = cancel_job-Follows j s r here k m now
  apply-Follows (expire k m now) = expire_job-Follows j s r here k m now
  apply-Follows (complete k p m now) = complete_job-Follows j s r here k p m now
  apply-Follows (refresh k now) = refresh_job-Follows j s r here k now
  apply-Follows (annotate k m t now) = metadata-Follows k m t now

-- The status of a job after a step can be reached from its status before.
step-Reach :
    {r r' : JobRow} {a : JobStatus}
    → RowStep r r'
    → from_string r.job_status ≡ ok a
    → (b : JobStatus) × (from_string r'.job_status ≡ ok b) × Reach a b
step-Reach {r} {r'} {a} (kept o) h = (a, ap from_string o.job_status ∙ h, Reach.here)
step-Reach {r} {r'} {a} (moved x b h' e t) h =
    (b, ap from_string e ∙ from_string-value b, Reach.next Reach.here (cc))

-- A terminal job is left with its outcome.
step_terminal :
    {r r' : JobRow} {a : JobStatus}
    → RowStep r r'
    → from_string r.job_status ≡ ok a
    → is_terminal_status a ≡ true
    → SameOutcome r r'
step_terminal (kept o) h t = o
step_terminal {a = a} (moved x b h' e m) h t = absurd (cc (valid_transition_from a b (cc)))

-- Whatever methods are called but `reset`, which deletes every job, a job stays in the table with its owner and its
-- poll token, and its status is reached from the earlier one by legal transitions.
pub run-Reach :
    (ops : List Op) (j : String) (s : JobStore) (r : JobRow) (a : JobStatus)
    → row j s ≡ some r
    → from_string r.job_status ≡ ok a
    → (r' : JobRow) × (b : JobStatus) × (row j (run ops s) ≡ some r')
      × SameOwner r r'
      × (from_string r'.job_status ≡ ok b)
      × Reach a b
unfolding run
run-Reach [] j s r a h e = (r, a, h, SameOwner-refl r, e, Reach.here)
run-Reach (op ∷ ops) j s r a h e =
    let m = apply-Follows j s r h op in
    let (b, f, p) = step-Reach m.step e in
    let (r', c, h', o, g, q) = run-Reach ops j (apply op s) m.after b m.found f in
    (r', c, h', SameOwner-trans m.owner o, g, Reach-trans p q)

some_injective : {x y : JobRow} → some x ≡ some y → x ≡ y
some_injective h = cc

ok_injective : {a b : JobStatus} → ok a ≡ ok b → a ≡ b
ok_injective h = cc

status_after :
    (ops : List Op) (j : String) (s : JobStore) (r r' : JobRow) (a b : JobStatus)
    → row j s ≡ some r
    → from_string r.job_status ≡ ok a
    → row j (run ops s) ≡ some r'
    → from_string r'.job_status ≡ ok b
    → Reach a b
status_after ops j s r r' a b h e h' e' =
    let (x, c, f, o, g, p) = run-Reach ops j s r a h e in
    let same : some x ≡ some r' = sym f ∙ h' in
    let k : ok c ≡ ok b =
      sym g ∙ ap (λ (y : JobRow). from_string y.job_status) (some_injective same) ∙ e' in
    subst (λ y. Reach a y) (ok_injective k) p

-- No job comes back to a status that it left: where its status is the same before and after some
-- calls, it was that status at every time in between.
pub statuses_never_return :
    (ops more : List Op) (j : String) (s : JobStore) (r r' r'' : JobRow) (a b : JobStatus)
    → row j s ≡ some r
    → from_string r.job_status ≡ ok a
    → row j (run ops s) ≡ some r'
    → from_string r'.job_status ≡ ok b
    → row j (run more (run ops s)) ≡ some r''
    → from_string r''.job_status ≡ ok a
    → a ≡ b
statuses_never_return ops more j s r r' r'' a b h e h' e' h'' e'' =
    Reach-antisym (status_after ops j s r r' a b h e h' e')
      (status_after more j (run ops s) r' r'' b a h' e' h'' e'')

-- Once a job is terminal, no method but `reset`, which deletes every job, changes its status, result, response id, error,
-- message or end times again, however many are called.
pub run_keeps_outcome :
    (ops : List Op) (j : String) (s : JobStore) (r : JobRow) (a : JobStatus)
    → row j s ≡ some r
    → from_string r.job_status ≡ ok a
    → is_terminal_status a ≡ true
    → (r' : JobRow) × (row j (run ops s) ≡ some r') × SameOutcome r r'
unfolding run
run_keeps_outcome [] j s r a h e t = (r, h, SameOutcome-refl r)
run_keeps_outcome (op ∷ ops) j s r a h e t =
    let m = apply-Follows j s r h op in
    let o = step_terminal m.step e t in
    let (r', h', o') =
      run_keeps_outcome ops j (apply op s) m.after a m.found (ap from_string o.job_status ∙ e) t in
    (r', h', SameOutcome-trans o o')
