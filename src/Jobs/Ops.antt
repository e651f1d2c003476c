-- ===== src/Jobs/Ops.antt =====
-- backend/app/jobs/store.py: a call of a method of the job store, as a value, and what a sequence of calls leaves.
use meridian_logistics.Prelude.{String, Bool, Option, List, [], ◌∷◌}
use meridian_logistics.Jobs.Store.{Payload, JobStore}
use meridian_logistics.Jobs.Methods.{
  NewJob, create_job, prepare_result, bind_pending_response, start_job, fail_job, cancel_job,
  expire_job, complete_job, refresh_job, update_autonomy_metadata,
}

-- A method that writes, all but `reset`, which deletes every job and leaves nothing to follow; the last
-- argument is the time of the call.
pub data Op : Type 0 where
  create : NewJob → String → Op
  prepare : String → Payload → String → Op
  bind : String → String → String → Op
  start : String → String → String → Op
  fail : String → String → Option String → String → Op
  cancel : String → String → String → Op
  expire : String → String → String → Op
  complete : String → Payload → String → String → Op
  refresh : String → String → Op
  annotate : String → Payload → Bool → String → Op

-- The store that the call leaves, whether it returns or raises.
unfoldable pub apply : Op → JobStore → JobStore
apply (create n now) s = (create_job n now s).1
apply (prepare k p now) s = (prepare_result k p now s).1
apply (bind k id now) s = (bind_pending_response k id now s).1
apply (start k m now) s = (start_job k m now s).1
apply (fail k e m now) s = (fail_job k e m now s).1
apply (cancel k m now) s = (cancel_job k m now s).1
apply (expire k m now) s = (expire_job k m now s).1
apply (complete k p m now) s = (complete_job k p m now s).1
apply (refresh k now) s = (refresh_job k now s).1
apply (annotate k m t now) s = (update_autonomy_metadata k m t now s).1

unfoldable pub run : List Op → JobStore → JobStore
run [] s = s
run (op ∷ ops) s = run ops (apply op s)
