-- ===== src/Controller/Runtime/Compress.antt =====
-- backend/app/controller/runtime.py, `prepare_compaction`, and strategies.py.
use Prim.Native.String.{◌++◌}
use meridian_logistics.Prelude.{
  ℕ, ◌+◌, String, true, false, not, Option, none, some, List, [], ◌∷◌, if◌then◌else◌,
}
use meridian_logistics.Python.{
  Exec, pure, lift, modify, ◌>>=◌, ◌>>◌, Value, bool, number, Dict, get,
}
use meridian_logistics.Python.Json.{Json}
use meridian_logistics.Controller.Models.{
  ProtectedCore, ControllerDecision, ControllerCheckpoint, core_to_dict,
}
use meridian_logistics.Controller.Runtime.{
  Runtime, Files, load_checkpoint, write_checkpoint, default_failure_signal, no_compaction,
}

-- An instinct8 strategy, over a state of its own.
pub record Strategy (S : Type 0) : Type 0 where
  pub initialize : String → List String → S → S
  pub compress : List (Dict Value) → ℕ → S → String × S
  pub name : S → String

pub record CompressionEnvelope : Type 0 where
  pub strategy_name : String
  pub protected_core : Json
  pub compressed_halo : String
  pub recent_turns : List (Dict Value)
  pub trigger_point : ℕ

-- int(turn["id"]) where turn["id"] is an int; True and False are ints.
turn_id : Option Value → Option ℕ
turn_id (some (number n)) = some n
turn_id (some (bool true)) = some 1
turn_id (some (bool false)) = some 0
turn_id _ = none

consed : Option ℕ → List ℕ → List ℕ
consed none ns = ns
consed (some n) ns = n ∷ ns

unfoldable pub turn_ids : List (Dict Value) → List ℕ
unfolding turn_id consed
turn_ids [] = []
turn_ids (t ∷ ts) = consed (turn_id (get t "id")) (turn_ids ts)

unfoldable pub base_checkpoint :
    String
    → String
    → ProtectedCore
    → ControllerDecision
    → String
    → Option ControllerCheckpoint
    → ControllerCheckpoint
base_checkpoint id name core d now (some c) = c
base_checkpoint id name core d now none = record {
  checkpoint_id = id ++ ":before_compaction";
  protected_core = core;
  compaction = no_compaction name;
  validated_artifacts = [];
  active_failure_signal = default_failure_signal;
  controller_last_decision = d;
  queue = none;
  terminal_state = none;
  created_at = now;
  checkpoint_version = "0.1.0";
}

unfoldable pub compacted :
    String
    → ControllerCheckpoint
    → String
    → String
    → List (Dict Value)
    → String
    → ControllerCheckpoint
compacted id c name halo recent now = record c {
  checkpoint_id = id ++ ":before_compaction";
  compaction = record {
    strategy_name = name;
    compaction_sequence = c.compaction.compaction_sequence + 1;
    halo_summary = halo;
    recent_turn_ids = turn_ids recent;
    drift_status = c.compaction.drift_status;
  };
  created_at = now;
  checkpoint_version = "0.1.0";
}

core_of : ProtectedCore → Option ControllerCheckpoint → ProtectedCore
core_of fallback none = fallback
core_of fallback (some c) = c.protected_core

module _ {S : Type 0} where
  -- CompressionControllerAdapter.prime and compact, on the strategy's state.
  unfoldable pub compact :
      Strategy S
      → ProtectedCore
      → ControllerCheckpoint
      → List (Dict Value)
      → List (Dict Value)
      → ℕ
      → S
      → CompressionEnvelope × S
  compact strategy core c halo recent trigger s =
      let primed = strategy.initialize core.task_goal core.hard_constraints s in
      let (summary, s') = strategy.compress halo trigger primed in
      (
        record {
          strategy_name = strategy.name s';
          protected_core = core_to_dict c.protected_core;
          compressed_halo = summary;
          recent_turns = recent;
          trigger_point = trigger;
        },
        s',
      )

  -- `now` is the time of the checkpoint. The envelope and the checkpoint that it wrote.
  unfoldable pub prepare_compaction :
      Runtime
      → String
      → ProtectedCore
      → Strategy S
      → List (Dict Value)
      → List (Dict Value)
      → ℕ
      → String
      → Exec (Files × S) (Option (CompressionEnvelope × ControllerCheckpoint))
  unfolding core_of
  prepare_compaction rt id fallback strategy halo recent trigger now st =
      if not rt.config.controller_checkpoints_enabled
      then pure none st
      else (do
        loaded ← lift (load_checkpoint rt id st.0)
        let core = core_of fallback loaded.checkpoint
        let base =
            base_checkpoint id (strategy.name st.1) core loaded.decision now loaded.checkpoint
        let (envelope, s) = compact strategy core base halo recent trigger st.1
        let c = compacted id base envelope.strategy_name envelope.compressed_halo recent now
        modify (λ x. (write_checkpoint id c x.0, s))
        pure (some (envelope, c)))
          st
