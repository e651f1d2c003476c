-- ===== src/Controller/Models/Roundtrip.antt =====
-- backend/app/controller/models.py: reading back what to_dict gives.
use meridian_logistics.Prelude.{◌≡◌, refl, Option, none, some, map}
use meridian_logistics.Python.{ok, number}
use meridian_logistics.Python.Json.{
  Reader, text_at, texts_at, int_at, ints_at, optional_at, text_array, number_array,
  list_of-items_of, texts_back, ints-map, present, optional_text_back, leaf, at_key, get_key,
}
use meridian_logistics.Controller.Models.{
  ProtectedCore, FailureSignal, ControllerDecision, CompactionState, QueueState,
  ControllerCheckpoint, core_to_dict, signal_to_dict, decision_to_dict, compaction_to_dict,
  queue_to_dict, optional_queue, checkpoint_to_dict, core_from_dict, signal_from_dict,
  decision_from_dict, compaction_from_dict, queue_from_dict, checkpoint_from_dict,
}

module _ (r : Reader) where
  core_back : (c : ProtectedCore) → core_from_dict r (core_to_dict c) ≡ ok c
  unfolding core_from_dict core_to_dict text_at texts_at text_array
  core_back c = rw (texts_back r c.hard_constraints, texts_back r c.business_invariants) refl

  signal_back : (s : FailureSignal) → signal_from_dict r (signal_to_dict s) ≡ ok s
  unfolding signal_from_dict signal_to_dict text_at optional_at get_key
  signal_back s = rw (optional_text_back r s.details) refl

  decision_back : (d : ControllerDecision) → decision_from_dict r (decision_to_dict d) ≡ ok d
  unfolding decision_from_dict decision_to_dict text_at
  decision_back d = refl

  compaction_back : (c : CompactionState) → compaction_from_dict r (compaction_to_dict c) ≡ ok c
  unfolding compaction_from_dict compaction_to_dict text_at int_at ints_at number_array
  compaction_back c =
      rw
        (
          list_of-items_of (map (λ n. leaf (number n)) c.recent_turn_ids),
          ints-map r c.recent_turn_ids,
        )
        refl

  queue_back : (q : QueueState) → queue_from_dict r (queue_to_dict q) ≡ ok q
  unfolding queue_from_dict queue_to_dict text_at get_key at_key
  queue_back q = refl

  optional_queue_back :
      (o : Option QueueState) → present r (queue_from_dict r) (some (optional_queue o)) ≡ ok o
  unfolding present optional_queue
  optional_queue_back none = refl
  optional_queue_back (some q) = unfold queue_from_dict queue_to_dict text_at get_key at_key in refl

  -- A checkpoint is read back from its dict as it was, whatever it holds.
  pub checkpoint_from_dict-checkpoint_to_dict :
      (c : ControllerCheckpoint) → checkpoint_from_dict r (checkpoint_to_dict c) ≡ ok c
  unfolding checkpoint_from_dict checkpoint_to_dict text_at texts_at text_array at_key optional_at
      get_key
  checkpoint_from_dict-checkpoint_to_dict c =
      rw
        (
          core_back c.protected_core,
          compaction_back c.compaction,
          texts_back r c.validated_artifacts,
          signal_back c.active_failure_signal,
          decision_back c.controller_last_decision,
          optional_queue_back c.queue,
          optional_text_back r c.terminal_state,
        )
        refl
