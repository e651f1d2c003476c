-- ===== src/Controller/Contract.antt =====
-- contracts/controller-checkpoint-schema.json: what the contract of a checkpoint says of its queue.
use meridian_logistics.Prelude.{
  String, Bool, true, false, not, some, List, [], ◌∷◌, ◌==◌, ◌&&◌, ◌||◌, ◌≡◌,
}
use meridian_logistics.Controller.Models.{QueueState, ControllerCheckpoint, checkpoint_to_dict}
use meridian_logistics.Controller.Runtime.{Runtime}

-- enum
among : List String → String → Bool
among [] s = false
among (x ∷ xs) s = s == x || among xs s

-- The properties of "queue", which is not null.
unfoldable pub lists_queue : QueueState → Bool
unfolding among
lists_queue q =
    not (q.wave_name == "")
    && (among ("queued" ∷ "active" ∷ "done" ∷ "blocked" ∷ []) q.status
        && (among ("auto" ∷ "explicit_request" ∷ "blocked_until_input" ∷ []) q.run_policy
            && among ("main" ∷ "user" ∷ []) q.approval_authority))

-- The validator accepts no checkpoint whose queue the contract does not list.
abbrev pub EnforcesQueue : Runtime → Type 0
EnforcesQueue rt =
    (c : ControllerCheckpoint) (q : QueueState)
    → c.queue ≡ some q
    → rt.is_valid (checkpoint_to_dict c) ≡ true
    → lists_queue q ≡ true
