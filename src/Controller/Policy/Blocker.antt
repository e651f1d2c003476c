-- ===== src/Controller/Policy/Blocker.antt =====
-- backend/app/controller/policy.py, `is_exact_blocker_packet`: the parts of a packet.
use meridian_logistics.Prelude.{◌≡◌, refl, true, Option, none, some, ◌↔◌, arith, eq_iff}
use meridian_logistics.Controller.Models.{FailureSignal}
use meridian_logistics.Controller.Policy.{
  RawSignal, Packet, normalize_failure_signal, is_exact_blocker_packet, exact,
}
use meridian_logistics.Controller.Policy.Approval.{IsExact}

exact-IsExact : (s : FailureSignal) (p : Packet) → exact (some s) p ≡ true → IsExact s p
unfolding exact
exact-IsExact s p h = ground (arith, eq_iff s.severity "none")

IsExact-exact : (s : FailureSignal) (p : Packet) → IsExact s p → exact (some s) p ≡ true
unfolding exact
IsExact-exact s p e = ground (arith, eq_iff s.severity "none")

parts :
    (o : Option FailureSignal) (p : Packet)
    → exact o p ≡ true
    → (s : FailureSignal) × (o ≡ some s) × IsExact s p
parts none p h = absurd (unfold exact in cc)
parts (some s) p h = (s, refl, exact-IsExact s p h)

-- A packet is an exact blocker exactly when its failure signal is there and it holds all its parts.
pub is_exact_blocker_packet-IsExact :
    (raw : RawSignal) (p : Packet)
    → (is_exact_blocker_packet raw p ≡ true)
      ↔ ((s : FailureSignal) × (normalize_failure_signal raw ≡ some s) × IsExact s p)
is_exact_blocker_packet-IsExact raw p =
    (λ h. parts (normalize_failure_signal raw) p (unfold is_exact_blocker_packet in h), back)
  where
    back :
        ((s : FailureSignal) × (normalize_failure_signal raw ≡ some s) × IsExact s p)
        → is_exact_blocker_packet raw p ≡ true
    back (s, e, k) = unfold is_exact_blocker_packet in rw e (IsExact-exact s p k)
