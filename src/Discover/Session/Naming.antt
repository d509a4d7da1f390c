-- ===== src/Discover/Session/Naming.antt =====
-- The name of the device through `rename` of core/src/discover.rs.
use dropwire.Prelude.{
  ℕ, ◌≡◌, refl, Bool, Text, text_eq, text_beq_iff, ◌==◌, if_both, arith, Bool-cases, inl, inr,
}
use dropwire.Discover.Session.{
  World, Attempt, no_daemon, bad_info, refused, registered, start, go_live, stop, rename,
  is_running, set_name,
}

start-device_name :
    (os : Text) (attempt : Attempt) (port : ℕ) (w : World)
    → (start os attempt port w).0.state.device_name ≡ w.state.device_name
unfolding start go_live
start-device_name os no_daemon port w = refl
start-device_name os bad_info port w = refl
start-device_name os refused port w = refl
start-device_name os registered port w = refl

-- Whatever becomes of the advertisement, the session has the new name.
pub rename-device_name :
    (os : Text) (attempt : Attempt) (is_up : Bool) (name : Text) (port : ℕ) (w : World)
    → (rename os attempt is_up name port w).0.state.device_name ≡ name
unfolding rename stop
rename-device_name os attempt is_up name port w = elim (Bool-cases (w.state.device_name == name)) [
  | inl same ↦ rw (same) (ground (arith, same, text_beq_iff w.state.device_name name))
  | inr other ↦ rw (other) (
      if_both {A = World × Bool} (λ r. r.0.state.device_name ≡ name) (is_running w)
        (start-device_name os attempt port (stop is_up (set_name name w))) refl)
]
