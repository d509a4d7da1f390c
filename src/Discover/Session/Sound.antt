-- ===== src/Discover/Session/Sound.antt =====
-- The session of core/src/discover.rs off the air and live, and how the calls of core/src/lib.rs and
-- core/src/offer.rs keep it in one of the two.
use dropwire.Prelude.{
  ℕ, ◌≡◌, refl, Bool, true, false, Option, none, some, [], ◌∷◌, if_both, ◌==◌, nat_eq, text_eq,
  Text, arith, ◌⊎◌, inl, inr, Bool-cases, nat_beq_iff,
}
use dropwire.Prelude.Map
use dropwire.Prelude.Map.{get-insert_self, get-insert}
use dropwire.Discover.Session.{
  World, Attempt, no_daemon, bad_info, refused, is_running, is_some, launch, start, stop, rename,
  start_nearby, go_live, unregister, drop_slot, set_name, call, registration,
}

-- The session off the air: not advertised, flag down, subscribed nowhere, its table empty.
unfoldable pub IsOff : World → Type 0
IsOff w =
    (w.state.registered ≡ none)
    × (w.state.running ≡ false)
    × (w.state.slot ≡ none)
    × (w.subscribers ≡ [])
    × (Map.get w.state.peers w.tables ≡ some [])

-- The session live: advertised, flag up, and its table is the one subscriber.
unfoldable pub IsLive : World → Type 0
IsLive w =
    (is_some w.state.registered ≡ true)
    × (w.state.running ≡ true)
    × (w.state.slot ≡ some w.state.peers)
    × (w.subscribers ≡ w.state.peers ∷ [])

unfoldable pub IsSound : World → Type 0
IsSound w = IsOff w ⊎ IsLive w

pub launch-IsOff : (eid name : Text) → IsOff (launch eid name)
unfolding IsOff launch Map.get
launch-IsOff eid name = (refl, refl, refl, refl, refl)

go_live-IsLive : (w : World) → IsOff w → IsLive (go_live w)
unfolding IsOff IsLive go_live drop_slot
go_live-IsLive w (r, f, s, u, t) = (refl, refl, refl, rw (s, u) refl)

drop_slot_lem : (t : ℕ) → drop_slot (some t) (t ∷ []) ≡ []
unfolding drop_slot
drop_slot_lem t = ground (arith, nat_beq_iff t t)

unregister_lem :
    (is_up : Bool) (name : Option Text) (w : World)
    → (unregister is_up name w).subscribers ≡ w.subscribers
unfolding unregister
unregister_lem is_up none w = refl
unregister_lem is_up (some full_name) w = ground arith

stopped_subscribers : (w : World) → IsSound w → drop_slot w.state.slot w.subscribers ≡ []
unfolding IsSound IsOff IsLive drop_slot
stopped_subscribers w (inl (r, f, s, u, t)) = rw (s, u) refl
stopped_subscribers w (inr (r, f, s, u)) = rw (s, u) (drop_slot_lem w.state.peers)

pub stop-IsOff : (is_up : Bool) (w : World) → IsSound w → IsOff (stop is_up w)
unfolding IsOff stop
stop-IsOff is_up w h =
    (refl, refl, refl, stopped_subscribers w h, get-insert_self w.state.peers [] w.tables)

start-IsSound :
    (os : Text) (attempt : Attempt) (port : ℕ) (w : World)
    → IsOff w
    → IsSound (start os attempt port w).0
unfolding IsSound IsOff IsLive start
start-IsSound os no_daemon port w h = inl h
start-IsSound os bad_info port w h = inl h
start-IsSound os refused port w h = inl h
start-IsSound os Attempt.registered port w h =
    inr (go_live-IsLive (call (registration os port w.state) w) h)

set_name-IsSound : (name : Text) (w : World) → IsSound w → IsSound (set_name name w)
unfolding IsSound IsOff IsLive
set_name-IsSound name w h = h

pub not_running-IsOff : (w : World) → IsSound w → is_running w ≡ false → IsOff w
unfolding IsSound IsLive is_running
not_running-IsOff w (inl off) e = off
not_running-IsOff w (inr live) e = absurd (ground arith)

pub start_nearby-IsSound :
    (os : Text) (attempt : Attempt) (port : ℕ) (w : World)
    → IsSound w
    → IsSound (start_nearby os attempt port w).0
unfolding start_nearby
start_nearby-IsSound os attempt port w h = elim (Bool-cases (is_running w)) [
  | inl live ↦ rw live h
  | inr off ↦ rw off (start-IsSound os attempt port w (not_running-IsOff w h off))
]

pub rename-IsSound :
    (os : Text) (attempt : Attempt) (is_up : Bool) (name : Text) (port : ℕ) (w : World)
    → IsSound w
    → IsSound (rename os attempt is_up name port w).0
unfolding rename
rename-IsSound os attempt is_up name port w h =
    if_both {A = World × Bool} (λ r. IsSound r.0) (w.state.device_name == name) h
      (if_both {A = World × Bool} (λ r. IsSound r.0) (is_running w)
        (start-IsSound os attempt port (stop is_up (set_name name w))
          (stop-IsOff is_up (set_name name w) (set_name-IsSound name w h)))
        (set_name-IsSound name w h))

-- The flag that lets offers in is up exactly while an advertisement is live.
abbrev pub IsFlagged : World → Type 0
IsFlagged w = w.state.running ≡ is_some w.state.registered

start-flag :
    (os : Text) (attempt : Attempt) (port : ℕ) (w : World)
    → IsFlagged w
    → IsFlagged (start os attempt port w).0
unfolding start go_live
start-flag os no_daemon port w h = h
start-flag os bad_info port w h = h
start-flag os refused port w h = h
start-flag os Attempt.registered port w h = refl

pub stop-flag : (is_up : Bool) (w : World) → IsFlagged (stop is_up w)
unfolding stop
stop-flag is_up w = refl

pub start_nearby-flag :
    (os : Text) (attempt : Attempt) (port : ℕ) (w : World)
    → IsFlagged w
    → IsFlagged (start_nearby os attempt port w).0
unfolding start_nearby
start_nearby-flag os attempt port w h =
    if_both {A = World × Bool} (λ r. IsFlagged r.0) (is_running w) h
      (start-flag os attempt port w h)

pub rename-flag :
    (os : Text) (attempt : Attempt) (is_up : Bool) (name : Text) (port : ℕ) (w : World)
    → IsFlagged w
    → IsFlagged (rename os attempt is_up name port w).0
unfolding rename
rename-flag os attempt is_up name port w h =
    if_both {A = World × Bool} (λ r. IsFlagged r.0) (w.state.device_name == name) h
      (if_both {A = World × Bool} (λ r. IsFlagged r.0) (is_running w)
        (start-flag os attempt port (stop is_up (set_name name w))
          (stop-flag is_up (set_name name w)))
        h)
