-- ===== src/Discover/Session/Visibility.antt =====
-- What the nearby session of core/src/discover.rs shows and hears over any course of calls.
use dropwire.Prelude.{
  ℕ, not, ◌≡◌, refl, if◌then◌else◌, Bool, true, false, none, List, [], ◌∷◌, nat_eq, text_eq,
  text_beq_iff, Text, arith, ap, sym, ◌≢◌, ◌∙◌, ◌⊎◌, inl, inr, Bool-cases,
}
use dropwire.Prelude.Sort.{sort_by}
use dropwire.Discover.{Outside, ServiceEvent, listed}
use dropwire.Discover.Session.{
  World, Pending, take_event, fold_next, Attempt, no_daemon, bad_info, refused, is_running, is_some,
  launch, start, stop, rename, start_nearby, list, set_name,
}
use dropwire.Discover.Session.Sound.{
  IsOff, IsLive, IsSound, IsFlagged, launch-IsOff, stop-IsOff, not_running-IsOff,
  start_nearby-IsSound, rename-IsSound, stop-flag, start_nearby-flag, rename-flag,
}

-- The calls of a session and the steps of the pump, in any order.
pub data Action : Type 0 where
  starts : (attempt : Attempt) (port : ℕ) → Action
  stops : (is_up : Bool) → Action
  renames : (attempt : Attempt) (is_up : Bool) (name : Text) (port : ℕ) → Action
  takes : (event : ServiceEvent) → Action
  folds : (now : ℕ) → Action

-- The session with what the pump has still to fold.
abbrev pub Course : Type 0
Course = World × List Pending

module _ (out : Outside) (os : Text) where
  unfoldable pub act : Course → Action → Course
  act (w, ps) (starts attempt port) = ((start_nearby os attempt port w).0, ps)
  act (w, ps) (stops is_up) = (stop is_up w, ps)
  act (w, ps) (renames attempt is_up name port) = ((rename os attempt is_up name port w).0, ps)
  act c (takes event) = take_event out event c
  act c (folds now) = fold_next out now c

  unfoldable pub run : Course → List Action → Course
  unfolding act
  run c [] = c
  run c (a ∷ acts) = run (act c a) acts

  abbrev pub from_launch : Text → Text → List Action → Course
  from_launch eid name acts = run (launch eid name, []) acts

  -- Whether the pump's next step folds an event into a table while the session is off the air, and
  -- whether that happens at all.
  unfoldable pub is_late : Course → Bool
  is_late (w, []) = false
  is_late (w, p ∷ ps) = not (is_running w)

  unfoldable pub folds_off : Course → List Action → Bool
  folds_off c [] = false
  folds_off c (folds now ∷ acts) =
      let rest = folds_off (act c (folds now)) acts in if is_late c then true else rest
  folds_off c (a ∷ acts) = folds_off (act c a) acts

  take_event-world : (event : ServiceEvent) (c : Course) → (take_event out event c).0 ≡ c.0
  unfolding take_event
  take_event-world event (w, []) = refl
  take_event-world event (w, p ∷ ps) = refl

  -- The pump writes the tables only.
  fold_next-state :
      (now : ℕ) (c : Course)
      → let w = (fold_next out now c).0 in (w.state ≡ c.0.state) × (w.subscribers ≡ c.0.subscribers)
  unfolding fold_next
  fold_next-state now (w, []) = (refl, refl)
  fold_next-state now (w, (event, t) ∷ ps) = (refl, refl)

  running-IsLive : (w : World) → IsSound w → is_running w ≡ true → IsLive w
  unfolding IsSound IsOff is_running
  running-IsLive w (inl (r, f, s, u, t)) e = absurd (ground (arith, r))
  running-IsLive w (inr live) e = live

  fold_next-IsSound :
      (now : ℕ) (c : Course) → IsSound c.0 → is_late c ≡ false → IsSound (fold_next out now c).0
  unfolding IsSound fold_next is_late
  fold_next-IsSound now (w, []) h l = h
  fold_next-IsSound now (w, (event, t) ∷ ps) h l =
      inr (unfold IsLive in running-IsLive w h (ground arith))

  run-IsSound :
      (c : Course) (acts : List Action)
      → IsSound c.0
      → folds_off c acts ≡ false
      → IsSound (run c acts).0
  unfolding run folds_off act
  run-IsSound c [] h l = h
  run-IsSound (w, ps) (starts attempt port ∷ acts) h l =
      run-IsSound ((start_nearby os attempt port w).0, ps) acts
        (start_nearby-IsSound os attempt port w h) l
  run-IsSound (w, ps) (stops is_up ∷ acts) h l =
      run-IsSound (stop is_up w, ps) acts (unfold IsSound in inl (stop-IsOff is_up w h)) l
  run-IsSound (w, ps) (renames attempt is_up name port ∷ acts) h l =
      run-IsSound ((rename os attempt is_up name port w).0, ps) acts
        (rename-IsSound os attempt is_up name port w h) l
  run-IsSound c (takes event ∷ acts) h l =
      run-IsSound (take_event out event c) acts (rw (take_event-world event c) h) l
  run-IsSound c (folds now ∷ acts) h l = elim (Bool-cases (is_late c)) [
    | inl late ↦ absurd (ground (arith, late, l))
    | inr in_time ↦
        run-IsSound (fold_next out now c) acts (fold_next-IsSound now c h in_time)
          (ground (arith, in_time, l))
  ]

  reached-IsSound :
      (eid name : Text) (acts : List Action)
      → folds_off (launch eid name, []) acts ≡ false
      → IsSound (from_launch eid name acts).0
  unfolding IsSound
  reached-IsSound eid name acts l =
      run-IsSound (launch eid name, []) acts (inl (launch-IsOff eid name)) l

  run-flag : (c : Course) (acts : List Action) → IsFlagged c.0 → IsFlagged (run c acts).0
  unfolding run act
  run-flag c [] h = h
  run-flag (w, ps) (starts attempt port ∷ acts) h =
      run-flag ((start_nearby os attempt port w).0, ps) acts (start_nearby-flag os attempt port w h)
  run-flag (w, ps) (stops is_up ∷ acts) h = run-flag (stop is_up w, ps) acts (stop-flag is_up w)
  run-flag (w, ps) (renames attempt is_up name port ∷ acts) h =
      run-flag ((rename os attempt is_up name port w).0, ps) acts
        (rename-flag os attempt is_up name port w h)
  run-flag c (takes event ∷ acts) h =
      run-flag (take_event out event c) acts (rw (take_event-world event c) h)
  run-flag c (folds now ∷ acts) h = run-flag (fold_next out now c) acts (
      ap (λ s. s.running) (fold_next-state now c).0
      ∙ h
      ∙ sym (ap (λ s. is_some s.registered) (fold_next-state now c).0))

  off_list : (w : World) → IsOff w → list out w ≡ []
  unfolding IsOff list listed sort_by
  off_list w (r, f, s, u, t) = rw t refl

  -- However the session is started, stopped and renamed, whichever registrations fail, and wherever
  -- the steps of the pump come in between, the flag that lets offers in is up exactly while an
  -- advertisement is live. While none is, no device is listed, unless the pump folded an event into
  -- a table while the session was off the air.
  pub run_visible :
      (eid name : Text) (acts : List Action)
      → let w = (from_launch eid name acts).0 in
        (w.state.running ≡ is_running w)
        × (is_running w ≡ false → (folds_off (launch eid name, []) acts ≡ true) ⊎ (list out w ≡ []))
  unfolding is_running
  run_visible eid name acts =
      let w = (from_launch eid name acts).0 in
      (
        run-flag (launch eid name, []) acts (unfold launch in refl),
        λ off. elim (Bool-cases (folds_off (launch eid name, []) acts)) [
          | inl late ↦ inl late
          | inr none_late ↦
              inr (off_list w (not_running-IsOff w (reached-IsSound eid name acts none_late) off))
        ],
      )

start_failed :
    (os : Text) (attempt : Attempt) (port : ℕ) (w : World)
    → (start os attempt port w).1 ≡ false
    → (start os attempt port w).0.state ≡ w.state
unfolding start
start_failed os no_daemon port w e = refl
start_failed os bad_info port w e = refl
start_failed os refused port w e = refl
start_failed os Attempt.registered port w e = absurd (ground arith)

rename_live :
    (os name : Text) (attempt : Attempt) (is_up : Bool) (port : ℕ) (w : World)
    → w.state.device_name ≢ name
    → is_running w ≡ true
    → rename os attempt is_up name port w ≡ start os attempt port (stop is_up (set_name name w))
unfolding rename
rename_live os name attempt is_up port w d live =
    ground (arith, text_beq_iff w.state.device_name name)

stop_state :
    (is_up : Bool) (w : World)
    → ((stop is_up w).state.registered ≡ none)
      × ((stop is_up w).state.device_name ≡ w.state.device_name)
unfolding stop
stop_state is_up w = (refl, refl)

same_name :
    (os name : Text) (attempt : Attempt) (is_up : Bool) (port : ℕ) (w : World)
    → w.state.device_name ≡ name
    → rename os attempt is_up name port w ≡ (w, true)
unfolding rename
same_name os name attempt is_up port w e = ground (arith, text_beq_iff w.state.device_name name)

-- After a rename of a live session whose new registration fails, the device is off the air, and a
-- second rename to the same name succeeds at once and leaves it off the air.
pub rename_retry_off :
    (os name : Text) (attempt again : Attempt) (is_up : Bool) (port : ℕ) (w : World)
    → w.state.device_name ≢ name
    → is_running w ≡ true
    → (rename os attempt is_up name port w).1 ≡ false
    → let w' = (rename os attempt is_up name port w).0 in
      (is_running w' ≡ false) × (rename os again is_up name port w' ≡ (w', true))
unfolding is_running
rename_retry_off os name attempt again is_up port w d live failed =
    let stopped = stop is_up (set_name name w) in
    let started = rename_live os name attempt is_up port w d live in
    let kept =
      ap (λ r. r.0.state) started
      ∙ start_failed os attempt port stopped (sym (ap (λ r. r.1) started) ∙ failed) in
    let (unregistered, named) = stop_state is_up (set_name name w) in
    (
      ap (λ s. is_some s.registered) kept ∙ ap is_some unregistered,
      same_name os name again is_up port _ (ap (λ s. s.device_name) kept ∙ named),
    )
