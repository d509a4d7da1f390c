-- ===== src/Shell/Pump/Delivered.antt =====
-- What the webview is told of the offers, through src-tauri/src/lib.rs.
use dropwire.Prelude.{
  ℕ, ◌≡◌, ◌+◌, refl, arith, Bool-cases, if◌then◌else◌, true, false, List, [], ◌∷◌, ◌++◌, length,
  length-append, ap, inl, inr, Text,
}
use mathlib.Core.List.{Sublist, nil-sublist, append-nil}
use mathlib.Core.List.Sublist
use dropwire.Consent.{IncomingOffer}
use dropwire.Discover.Session.{
  World, Attempt, no_daemon, bad_info, refused, registered, is_running, launch, start_nearby, start,
  stop, call, registration, go_live,
}
use dropwire.Shell.Pump.{
  Received, ok, lagged, closed, pump, Command, starts, stops, run, step, nearby_start, nearby_stop,
  spawn_offer_pump,
}

-- How a broadcast receiver hands on what is sent after it subscribes: in order, a lag skips the oldest,
-- and some may be pending.
pub data Delivers : List IncomingOffer → List Received → Type 0 where
  pending : (sent : List IncomingOffer) → Delivers sent []
  gives :
      (o : IncomingOffer) (sent : List IncomingOffer) (rs : List Received)
      → Delivers sent rs
      → Delivers (o ∷ sent) (ok o ∷ rs)
  lags :
      (lost all sent : List IncomingOffer) (rs : List Received)
      → all ≡ lost ++ sent
      → Delivers sent rs
      → Delivers all (lagged (length lost) ∷ rs)
  ends : Delivers [] (closed ∷ [])

skip :
    (lost : List IncomingOffer) {emitted sent : List IncomingOffer}
    → Sublist emitted sent
    → Sublist emitted (lost ++ sent)
skip [] h = h
skip (o ∷ lost) h = Sublist.cons o (skip lost h)

pump-Sublist :
    {sent : List IncomingOffer} {rs : List Received} → Delivers sent rs → Sublist (pump rs) sent
unfolding pump
pump-Sublist (pending sent) = nil-sublist sent
pump-Sublist (gives o sent rs d) = Sublist.cons-cons o (pump-Sublist d)
pump-Sublist (lags lost all sent rs e d) = rw (e) (skip lost (pump-Sublist d))
pump-Sublist ends = nil-sublist []

-- How many are lost or pending.
unfoldable pub left_out : {sent : List IncomingOffer} {rs : List Received} → Delivers sent rs → ℕ
left_out (pending sent) = length sent
left_out (gives o sent rs d) = left_out d
left_out (lags lost all sent rs e d) = length lost + left_out d
left_out ends = 0

length-pump :
    {sent : List IncomingOffer} {rs : List Received} (d : Delivers sent rs)
    → length sent ≡ length (pump rs) + left_out d
unfolding pump left_out
length-pump (pending sent) = omega arith
length-pump (gives o sent rs d) = omega (arith, length-pump d)
length-pump (lags lost all sent rs e d) =
    omega (arith, ap (λ x. length x) e, length-append lost sent, length-pump d)
length-pump ends = refl

-- What the receiver of the first start that succeeds gives: before it, none is registered.
unfoldable pub first_received : List Command → List Received
first_received [] = []
first_received (starts registered rs ∷ cs) = rs
first_received (_ ∷ cs) = first_received cs

module _ (os : Text) (port : ℕ) where
  -- The task is there already.
  quiet :
      (cs : List Command) (w : World)
      → run os port (record { world = w; is_started = true }) cs ≡ []
  unfolding run step nearby_start nearby_stop spawn_offer_pump
  quiet [] w = refl
  quiet (starts attempt rs ∷ cs) w =
      let (w', is_ok) = start_nearby os attempt port w in
      elim (Bool-cases is_ok) [
        | inl e ↦ rw (step, nearby_start, e) (quiet cs w')
        | inr e ↦ rw (step, nearby_start, e) (quiet cs w')
      ]
  quiet (stops is_up ∷ cs) w = quiet cs (stop is_up w)

  start_nearby_off :
      (attempt : Attempt) (w : World)
      → is_running w ≡ false
      → start_nearby os attempt port w ≡ start os attempt port w
  unfolding start_nearby
  start_nearby_off attempt w h = ap (λ b. if b then (w, true) else start os attempt port w) h

  first_pump :
      (cs : List Command) (w : World)
      → is_running w ≡ false
      → run os port (record { world = w; is_started = false }) cs ≡ pump (first_received cs)
  unfolding run step nearby_start nearby_stop spawn_offer_pump first_received start is_running stop
  first_pump [] w h = refl
  first_pump (starts no_daemon rs ∷ cs) w h =
      rw (step, nearby_start, start_nearby_off no_daemon w h) (first_pump cs w h)
  first_pump (starts bad_info rs ∷ cs) w h =
      rw (step, nearby_start, start_nearby_off bad_info w h) (first_pump cs w h)
  first_pump (starts refused rs ∷ cs) w h =
      rw (step, nearby_start, start_nearby_off refused w h)
        (first_pump cs (call (registration os port w.state) w) h)
  first_pump (starts registered rs ∷ cs) w h =
      rw (step, nearby_start, start_nearby_off registered w h)
        (rw (quiet cs (go_live (call (registration os port w.state) w))) (append-nil (pump rs)))
  first_pump (stops is_up ∷ cs) w h = first_pump cs (stop is_up w) refl

-- From the launch on, however often nearby sharing is started and stopped, the webview is told the
-- offers that reach the receiver of the first start that succeeds, in the order they were sent and
-- each once: all of them but those that a lag loses and those still pending. A lag does not end the
-- telling.
pub run-Sublist :
    (os : Text) (port : ℕ) (eid name : Text) (cs : List Command) (sent : List IncomingOffer)
    (d : Delivers sent (first_received cs))
    → let told = run os port (record { world = launch eid name; is_started = false }) cs in
      Sublist told sent × (length sent ≡ length told + left_out d)
unfolding launch is_running
run-Sublist os port eid name cs sent d =
    rw (first_pump os port cs (launch eid name) refl) (pump-Sublist d, length-pump d)
