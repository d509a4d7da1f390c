-- ===== src/Shell/Pump.antt =====
-- src-tauri/src/lib.rs, the commands `nearby_start` and `nearby_stop` with the task that hands incoming
-- offers to the webview.
pub mod Delivered
mod Tests
use dropwire.Prelude.{ℕ, Bool, true, false, List, [], ◌∷◌, ◌++◌, if◌then◌else◌}
use dropwire.Consent.{IncomingOffer}
use dropwire.Discover.Session.{World, Attempt, start_nearby, stop}

-- What `recv` of tokio's broadcast receiver gives; `lagged` has the number of values lost.
pub data Received : Type 0 where
  ok : (offer : IncomingOffer) → Received
  lagged : (n : ℕ) → Received
  closed : Received

-- The offers that the task emits, from what its receiver gives so far.
pub pump : List Received → List IncomingOffer
pump [] = []
pump (ok o ∷ rs) = o ∷ pump rs
pump (lagged n ∷ rs) = pump rs
pump (closed ∷ rs) = []

pub record App : Type 0 where
  pub world : World
  -- The cell `STARTED`.
  pub is_started : Bool

-- The calls of the pages. A start has what a receiver that is subscribed at it would give.
pub data Command : Type 0 where
  starts : (attempt : Attempt) (received : List Received) → Command
  stops : (is_up : Bool) → Command

pub spawn_offer_pump : List Received → App → List IncomingOffer × App
unfolding pump
spawn_offer_pump rs app =
    if app.is_started then ([], app) else (pump rs, record app { is_started = true })

module _ (os : List ℕ) (port : ℕ) where
  pub nearby_start : Attempt → List Received → App → List IncomingOffer × App
  unfolding spawn_offer_pump
  nearby_start attempt rs app =
      let (w, is_ok) = start_nearby os attempt port app.world in
      if is_ok
      then spawn_offer_pump rs (record app { world = w })
      else ([], record app { world = w })

  pub nearby_stop : Bool → App → List IncomingOffer × App
  nearby_stop is_up app = ([], record app { world = stop is_up app.world })

  pub step : App → Command → List IncomingOffer × App
  unfolding nearby_start nearby_stop
  step app (starts attempt rs) = nearby_start attempt rs app
  step app (stops is_up) = nearby_stop is_up app

  -- All that is emitted.
  pub run : App → List Command → List IncomingOffer
  unfolding step
  run app [] = []
  run app (c ∷ cs) = let (es, app') = step app c in es ++ run app' cs
