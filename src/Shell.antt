-- ===== src/Shell.antt =====
-- src-tauri/src/lib.rs, the name of the device: the command `set_device_name`, and the part of `run`
-- that sets the app up with the name that the settings keep. The state `AppState` has the engine's
-- nearby session and the settings.
pub mod Renaming
pub mod Windows
pub mod Pump
pub mod Snippets
pub mod Receiving
mod Tests
use dropwire.Prelude.{
  ℕ, Bool, Option, none, some, List, [], ◌∷◌, reverse, if◌then◌else◌, ◌==◌, text_eq, ◌⊎◌, inl, inr,
  Text, code_points,
}
use dropwire.Settings
use dropwire.Settings.{Settings, Store, update, load}
use dropwire.Discover.Session.{World, Attempt, rename}

pub record AppState : Type 0 where
  pub world : World
  pub settings : Store

-- How the advertisement goes when the name changes, and the text of the error where it fails.
pub record Advertising : Type 0 where
  pub os : Text
  pub attempt : Attempt
  pub is_up : Bool
  pub port : ℕ
  pub failure : Text

module _ (is_whitespace : ℕ → Bool) where
  trim_start : Text → Text
  trim_start [] = []
  trim_start (c ∷ t) = let rest = trim_start t in if is_whitespace c then rest else c ∷ t

  -- `str::trim`.
  pub trim : Text → Text
  unfolding trim_start
  trim t = reverse (trim_start (reverse (trim_start t)))

abbrev pub advertise : Advertising → Text → World → World × Bool
advertise a name w = rename a.os a.attempt a.is_up name a.port w

module _ (env : Settings.Env) where
  open env use {Fs}

  abbrev pub Renamed : Type 0
  Renamed = (Text ⊎ Settings) × AppState × Fs

  -- Once the engine took the name.
  keep_name : Text → World → Store → Fs → Renamed
  keep_name name w store fs =
      let (store', fs') = update env (λ s. record s { device_name = some name }) store fs in
      (inr store'.inner, record { world = w; settings = store' }, fs')

  rename_to : Advertising → Text → AppState → Fs → Renamed
  unfolding keep_name
  rename_to a name app fs =
      let (w, is_ok) = advertise a name app.world in
      if is_ok
      then keep_name name w app.settings fs
      else (inl a.failure, record app { world = w }, fs)

  pub set_device_name : (ℕ → Bool) → Advertising → Text → AppState → Fs → Renamed
  unfolding rename_to trim
  set_device_name is_whitespace a name app fs =
      let trimmed = trim is_whitespace name in
      if trimmed == []
      then (inl (code_points "a device name cannot be empty"), app, fs)
      else rename_to a trimmed app fs

  -- A name that the settings keep takes the place of the host's; a failure is ignored.
  named : Advertising → Option Text → World → World
  named a none w = w
  named a (some name) w = (advertise a name w).0

  -- The closure of `setup`, with the session that the engine starts with.
  pub setup : Advertising → Text → World → Fs → AppState
  unfolding named
  setup a data_dir w fs =
      let store = load env data_dir fs in
      record { world = named a store.inner.device_name w; settings = store }
