-- ===== src/Shell/Windows/Tests.antt =====
-- Runs of the windows of src-tauri/src/lib.rs.
use dropwire.Prelude.{ℕ, zero, suc, Bool, true, false, List, [], ◌∷◌, ◌≡◌, refl}
use dropwire.Shell.Windows.{
  main, Runtime, close_requested, opens, reopens, clicks_icon, prefers, run, set_up, Event,
}
use dropwire.Shell.Windows.Lifetime.{is_there, closes_in, quits_in, run_lem}

abbrev goes_on : ℕ → Bool
goes_on zero = false
goes_on (suc n) = true

-- A runtime that ends with its last window.
abbrev to_last : Runtime
to_last = record { goes_on = goes_on; goes_on_left = λ n. refl }

-- The preference is turned off, and the main window closed; no opening brings it back.
abbrev closing : List Event
closing = prefers false ∷ close_requested main ∷ opens ∷ reopens ∷ clicks_icon ∷ []

run-example :
    let d = run to_last (set_up true) closing in
    (is_there d.tray_window ≡ true) × (is_there d.main_window ≡ false) × (d.is_running ≡ true)
unfolding quits_in closes_in
run-example = run_lem to_last true closing
