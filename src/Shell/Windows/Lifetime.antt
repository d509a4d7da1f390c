-- ===== src/Shell/Windows/Lifetime.antt =====
-- How long the windows and the process of src-tauri/src/lib.rs last.
use dropwire.Prelude.{
  Bool, true, false, not, Option, none, some, List, [], ◌∷◌, ◌≡◌, refl, sym, subst, ap, ◌∙◌,
  if◌then◌else◌,
}
use dropwire.Shell.Windows.{
  Icon, main, tray, Desktop, Runtime, destroy_main, on_close_requested, on_focus_lost, Event,
  close_requested, focus_lost, shows_main, hides_tray, clicks_icon, opens, quits, reopens,
  sets_tray_state, prefers, handle, step, run, set_up, show_main, hide_tray_window,
  toggle_tray_window, toggled, set_tray_icon,
}

abbrev pub is_there : Option Bool → Bool
is_there none = false
is_there (some b) = true

-- Whether the process is told to quit.
unfoldable pub quits_in : List Event → Bool
quits_in [] = false
quits_in (quits ∷ es) = true
quits_in (_ ∷ es) = quits_in es

-- Whether the main window is closed while the preference is off, before any quitting.
unfoldable pub closes_in : Bool → List Event → Bool
closes_in keep [] = false
closes_in keep (quits ∷ es) = false
closes_in keep (prefers b ∷ es) = closes_in b es
closes_in keep (close_requested main ∷ es) = if keep then closes_in keep es else true
closes_in keep (_ ∷ es) = closes_in keep es

abbrev pub is_left : Bool → Bool → Bool
is_left true closed = not closed
is_left false closed = false

module _ (rt : Runtime) where
  step-ended : (d : Desktop) (e : Event) → d.is_running ≡ false → step rt d e ≡ d
  unfolding step
  step-ended d e h = ap (λ is_running. if is_running then handle rt e d else d) h

  ended : (d : Desktop) (es : List Event) → d.is_running ≡ false → run rt d es ≡ d
  unfolding run
  ended d [] h = refl
  ended d (e ∷ es) h = ap (λ x. run rt x es) (step-ended d e h) ∙ ended d es h

  abbrev at : Option Bool → Bool → Icon → Bool → Desktop
  at m t icon keep = record {
    main_window = m;
    tray_window = some t;
    icon = icon;
    tray_on_close = some keep;
    is_running = true;
  }

  destroy-main :
      (m : Option Bool) (t : Bool) (icon : Icon)
      → destroy_main rt (at m t icon false) ≡ at none t icon false
  unfolding destroy_main
  destroy-main m t icon =
      ap (λ r. record (at none t icon false) { is_running = r }) (rt.goes_on_left 0)

  -- What a run leaves, from a main window that is there or not.
  abbrev Outcome : Bool → Bool → List Event → Desktop → Type 0
  Outcome there keep es d =
      (is_there d.tray_window ≡ true)
      × (is_there d.main_window ≡ is_left there (closes_in keep es))
      × (d.is_running ≡ not (quits_in es))

  closed :
      (m : Option Bool) (t : Bool) (icon : Icon) (es : List Event)
      → Outcome false false es (run rt (at none t icon false) es)
      → Outcome
          (is_there m)
          false
          (close_requested main ∷ es)
          (run rt (at m t icon false) (close_requested main ∷ es))
  unfolding run step handle on_close_requested quits_in closes_in
  closed none t icon es h =
      subst (λ d. Outcome false false (close_requested main ∷ es) (run rt d es))
        (sym (destroy-main none t icon)) h
  closed (some b) t icon es h =
      subst (λ d. Outcome true false (close_requested main ∷ es) (run rt d es))
        (sym (destroy-main (some b) t icon)) h

  run_from :
      (m : Option Bool) (t : Bool) (icon : Icon) (keep : Bool) (es : List Event)
      → Outcome (is_there m) keep es (run rt (at m t icon keep) es)
  unfolding run step handle on_close_requested destroy_main on_focus_lost show_main hide_tray_window
      toggle_tray_window toggled set_tray_icon quits_in closes_in
  run_from none t icon keep [] = (refl, refl, refl)
  run_from (some b) t icon keep [] = (refl, refl, refl)
  run_from none t icon true (close_requested main ∷ es) = run_from none t icon true es
  run_from (some b) t icon true (close_requested main ∷ es) = run_from (some false) t icon true es
  run_from none t icon false (close_requested main ∷ es) =
      closed none t icon es (run_from none t icon false es)
  run_from (some b) t icon false (close_requested main ∷ es) =
      closed (some b) t icon es (run_from none t icon false es)
  run_from m t icon keep (close_requested tray ∷ es) = run_from m false icon keep es
  run_from m t icon keep (focus_lost main ∷ es) = run_from m t icon keep es
  run_from m t icon keep (focus_lost tray ∷ es) = run_from m false icon keep es
  run_from none t icon keep (shows_main ∷ es) = run_from none false icon keep es
  run_from (some b) t icon keep (shows_main ∷ es) = run_from (some true) false icon keep es
  run_from m t icon keep (hides_tray ∷ es) = run_from m false icon keep es
  run_from m t icon keep (clicks_icon ∷ es) = run_from m (not t) icon keep es
  run_from none t icon keep (opens ∷ es) = run_from none false icon keep es
  run_from (some b) t icon keep (opens ∷ es) = run_from (some true) false icon keep es
  run_from none t icon keep (quits ∷ es) =
      rw (ended (record (at none t icon keep) { is_running = false }) es refl) (refl, refl, refl)
  run_from (some b) t icon keep (quits ∷ es) =
      rw (ended (record (at (some b) t icon keep) { is_running = false }) es refl)
        (refl, refl, refl)
  run_from none t icon keep (reopens ∷ es) = run_from none false icon keep es
  run_from (some b) t icon keep (reopens ∷ es) = run_from (some true) false icon keep es
  run_from m t icon keep (sets_tray_state name ∷ es) = run_from m t _ keep es
  run_from m t icon keep (prefers b ∷ es) = run_from m t icon b es

  -- From the set-up of the app on, under a runtime that goes on while a window is left: however the
  -- user closes, opens, leaves and clicks, the panel's window is never destroyed, so only quitting
  -- ends the process; the main window is destroyed exactly when it is closed, before any quitting,
  -- while `tray_on_close` is off, and nothing makes it again.
  pub run_lem :
      (keep : Bool) (es : List Event)
      → let d = run rt (set_up keep) es in
        (is_there d.tray_window ≡ true)
        × (is_there d.main_window ≡ not (closes_in keep es))
        × (d.is_running ≡ not (quits_in es))
  unfolding set_up
  run_lem keep es = run_from (some true) false _ keep es
