-- ===== src/Shell/Windows.antt =====
-- The windows of src-tauri/src/lib.rs: the main window and the panel of the tray, the tray's icon and
-- menu, and the handler of the events of windows. Calls on a window succeed where it is there.
pub mod Lifetime
mod Tests
use dropwire.Prelude.{
  ℕ, suc, Bool, true, false, not, Option, none, some, List, [], ◌∷◌, if◌then◌else◌, ◌==◌, text_eq,
  ◌≡◌, Text, code_points, ◌+◌,
}

pub data Label : Type 0 where
  main tray : Label

pub data Icon : Type 0 where
  idle active done attention : Icon

-- The windows that are not destroyed with whether they show, the tray's icon, `tray_on_close` once the
-- settings are managed, and whether the process runs.
pub record Desktop : Type 0 where
  pub main_window : Option Bool
  pub tray_window : Option Bool
  pub icon : Icon
  pub tray_on_close : Option Bool
  pub is_running : Bool

-- What Tauri does once a window is destroyed, by the number of windows left: it documents that it
-- exits with the last of them.
pub record Runtime : Type 0 where
  pub goes_on : ℕ → Bool
  pub goes_on_left : (n : ℕ) → goes_on (suc n) ≡ true

abbrev pub shown : Option Bool → Option Bool
shown none = none
shown (some b) = some true

abbrev pub hidden : Option Bool → Option Bool
hidden none = none
hidden (some b) = some false

abbrev pub count : Option Bool → ℕ
count none = 0
count (some b) = 1

pub show_main : Desktop → Desktop
show_main d = record d { main_window = shown d.main_window; tray_window = hidden d.tray_window }

pub hide_tray_window : Desktop → Desktop
hide_tray_window d = record d { tray_window = hidden d.tray_window }

-- The panel shows or hides at a click on the icon.
toggled : Option Bool → Option Bool
toggled none = none
toggled (some is_visible) = some (not is_visible)

pub toggle_tray_window : Desktop → Desktop
unfolding toggled
toggle_tray_window d = record d { tray_window = toggled d.tray_window }

pub icon_of : Text → Icon
icon_of name =
    if name == code_points "active"
    then active
    else if name == code_points "done"
    then done
    else if name == code_points "attention"
    then attention
    else idle

pub set_tray_icon : Text → Desktop → Desktop
unfolding icon_of
set_tray_icon name d = record d { icon = icon_of name }

abbrev pub unwrap_or_false : Option Bool → Bool
unwrap_or_false none = false
unwrap_or_false (some b) = b

-- What the user does: closing a window, leaving one, the commands of the pages, a click on the icon,
-- its menu, the dock of macOS, and the preference.
pub data Event : Type 0 where
  close_requested focus_lost : (label : Label) → Event
  shows_main hides_tray clicks_icon opens quits reopens : Event
  sets_tray_state : (name : Text) → Event
  prefers : (tray_on_close : Bool) → Event

module _ (rt : Runtime) where
  -- A close request that is not prevented.
  destroy_main : Desktop → Desktop
  destroy_main d = record d { main_window = none; is_running = rt.goes_on (count d.tray_window) }

  -- The handler of `CloseRequested`.
  pub on_close_requested : Label → Desktop → Desktop
  unfolding destroy_main
  on_close_requested main d =
      if unwrap_or_false d.tray_on_close
      then record d { main_window = hidden d.main_window }
      else destroy_main d
  on_close_requested tray d = record d { tray_window = hidden d.tray_window }

  -- The handler of `Focused(false)`.
  pub on_focus_lost : Label → Desktop → Desktop
  on_focus_lost main d = d
  on_focus_lost tray d = record d { tray_window = hidden d.tray_window }

  handle : Event → Desktop → Desktop
  unfolding on_close_requested on_focus_lost show_main hide_tray_window toggle_tray_window
      set_tray_icon
  handle (close_requested label) d = on_close_requested label d
  handle (focus_lost label) d = on_focus_lost label d
  handle shows_main d = show_main d
  handle hides_tray d = hide_tray_window d
  handle clicks_icon d = toggle_tray_window d
  handle opens d = show_main d
  handle quits d = record d { is_running = false }
  handle reopens d = show_main d
  handle (sets_tray_state name) d = set_tray_icon name d
  handle (prefers b) d = record d { tray_on_close = some b }

  -- Nothing happens in a process that has ended.
  pub step : Desktop → Event → Desktop
  unfolding handle
  step d e = if d.is_running then handle e d else d

  pub run : Desktop → List Event → Desktop
  unfolding step
  run d [] = d
  run d (e ∷ es) = run (step d e) es

-- After `setup`: the main window shows, and the panel waits.
pub set_up : Bool → Desktop
set_up tray_on_close = record {
  main_window = some true;
  tray_window = some false;
  icon = idle;
  tray_on_close = some tray_on_close;
  is_running = true;
}
