-- ===== src/Receive/Tests.antt =====
-- The download of core/src/receive.rs at concrete inputs.
use dropwire.Prelude.{◌≡◌, refl, true, false, none, some, [], ◌∷◌, code_points, Text, List, All}
use dropwire.Connection.{connected, route_u8}
use dropwire.Receive.{download, Remote, moves, switches, is_done, spawn_receive, export_stage}
use dropwire.Receive.Endings.{HasOneEnding, spawn_receive-HasOneEnding}
use dropwire.Receive.Throttled.{IsPaced, IsPart, every_event, fate, download_throttled}
use dropwire.Receive.Chosen.{IsWithin, spawn_receive-IsWithin}
use dropwire.Receive.Recorded.{replay, left_record, entry_of, told_status, spawn_receive-record}
use dropwire.Catalog
use dropwire.Catalog.{Catalog}
use dropwire.Catalog.Filled.{filled}
use dropwire.Prelude.TreeMap
use dropwire.Progress.{relayed}
use dropwire.Receive.Exports.{Writes, wanted_from, succeeds_at, export_stage-Writes}

abbrev names : List Text
names = code_points "a.txt" ∷ code_points "b/c.txt" ∷ []

abbrev remote : Remote
remote = record {
  ticket = code_points "t1";
  hash = code_points "aa";
  now = 10;
  reach = connected ((record { is_selected = true; is_relay = true; is_ip = false }) ∷ []);
  sizes = some (90 ∷ 10 ∷ 20 ∷ []);
  is_complete = some false;
  missing = record { children = [] };
  rounds =
      moves 210 5
      ∷ switches ((record { is_selected = true; is_relay = false; is_ip = true }) ∷ [])
      ∷ moves 220 9
      ∷ is_done
      ∷ [];
  collection = some names;
  make_dir = λ p. none;
  export = λ i t. true;
  nanos = 1000;
}

spawn_receive-HasOneEnding_example :
    HasOneEnding 7
      (code_points "/home/x")
      (some (1 ∷ []))
      remote
      (spawn_receive 7 (code_points "/home/x") (some (1 ∷ [])) remote)
spawn_receive-HasOneEnding_example =
    spawn_receive-HasOneEnding 7 (code_points "/home/x") (some (1 ∷ [])) remote

export_stage-Writes_example :
    Writes true
      (succeeds_at 7 (code_points "/home/x") (some (1 ∷ [])) remote)
      (wanted_from (some (1 ∷ [])) (code_points "/home/x") 0 names)
      (export_stage 7 (code_points "/home/x") (some (1 ∷ [])) remote 30 (some names))
export_stage-Writes_example =
    export_stage-Writes 7 (code_points "/home/x") (some (1 ∷ [])) remote 30 names

download_throttled_example :
    let (es, f) = download 7 30 0 (route_u8 relayed) remote.rounds in
    IsPaced 0 es × IsPart es (every_event 7 30 relayed remote.rounds) × (f ≡ fate remote.rounds)
download_throttled_example = download_throttled 7 30 0 relayed remote.rounds

spawn_receive-IsWithin_example :
    All (IsWithin (1 ∷ [])) (spawn_receive 7 (code_points "/home/x") (some (1 ∷ [])) remote)
spawn_receive-IsWithin_example = spawn_receive-IsWithin 7 (code_points "/home/x") (1 ∷ []) remote

abbrev empty_history : Catalog
empty_history = record { entries = []; path = [] }

spawn_receive-record_example :
    let es = spawn_receive 7 (code_points "/home/x") none remote in
    Catalog.get filled 7 (replay filled [] 20 7 empty_history es)
    ≡ left_record 20
        (entry_of 7 (code_points "/home/x") none remote remote.reach remote.sizes)
        (told_status es)
unfolding Catalog.get TreeMap.get
spawn_receive-record_example =
    spawn_receive-record 7 (code_points "/home/x") none remote 20 filled [] empty_history refl
