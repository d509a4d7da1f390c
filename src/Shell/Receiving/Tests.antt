-- ===== src/Shell/Receiving/Tests.antt =====
-- A receive that is started from src-tauri/src/lib.rs with no folder picked.
use dropwire.Prelude.{true, false, none, some, [], ◌∷◌, Text, code_points}
use dropwire.Connection.{connected}
use dropwire.Transfers.{Engine}
use dropwire.Receive.{Remote, is_done}
use dropwire.Shell.Receiving.{Surroundings}

abbrev downloads : Text
downloads = code_points "/home/x/Downloads"

abbrev surroundings : Surroundings
surroundings = record {
  parse_ticket = λ t. some t;
  parse_id = λ t. none;
  show_id = λ id. id ∷ [];
  new_id = 7;
  io_error = code_points "denied";
  download_dir = some downloads;
}

-- The second name tries to leave the folder.
abbrev remote : Remote
remote = record {
  ticket = [];
  hash = [];
  now = 10;
  reach = connected [];
  sizes = some (90 ∷ 10 ∷ 20 ∷ []);
  is_complete = some false;
  missing = record { children = 0 ∷ 1 ∷ 2 ∷ [] };
  rounds = is_done ∷ [];
  collection = some (code_points "a.txt" ∷ code_points "../../etc/passwd" ∷ []);
  make_dir = λ p. none;
  export = λ i t. true;
  nanos = 1000;
}

abbrev idle : Engine
idle = record { gate = record { serving = []; conns = []; bound = [] }; active = [] }
