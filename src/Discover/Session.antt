-- ===== src/Discover/Session.antt =====
-- The nearby session of core/src/discover.rs, with the calls of core/src/lib.rs that drive it:
-- `start_nearby`, `stop_nearby`, `set_device_name`, and the events fanned out to the subscribers.
-- An attempt says how far a registration gets, and `is_up` whether `daemon()` returns one.
pub mod Naming
pub mod Sound
pub mod Visibility
pub mod Late
mod Tests
use dropwire.Prelude.{
  ℕ, suc, Bool, true, false, not, Option, none, some, List, [], ◌∷◌, ◌++◌, if◌then◌else◌, ◌==◌,
  nat_eq, text_eq, Text, code_points, retain, take, map,
}
use dropwire.Prelude.Map
use dropwire.Prelude.Map.{HashMap}
use dropwire.Discover.{
  NearbyDevice, PeerTable, SocketAddr, ServiceEvent, Outside, txt_eid, txt_name, txt_os,
  nearby_service, apply_event, listed, socket_in,
}
use dropwire.Discover.Instance.{sanitize_instance}

pub record NearbyState : Type 0 where
  pub registered : Option Text
  pub running : Bool
  pub self_eid : Text
  pub device_name : Text
  pub peers : ℕ
  pub slot : Option ℕ

pub data DaemonCall : Type 0 where
  registers : (label host : Text) (port : ℕ) (properties : HashMap Text Text) → DaemonCall
  unregisters : (full_name : Text) → DaemonCall

-- The session with what it shares: the tables by their addresses, the address of the next one,
-- `SUBSCRIBERS`, and the calls made to the daemon.
pub record World : Type 0 where
  pub tables : HashMap ℕ PeerTable
  pub next : ℕ
  pub subscribers : List ℕ
  pub calls : List DaemonCall
  pub state : NearbyState

pub data Attempt : Type 0 where
  no_daemon bad_info refused registered : Attempt

abbrev pub is_some : Option Text → Bool
is_some none = false
is_some (some t) = true

unfoldable pub is_running : World → Bool
is_running w = is_some w.state.registered

-- `NearbyState::new`, its table the only one.
unfoldable pub launch : Text → Text → World
launch self_eid device_name = record {
  tables = (0, []) ∷ [];
  next = 1;
  subscribers = [];
  calls = [];
  state = record {
    registered = none;
    running = false;
    self_eid = self_eid;
    device_name = device_name;
    peers = 0;
    slot = none;
  };
}

-- `SubscriptionSlot::drop`, for the slot that is overwritten.
pub drop_slot : Option ℕ → List ℕ → List ℕ
drop_slot none subscribers = subscribers
drop_slot (some table) subscribers = retain (λ t. not (t == table)) subscribers

pub short_eid : Text → Text
short_eid eid = take 8 eid

pub label_of : NearbyState → Text
unfolding short_eid
label_of s = sanitize_instance s.device_name ++ (b'-' ∷ short_eid s.self_eid)

-- The service that `start` asks the daemon to register.
pub registration : Text → ℕ → NearbyState → DaemonCall
unfolding label_of short_eid
registration os port s =
    registers (label_of s) (short_eid s.self_eid ++ code_points ".dropwire.local.") port
      (Map.insert txt_os os (Map.insert txt_name s.device_name (Map.insert txt_eid s.self_eid [])))

-- `start` once the daemon took the registration: a new table, subscribed in place of the old one.
pub go_live : World → World
unfolding label_of drop_slot
go_live w = record w {
  tables = Map.insert w.next [] w.tables;
  next = suc w.next;
  subscribers = drop_slot w.state.slot (w.subscribers ++ (w.next ∷ []));
  state = record w.state {
    registered = some (label_of w.state ++ (b'.' ∷ nearby_service));
    running = true;
    peers = w.next;
    slot = some w.next;
  };
}

abbrev pub call : DaemonCall → World → World
call c w = record w { calls = w.calls ++ (c ∷ []) }

-- `NearbyState::start`; the flag is whether it returns `Ok`.
unfoldable pub start : Text → Attempt → ℕ → World → World × Bool
unfolding go_live registration
start os no_daemon port w = (w, false)
start os bad_info port w = (w, false)
start os refused port w = (call (registration os port w.state) w, false)
start os registered port w = (go_live (call (registration os port w.state) w), true)

-- `registered.take()`, and the call to unregister where a daemon answers.
pub unregister : Bool → Option Text → World → World
unregister is_up none w = w
unregister is_up (some full_name) w = if is_up then call (unregisters full_name) w else w

unfoldable pub stop : Bool → World → World
unfolding unregister drop_slot
stop is_up w =
    let w' = unregister is_up w.state.registered w in
    record w' {
      tables = Map.insert w.state.peers [] w.tables;
      subscribers = drop_slot w.state.slot w.subscribers;
      state = record w.state { registered = none; running = false; slot = none };
    }

abbrev pub set_name : Text → World → World
set_name name w = record w { state = record w.state { device_name = name } }

unfoldable pub rename : Text → Attempt → Bool → Text → ℕ → World → World × Bool
unfolding is_running start stop
rename os attempt is_up name port w =
    if w.state.device_name == name
    then (w, true)
    else if is_running w
    then start os attempt port (stop is_up (set_name name w))
    else (set_name name w, true)

-- `Core::start_nearby`.
unfoldable pub start_nearby : Text → Attempt → ℕ → World → World × Bool
unfolding is_running start
start_nearby os attempt port w = if is_running w then (w, true) else start os attempt port w

abbrev pub table_of : Option PeerTable → PeerTable
table_of none = []
table_of (some m) = m

-- `NearbyState::peer_socket`.
unfoldable pub peer_socket : World → Text → Option SocketAddr
peer_socket w eid_hex =
    socket_in w.state.self_eid eid_hex (table_of (Map.get w.state.peers w.tables))

-- A table that an event is still to be folded into.
abbrev pub Pending : Type 0
Pending = ServiceEvent × ℕ

module _ (out : Outside) where
  pub fold_in : ℕ → ServiceEvent → ℕ → Option PeerTable → HashMap ℕ PeerTable → HashMap ℕ PeerTable
  fold_in now event t none tables = tables
  fold_in now event t (some m) tables = Map.insert t (apply_event out now event m) tables

  -- The pump beside the other tasks: it copies `SUBSCRIBERS` for an event, lets go of the lock, and
  -- then folds the event into one copied table after the other. It waits for the next event once
  -- none is left.
  pub take_event : ServiceEvent → World × List Pending → World × List Pending
  take_event event (w, []) = (w, map (λ t. (event, t)) w.subscribers)
  take_event event (w, p ∷ ps) = (w, p ∷ ps)

  pub fold_next : ℕ → World × List Pending → World × List Pending
  unfolding fold_in
  fold_next now (w, []) = (w, [])
  fold_next now (w, (event, t) ∷ ps) =
      (record w { tables = fold_in now event t (Map.get t w.tables) w.tables }, ps)

  -- `NearbyState::list`.
  pub list : World → List NearbyDevice
  list w = listed out w.state.self_eid (table_of (Map.get w.state.peers w.tables))
