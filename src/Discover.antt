-- ===== src/Discover.antt =====
-- core/src/discover.rs: the mDNS events folded into the tables of nearby peers, and the nearby
-- session that advertises this device and reads its table.
-- A table is named by a number, as an `Arc` is by its address: `SUBSCRIBERS` and the session hold
-- the same one. What the mDNS daemon is asked to do is kept as a list of calls, and each
-- registration says how far it got.
pub mod Instance
pub mod Peers
pub mod Session
use dropwire.Prelude.{
  ℕ, suc, ◌≡◌, Bool, true, false, not, Option, none, some, List, [], ◌∷◌, ◌++◌, map, if◌then◌else◌,
  ◌==◌, nat_eq, text_eq, Text, code_points, retain, take,
}
use dropwire.Prelude.Order.{text_leb}
use dropwire.Prelude.Sort.{sort_by}
use dropwire.Prelude.Map
use dropwire.Prelude.Map.{HashMap}
use dropwire.Fingerprint.{fingerprint_for}
use dropwire.Discover.Instance.{sanitize_instance}

pub record SocketAddr : Type 0 where
  pub address : Text
  pub port : ℕ

pub record NearbyDevice : Type 0 where
  pub endpoint_id : Text
  pub name : Text
  pub fingerprint : Text
  pub os : Option Text
  pub addr : Option Text
  pub seen_at : ℕ

pub record PeerEntry : Type 0 where
  pub device : NearbyDevice
  pub sock : Option SocketAddr
  pub instance_name : Text

abbrev pub PeerTable : Type 0
PeerTable = HashMap Text PeerEntry

-- A resolved service: its TXT records, its IPv4 addresses in the order they are iterated.
pub record ServiceInfo : Type 0 where
  pub properties : HashMap Text Text
  pub addresses_v4 : List Text
  pub port : ℕ
  pub fullname : Text

pub data ServiceEvent : Type 0 where
  service_resolved : (info : ServiceInfo) → ServiceEvent
  service_removed : (ty full_name : Text) → ServiceEvent
  other : ServiceEvent

-- What comes from outside: the text of a socket address, Unicode lower case, and BLAKE3.
pub record Outside : Type 0 where
  pub show_socket : SocketAddr → Text
  pub to_lowercase : Text → Text
  pub blake3 : Text → List ℕ

abbrev pub txt_eid : Text
txt_eid = code_points "dw_eid"

abbrev pub txt_name : Text
txt_name = code_points "dw_name"

abbrev pub txt_os : Text
txt_os = code_points "dw_os"

abbrev pub nearby_service : Text
nearby_service = code_points "_dropwire._udp.local."

abbrev pub unwrap_or : Option Text → Text → Text
unwrap_or none t = t
unwrap_or (some s) t = s

pub first_socket : ServiceInfo → Option SocketAddr
first_socket info = elim (info.addresses_v4) [
  | [] ↦ none
  | ip ∷ ips ↦ some (record { address = ip; port = info.port })
]

-- The removal of every key collected.
pub remove_all : List Text → PeerTable → PeerTable
remove_all [] peers = peers
remove_all (k ∷ ks) peers = remove_all ks (Map.remove k peers)

pub gone : Text → PeerTable → List Text
gone full_name peers = map (λ e. e.0) (retain (λ e. e.1.instance_name == full_name) peers)

module _ (out : Outside) where
  open out use {show_socket, to_lowercase, blake3}

  pub entry_of : ℕ → ServiceInfo → Text → PeerEntry
  unfolding first_socket
  entry_of now info other_eid = record {
    device = record {
      endpoint_id = other_eid;
      name = unwrap_or (Map.get txt_name info.properties) (code_points "Dropwire device");
      fingerprint = fingerprint_for blake3 other_eid;
      os = Map.get txt_os info.properties;
      addr = elim (first_socket info) [ none ↦ none | some s ↦ some (show_socket s) ];
      seen_at = now;
    };
    sock = first_socket info;
    instance_name = info.fullname;
  }

  -- A service with no endpoint id is no announcement of this app.
  pub resolve : ℕ → ServiceInfo → Option Text → PeerTable → PeerTable
  unfolding entry_of
  resolve now info none peers = peers
  resolve now info (some other_eid) peers = Map.insert other_eid (entry_of now info other_eid) peers

  pub apply_event : ℕ → ServiceEvent → PeerTable → PeerTable
  unfolding resolve remove_all gone
  apply_event now (service_resolved info) peers =
      resolve now info (Map.get txt_eid info.properties) peers
  apply_event now (service_removed ty full_name) peers = remove_all (gone full_name peers) peers
  apply_event now other peers = peers

  -- `list`, on the table that the session reads.
  pub listed : Text → PeerTable → List NearbyDevice
  listed self_eid peers =
      sort_by (λ a b. text_leb (to_lowercase a.name) (to_lowercase b.name))
        (map (λ e. e.1.device) (retain (λ e. not (e.1.device.endpoint_id == self_eid)) peers))

abbrev pub sock_of : Option PeerEntry → Option SocketAddr
sock_of none = none
sock_of (some e) = e.sock

-- `peer_socket`.
unfoldable pub socket_in : Text → Text → PeerTable → Option SocketAddr
socket_in self_eid eid_hex peers =
    if eid_hex == self_eid then none else sock_of (Map.get eid_hex peers)
