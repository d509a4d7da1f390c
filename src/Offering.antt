-- ===== src/Offering.antt =====
-- core/src/offer.rs, the sending side of a nearby transfer: the offer of the active send, the wait
-- for the answer, and what it does to the one-to-one gate.
pub mod Reserved
pub mod Chosen
pub mod Answer
mod Tests
use dropwire.Prelude.{
  ℕ, Bool, true, false, Option, none, some, List, [], ◌∷◌, ◌++◌, find, if◌then◌else◌, ◌==◌, ◌&&◌,
  nat_eq, text_eq, Text, code_points, EndpointId, ◌⊎◌, inl, inr,
}
use dropwire.Prelude.Map
use dropwire.Prelude.Map.{HashMap}
use dropwire.Progress.{TransferId, Direction, send, receive}
use dropwire.Catalog
use dropwire.Catalog.{Catalog, TransferRecord, is_active}
use dropwire.Gate.{Gate}
use dropwire.Consent.{CtrlMsg, Frame, Offer, offer, offer_accept, offer_decline}
use dropwire.Transfers.{Engine, cancel}
use dropwire.Discover.{SocketAddr}
use dropwire.Endpoint.{CoreError, invalid_ticket, other}
use dropwire.Discover.Session.{World, peer_socket}

pub data OfferUpdate : Type 0 where
  waiting accepted declined : OfferUpdate
  failed : (reason : Text) → OfferUpdate

pub data TransportAddr : Type 0 where
  ip : (addr : SocketAddr) → TransportAddr
  relay : (url : Text) → TransportAddr

-- Where a peer is dialled; the source keeps its addresses as a set.
pub record DialAddr : Type 0 where
  pub peer : EndpointId
  pub addrs : List TransportAddr

-- What the task of an offer holds on to.
pub record Begun : Type 0 where
  pub offer_id : Text
  pub frame : Frame
  pub dial_addr : DialAddr
  pub hash_key : Text
  pub transfer_id : TransferId
  pub peer : EndpointId

abbrev pub is_send : Direction → Bool
is_send send = true
is_send receive = false

abbrev pub is_offered : TransferRecord → Bool
is_offered r = is_send r.direction && is_active r.status

abbrev pub hinted : Option (List TransportAddr) → List TransportAddr
hinted none = []
hinted (some addrs) = addrs

-- The LAN socket with the hint's addresses, else those alone; without any, the engine looks the peer up.
pub dial_addr_of : EndpointId → Option SocketAddr → Option (List TransportAddr) → DialAddr
dial_addr_of peer (some sock) hint = record { peer = peer; addrs = ip sock ∷ hinted hint }
dial_addr_of peer none hint = record { peer = peer; addrs = hinted hint }

pub offer_of : Text → Text → TransferRecord → Offer
offer_of offer_id device_name r = record {
  offer_id = offer_id;
  ticket = r.ticket;
  device_name = device_name;
  title = r.name;
  file_count = r.file_count;
  total_bytes = r.total_bytes;
}

pub begun : Text → Text → EndpointId → DialAddr → TransferRecord → Begun
unfolding offer_of
begun offer_id device_name peer dial r = record {
  offer_id = offer_id;
  frame = offer (offer_of offer_id device_name r);
  dial_addr = dial;
  hash_key = r.hash;
  transfer_id = r.id;
  peer = peer;
}

-- The gate's binding for the peer, made at once.
pub reserve : Begun → Engine → Engine
reserve b g = record g {
  gate = record g.gate { bound = Map.insert b.hash_key b.peer g.gate.bound };
}

-- What `offer_nearby_dial` takes from elsewhere: the peer's id, if the text is one, the hint, the
-- nearby session with the peers' sockets and this device's name, and a fresh offer id.
pub record Dialing : Type 0 where
  pub eid_hex : Text
  pub parsed : Option EndpointId
  pub hint : Option (List TransportAddr)
  pub nearby : World
  pub fresh_id : Text

-- The peer table is asked for the socket by the text of the id.
pub dialed : Dialing → EndpointId → DialAddr
unfolding dial_addr_of
dialed d peer = dial_addr_of peer (peer_socket d.nearby d.eid_hex) d.hint

abbrev pub Began : Type 0
Began = (CoreError ⊎ Begun) × Engine

with_record : Dialing → EndpointId → Option TransferRecord → Engine → Began
unfolding begun reserve dialed
with_record d peer none g = (inl (other (code_points "no active send to offer")), g)
with_record d peer (some r) g =
    let b = begun d.fresh_id d.nearby.state.device_name peer (dialed d peer) r in
    if r.ticket == []
    then (inl (other (code_points "send not ready yet")), g)
    else (inr b, reserve b g)

with_peer : Dialing → Option EndpointId → Catalog → Engine → Began
unfolding with_record
with_peer d none cat g = (inl (invalid_ticket d.eid_hex), g)
with_peer d (some peer) cat g = with_record d peer (find is_offered (Catalog.list cat)) g

-- `offer_nearby_dial`, up to the task that it spawns.
pub offer_nearby_dial : Dialing → Catalog → Engine → Began
unfolding with_peer
offer_nearby_dial d cat g = with_peer d d.parsed cat g

-- A refused offer gives the binding up, if it still names the peer, and cancels the send.
pub release : Begun → Bool → Engine → Engine
release b true g =
    cancel b.transfer_id
      (record g { gate = record g.gate { bound = Map.remove b.hash_key g.gate.bound } })
release b false g = g

abbrev pub names_peer : EndpointId → Option EndpointId → Bool
names_peer peer none = false
names_peer peer (some holder) = holder == peer

-- The task, once `deliver_offer` has given its update.
pub settle : Begun → OfferUpdate → Engine → Engine
unfolding release cancel
settle b declined g = release b (names_peer b.peer (Map.get b.hash_key g.gate.bound)) g
settle b (failed reason) g = release b (names_peer b.peer (Map.get b.hash_key g.gate.bound)) g
settle b waiting g = g
settle b accepted g = g

-- How far the delivery gets: each step may fail with the reason given.
pub data Dial : Type 0 where
  unreachable connected : Dial
  refused : (message : Text) → Dial

pub data Reading : Type 0 where
  timed_out : Reading
  broken : (message : Text) → Reading
  answered : (bytes : Text) → Reading

pub record Delivery : Type 0 where
  pub dial : Dial
  pub opening : Option Text
  pub encoding : Option Text
  pub writing : Option Text
  pub finishing : Option Text
  pub reading : Reading

-- The first of the steps that fails.
pub first_error : List (Option Text) → Option Text
first_error [] = none
first_error (some e ∷ steps) = some e
first_error (none ∷ steps) = first_error steps

abbrev pub prefixed : Text → Option Text → Option Text
prefixed t none = none
prefixed t (some e) = some (t ++ e)

dial_error : Dial → Option Text
dial_error unreachable = some (code_points "neighbor unreachable")
dial_error connected = none
dial_error (refused e) = some (code_points "connect failed: " ++ e)

pub verdict_of : Option Frame → Text ⊎ OfferUpdate
verdict_of (some (offer_accept offer_id)) = inr accepted
verdict_of (some (offer_decline offer_id)) = inr declined
verdict_of _ = inl (code_points "unexpected answer")

read_answer : (Text → Option Frame) → Reading → Text ⊎ OfferUpdate
unfolding verdict_of
read_answer parse_frame timed_out = inl (code_points "they didn't answer in time")
read_answer parse_frame (broken e) = inl (code_points "read failed: " ++ e)
read_answer parse_frame (answered bytes) = verdict_of (parse_frame bytes)

pub deliver_offer : (Text → Option Frame) → Delivery → Text ⊎ OfferUpdate
unfolding first_error dial_error read_answer
deliver_offer parse_frame d =
    elim (first_error (
      dial_error d.dial
      ∷ prefixed (code_points "stream open failed: ") d.opening
      ∷ d.encoding
      ∷ d.writing
      ∷ d.finishing
      ∷ [])) [ some reason ↦ inl reason | none ↦ read_answer parse_frame d.reading ]

pub update_of : Text ⊎ OfferUpdate → OfferUpdate
update_of (inl reason) = failed reason
update_of (inr u) = u

-- The whole task: the updates streamed to the caller, and the engine after it.
pub offer_task : (Text → Option Frame) → Begun → Delivery → Engine → List OfferUpdate × Engine
unfolding deliver_offer update_of settle
offer_task parse_frame b d g =
    let u = update_of (deliver_offer parse_frame d) in (waiting ∷ u ∷ [], settle b u g)
