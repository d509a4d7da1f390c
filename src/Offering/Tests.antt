-- ===== src/Offering/Tests.antt =====
-- Offers of core/src/offer.rs at concrete inputs: the transfer 1 with the content "aa" is offered to
-- the device 100.
use dropwire.Prelude.{
  ◌≡◌, refl, true, false, some, none, List, [], ◌∷◌, code_points, nat_eq, text_eq, text_beq, All,
  Text, ℕ, zero, suc, Option, ◌++◌, inr, ap, ◌∙◌,
}
use dropwire.Prelude.Map
use dropwire.Prelude.Sort.{sort_by}
use dropwire.Progress.{send}
use dropwire.Catalog.{list, Catalog, TransferRecord, new_record}
use dropwire.Consent.{Frame, Wire, offer, offer_accept, offer_decline, Offer}
use dropwire.Consent.Session.{Event, arrives, responds, receives, finishes, run, start, replied}
use dropwire.Gate.{
  ProviderMessage, consume_provider_events, get_request_received, client_connected_notify,
}
use dropwire.Gate.OneToOne.{fetchers}
use dropwire.Consent.Session.Outcomes.{answer_reaches_sender}
use dropwire.Discover.{SocketAddr, PeerEntry, socket_in}
use dropwire.Discover.Session.{World, peer_socket}
use dropwire.Offering.{
  ip, dialed, OfferUpdate, Begun, Dialing, offer_nearby_dial, accepted, failed, waiting, settle,
  reserve, offer_of, begun, dial_addr_of, with_record, with_peer,
}
use dropwire.Transfers.{Engine}
use dropwire.Offering.Reserved.{offer_nearby_dial-reserves, settle_stale}
use dropwire.Offering.Chosen.{offer_nearby_dial-IsNewest, Offers, IsNewest}

abbrev active_send : TransferRecord
active_send =
    new_record 10 1 send (code_points "a.txt") (code_points "t1") (code_points "aa") none none 1 100

abbrev catalog : Catalog
catalog = record { path = []; entries = (1 ∷ [], active_send) ∷ [] }

abbrev engine : Engine
engine = record {
  gate = record { serving = (code_points "aa", 1) ∷ []; conns = []; bound = [] };
  active = (1, false) ∷ [];
}

-- The session of the device "laptop", which has seen the peer at a socket of the LAN.
abbrev lan_socket : SocketAddr
lan_socket = record { address = code_points "10.0.0.7"; port = 4000 }

abbrev peer_entry : PeerEntry
peer_entry = record {
  device = record {
    endpoint_id = code_points "64";
    name = code_points "desk";
    fingerprint = [];
    os = none;
    addr = none;
    seen_at = 0;
  };
  sock = some lan_socket;
  instance_name = [];
}

abbrev seen : World
seen = record {
  tables = (0, (code_points "64", peer_entry) ∷ []) ∷ [];
  next = 1;
  subscribers = 0 ∷ [];
  calls = [];
  state = record {
    registered = none;
    running = true;
    self_eid = code_points "ab";
    device_name = code_points "laptop";
    peers = 0;
    slot = some 0;
  };
}

abbrev dialing : Dialing
dialing = record {
  eid_hex = code_points "64";
  parsed = some 100;
  hint = none;
  nearby = seen;
  fresh_id = code_points "o1";
}

abbrev shown_offer : Offer
shown_offer = record {
  offer_id = code_points "o1";
  ticket = code_points "t1";
  device_name = code_points "laptop";
  title = code_points "a.txt";
  file_count = 1;
  total_bytes = 100;
}

abbrev offered : Begun
offered = record {
  offer_id = code_points "o1";
  frame = offer shown_offer;
  dial_addr = record { peer = 100; addrs = ip lan_socket ∷ [] };
  hash_key = code_points "aa";
  transfer_id = 1;
  peer = 100;
}

began : offer_nearby_dial dialing catalog engine ≡ (inr offered, reserve offered engine)
unfolding offer_nearby_dial dialed peer_socket socket_in Map.get with_peer with_record begun
    offer_of dial_addr_of new_record list sort_by reserve text_beq Map.insert
began = refl

-- A code for frames: a tag, then the texts with their lengths before them.
length : Text → ℕ
length [] = 0
length (c ∷ t) = suc (length t)

text_of : Text → Text → Text
text_of t rest = length t ∷ (t ++ rest)

split : ℕ → Text → Text × Text
split zero t = ([], t)
split (suc n) [] = ([], [])
split (suc n) (c ∷ t) = let (u, rest) = split n t in (c ∷ u, rest)

split-text_of : (t rest : Text) → split (length t) (t ++ rest) ≡ (t, rest)
unfolding split length
split-text_of [] rest = refl
split-text_of (c ∷ t) rest = ap (λ r. (c ∷ r.0, r.1)) (split-text_of t rest)

abbrev encode : Frame → Text
encode Frame.hello = 0 ∷ []
encode Frame.ack = 1 ∷ []
encode Frame.decline = 2 ∷ []
encode (Frame.chat text) = 3 ∷ text
encode (offer_accept offer_id) = 4 ∷ offer_id
encode (offer_decline offer_id) = 5 ∷ offer_id
encode (offer o) =
    6
    ∷ text_of o.offer_id (
        text_of o.ticket
          (text_of o.device_name (text_of o.title (o.file_count ∷ o.total_bytes ∷ []))))

field : (Text → Text → Option Frame) → Text → Option Frame
field k [] = none
field k (n ∷ t) = let (u, rest) = split n t in k u rest

totals : (ℕ → ℕ → Frame) → Text → Option Frame
totals k (n ∷ m ∷ []) = some (k n m)
totals k _ = none

parse_offer : Text → Option Frame
parse_offer = field (λ i. field (λ t. field (λ d. field (λ n. totals (λ c b. offer (record {
  offer_id = i;
  ticket = t;
  device_name = d;
  title = n;
  file_count = c;
  total_bytes = b;
}))))))

parse_tag : ℕ → Text → Option Frame
parse_tag zero [] = some Frame.hello
parse_tag (suc zero) [] = some Frame.ack
parse_tag (suc (suc zero)) [] = some Frame.decline
parse_tag (suc (suc (suc zero))) text = some (Frame.chat text)
parse_tag (suc (suc (suc (suc zero)))) offer_id = some (offer_accept offer_id)
parse_tag (suc (suc (suc (suc (suc zero))))) offer_id = some (offer_decline offer_id)
parse_tag (suc (suc (suc (suc (suc (suc zero)))))) rest = parse_offer rest
parse_tag _ _ = none

abbrev parse_frame : Text → Option Frame
unfolding parse_tag
parse_frame [] = none
parse_frame (tag ∷ rest) = parse_tag tag rest

field-text_of :
    (k : Text → Text → Option Frame) (t rest : Text) → field k (text_of t rest) ≡ k t rest
unfolding field text_of
field-text_of k t rest = ap (λ r. k r.0 r.1) (split-text_of t rest)

parse-encode : (f : Frame) → parse_frame (encode f) ≡ some f
unfolding parse_offer totals parse_tag
parse-encode Frame.hello = refl
parse-encode Frame.ack = refl
parse-encode Frame.decline = refl
parse-encode (Frame.chat text) = refl
parse-encode (offer_accept offer_id) = refl
parse-encode (offer_decline offer_id) = refl
parse-encode (offer o) =
    field-text_of _ o.offer_id _
    ∙ field-text_of _ o.ticket _
    ∙ field-text_of _ o.device_name _
    ∙ field-text_of _ o.title _

abbrev wire : Wire
wire = record {
  parse_frame = parse_frame;
  parse_ctrl = λ bytes. none;
  parse_ticket = λ t. some t;
  show_eid = λ e. e ∷ [];
  blake3 = λ t. [];
}

abbrev two_devices : List ProviderMessage
two_devices =
    client_connected_notify 8 (some 200)
    ∷ get_request_received 8 (code_points "aa")
    ∷ client_connected_notify 9 (some 100)
    ∷ get_request_received 9 (code_points "aa")
    ∷ []

offer_nearby_dial-reserves_example :
    let g' = reserve offered engine in
    let asked = record g' { gate = (consume_provider_events g'.gate two_devices).0 } in
    All (λ x. x ≡ 100) (fetchers g'.gate (code_points "aa") two_devices)
    × All
        (λ x. x ≡ 100)
        (fetchers (settle offered accepted asked).gate (code_points "aa") two_devices)
unfolding reserve Map.get Map.insert text_beq
offer_nearby_dial-reserves_example =
    offer_nearby_dial-reserves dialing catalog engine (reserve offered engine) offered two_devices
      two_devices began refl

offer_nearby_dial-IsNewest_example :
    (r : TransferRecord) × IsNewest catalog r × Offers dialing offered r
offer_nearby_dial-IsNewest_example =
    offer_nearby_dial-IsNewest dialing catalog engine (reserve offered engine) offered began

abbrev accepted_run : List Event
accepted_run =
    arrives 1 42 none (encode offered.frame)
    ∷ responds (code_points "o1") true
    ∷ receives 1
    ∷ finishes 1
    ∷ []

abbrev bound_engine : Engine
bound_engine = record {
  gate = record {
    serving = (code_points "aa", 1) ∷ [];
    conns = [];
    bound = (code_points "aa", 100) ∷ [];
  };
  active = (1, false) ∷ [];
}

abbrev second : List OfferUpdate → OfferUpdate
second (_ ∷ u ∷ _) = u
second _ = waiting

answered :
    Map.get 1 (run wire (start true) accepted_run).tasks
    ≡ some (replied (code_points "o1") (offer_accept (code_points "o1")))
unfolding start Map.get
answered =
    (answer_reaches_sender wire (start true) 1 42 none _ shown_offer refl
      (parse-encode (offer shown_offer)) refl (code_points "t1") refl true false).1

settle_stale_example :
    let g' =
      settle offered
        (failed [])
        (settle offered accepted (reserve offered (reserve offered engine))) in
    (Map.get (code_points "aa") g'.gate.bound ≡ none) × (Map.get 1 g'.active ≡ some true)
unfolding Map.get
settle_stale_example = settle_stale offered offered engine [] refl refl refl
