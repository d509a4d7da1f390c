-- ===== src/Control.antt =====
-- core/src/control.rs, the dialing side: `send_control` and `dial_ctrl`, up to the handler of the
-- peer that the ticket names. The devices are the sessions of their consent state, by endpoint id.
pub mod Heard
mod Tests
use dropwire.Prelude.{
  ℕ, Bool, Option, none, some, List, [], ◌∷◌, ◌++◌, if◌then◌else◌, ◌==◌, ◌&&◌, ◌*◌, nat_eq, leb,
  length, find, ◌⊎◌, inl, inr, Text, code_points, EndpointId,
}
use dropwire.Consent.{CtrlMsg, EndpointReplyTransport, Wire}
use dropwire.Consent.Session
use dropwire.Consent.Session.{Session, arrives}
use dropwire.Endpoint.{CoreError, invalid_ticket, other}

-- A path of a connection, as the peer that was dialled sees it.
pub data RemoteAddr : Type 0 where
  ip relay custom : (addr : Text) → RemoteAddr

pub record SeenPath : Type 0 where
  pub is_selected : Bool
  pub remote_addr : RemoteAddr

transport_of : SeenPath → Option EndpointReplyTransport
transport_of p = elim (p.remote_addr) [
  | ip sock ↦ some (EndpointReplyTransport.ip sock)
  | relay url ↦ some (EndpointReplyTransport.relay url)
  | custom _ ↦ none
]

first_path : List SeenPath → Option EndpointReplyTransport
unfolding transport_of
first_path [] = none
first_path (p ∷ paths) = transport_of p

-- How the dialer reached this device: by the selected path, else by the first.
pub via_of : List SeenPath → Option EndpointReplyTransport
unfolding transport_of first_path
via_of paths = elim (find (λ p. p.is_selected) paths) [
  | none ↦ first_path paths
  | some p ↦ transport_of p
]

abbrev pub max_frame : ℕ
max_frame = 64 * 1024

-- What one dialing meets: the error of a step that fails, and what the peer sees of it.
pub record Link : Type 0 where
  pub connect : Option Text
  pub open_bi : Option Text
  pub write_all : Option Text
  pub finish : Option Text
  -- Whether the whole stream reaches the peer.
  pub arrived : Bool
  pub conn : ℕ
  pub paths : List SeenPath

abbrev pub Devices : Type 0
Devices = EndpointId → Session

-- serde_json's encoder, and the device that a ticket names, where its text is one.
pub record Codec : Type 0 where
  pub to_vec : CtrlMsg → Text ⊎ Text
  pub parse_addr : Text → Option EndpointId

abbrev pub at_device : EndpointId → (Session → Session) → Devices → Devices
at_device peer f net = λ e. if e == peer then f (net e) else net e

abbrev pub failed : Text → Text → CoreError
failed context e = other (context ++ e)

module _ (w : Wire) (c : Codec) (me : EndpointId) where
  -- The start of `accept`: the stream is read to its end, within the bound.
  pub serve : Link → Text → Session → Session
  unfolding via_of
  serve l bytes s =
      if l.arrived && leb (length bytes) max_frame
      then Session.step w s (arrives l.conn me (via_of l.paths) bytes)
      else s

  abbrev pub Sent : Type 0
  Sent = Option CoreError × Devices

  pub finish_stream : Link → EndpointId → Text → Option Text → Devices → Sent
  unfolding serve
  finish_stream l peer bytes (some e) net = (some (failed (code_points "control finish: ") e), net)
  finish_stream l peer bytes none net = (none, at_device peer (serve l bytes) net)

  pub write_stream : Link → EndpointId → Text → Option Text → Devices → Sent
  unfolding finish_stream
  write_stream l peer bytes (some e) net = (some (failed (code_points "control send: ") e), net)
  write_stream l peer bytes none net = finish_stream l peer bytes l.finish net

  pub encode_message : Link → EndpointId → Text ⊎ Text → Devices → Sent
  unfolding write_stream
  encode_message l peer (inl e) net = (some (failed (code_points "encode: ") e), net)
  encode_message l peer (inr bytes) net = write_stream l peer bytes l.write_all net

  pub open_stream : Link → EndpointId → CtrlMsg → Option Text → Devices → Sent
  unfolding encode_message
  open_stream l peer msg (some e) net = (some (failed (code_points "control stream: ") e), net)
  open_stream l peer msg none net = encode_message l peer (c.to_vec msg) net

  pub dial_ctrl : Link → EndpointId → CtrlMsg → Option Text → Devices → Sent
  unfolding open_stream
  dial_ctrl l peer msg (some e) net = (some (failed (code_points "control connect: ") e), net)
  dial_ctrl l peer msg none net = open_stream l peer msg l.open_bi net

  to_peer : Link → Text → CtrlMsg → Option EndpointId → Devices → Sent
  unfolding dial_ctrl
  to_peer l ticket msg none net = (some (invalid_ticket ticket), net)
  to_peer l ticket msg (some peer) net = dial_ctrl l peer msg l.connect net

  pub send_control : Link → Text → CtrlMsg → Devices → Sent
  unfolding to_peer
  send_control l ticket msg net = to_peer l ticket msg (c.parse_addr ticket) net
