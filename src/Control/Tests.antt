-- ===== src/Control/Tests.antt =====
-- A decline of core/src/control.rs, sent to the device that a ticket names.
use dropwire.Prelude.{
  ◌≡◌, refl, Bool, true, false, Option, none, some, [], ◌∷◌, Text, code_points, EndpointId, inr,
  ◌==◌, text_eq, nat_eq, if◌then◌else◌, ◌&&◌,
}
use dropwire.Prelude.Map
use dropwire.Consent.{CtrlMsg, Frame, Wire, from_ctrl}
use dropwire.Consent.Session.{start}
use dropwire.Consent.Session.Presence.{heard}
use dropwire.Control.{Link, Codec, Devices, ip, send_control}
use dropwire.Control.Heard.{is_none, send_control_lem}

abbrev decline_bytes : Text
decline_bytes = code_points "{\"kind\":\"decline\"}"

abbrev wire : Wire
wire = record {
  parse_frame = λ bytes. if bytes == decline_bytes then some Frame.decline else none;
  parse_ctrl = λ bytes. none;
  parse_ticket = λ t. some t;
  show_eid = λ e. e ∷ [];
  blake3 = λ t. [];
}

abbrev codec : Codec
codec = record { to_vec = λ msg. inr decline_bytes; parse_addr = λ ticket. some 7 }

abbrev link : Link
link = record {
  connect = none;
  open_bi = none;
  write_all = none;
  finish = none;
  arrived = true;
  conn = 1;
  paths = record { is_selected = true; remote_addr = ip (code_points "10.0.0.2:7777") } ∷ [];
}

abbrev devices : Devices
devices device = start true

send_control_example :
    let (e, net) = send_control wire codec 42 link (code_points "blob") CtrlMsg.decline devices in
    (is_none e ≡ true)
    × ((device : EndpointId)
        → net device
          ≡ (if device == 7 && true then heard 1 CtrlMsg.decline (start true) else start true))
unfolding start Map.get from_ctrl dropwire.Prelude.text_beq
send_control_example =
    send_control_lem wire codec 42 link (code_points "blob") CtrlMsg.decline devices 7 decline_bytes
      refl refl refl refl
