-- ===== src/Control/Heard.antt =====
-- What a control message of core/src/control.rs does to the devices.
use dropwire.Prelude.{
  ◌≡◌, refl, Bool, true, false, Option, none, some, Text, EndpointId, inr, ◌==◌, ◌&&◌,
  if◌then◌else◌, nat_eq, leb, length, ap, code_points, arith,
}
use dropwire.Prelude.Map
use dropwire.Consent.{CtrlMsg, from_ctrl, Wire}
use dropwire.Consent.Session.Presence.{heard, step-heard}
use dropwire.Endpoint.{CoreError}
use dropwire.Control.{
  Link, Codec, Devices, Sent, max_frame, via_of, serve, finish_stream, write_stream, encode_message,
  open_stream, dial_ctrl, to_peer, send_control, failed,
}

abbrev pub is_none {ℓ} : {A : Type ℓ} → Option A → Bool
is_none none = true
is_none (some _) = false

-- Every step of the dialing succeeds.
abbrev pub goes_out : Link → Bool
goes_out l = is_none l.connect && (is_none l.open_bi && (is_none l.write_all && is_none l.finish))

-- The peer reads all of it, within its bound.
abbrev pub is_read : Link → Text → Bool
is_read l bytes = l.arrived && leb (length bytes) max_frame

module _ (w : Wire) (c : Codec) (me : EndpointId) (l : Link) (msg : CtrlMsg) (bytes : Text)
    (net : Devices) (peer : EndpointId) where
  -- What the sending leaves, if all its steps succeed or not.
  abbrev pub Outcome : Bool → Sent w c me → Type 0
  Outcome is_out (e, net') =
      (is_none e ≡ is_out)
      × ((device : EndpointId)
          → net' device ≡ (
              if device == peer && (is_out && is_read l bytes)
              then heard l.conn msg (net device)
              else net device))

  stays : (e : CoreError) → Outcome false (some e, net)
  stays e = (refl, λ device. ground arith)

  module _ (encoded : c.to_vec msg ≡ inr bytes)
      (parsed : w.parse_frame bytes ≡ some (from_ctrl msg))
      (new : Map.get l.conn (net peer).tasks ≡ none) where
    serve-heard :
        (device : EndpointId)
        → device ≡ peer
        → serve w c me l bytes (net device)
          ≡ (if is_read l bytes then heard l.conn msg (net device) else net device)
    unfolding serve
    serve-heard device same =
        ap (λ x. if is_read l bytes then x else net device)
          (step-heard w (net device) l.conn me (via_of l.paths) bytes msg parsed (rw (same) new))

    finish-Outcome :
        (o : Option Text) → Outcome (is_none o) (finish_stream w c me l peer bytes o net)
    unfolding finish_stream
    finish-Outcome (some e) = stays (failed (code_points "control finish: ") e)
    finish-Outcome none = (refl, λ device. ground (arith, serve-heard device))

    write-Outcome :
        (o : Option Text)
        → Outcome (is_none o && is_none l.finish) (write_stream w c me l peer bytes o net)
    unfolding write_stream
    write-Outcome (some e) = stays (failed (code_points "control send: ") e)
    write-Outcome none = finish-Outcome l.finish

    open-Outcome :
        (o : Option Text)
        → Outcome
            (is_none o && (is_none l.write_all && is_none l.finish))
            (open_stream w c me l peer msg o net)
    unfolding open_stream encode_message
    open-Outcome (some e) = stays (failed (code_points "control stream: ") e)
    open-Outcome none = rw (encoded) (write-Outcome l.write_all)

    pub dial-Outcome :
        (o : Option Text)
        → Outcome
            (is_none o && (is_none l.open_bi && (is_none l.write_all && is_none l.finish)))
            (dial_ctrl w c me l peer msg o net)
    unfolding dial_ctrl
    dial-Outcome (some e) = stays (failed (code_points "control connect: ") e)
    dial-Outcome none = open-Outcome l.open_bi

-- With a ticket that names a device, and a message that encodes into bytes that parse as its frame,
-- over a connection that is new to the device: `send_control` returns `Ok` exactly when every step
-- of the dialing succeeds. The message is then on the bus of that device, once, and its frame is
-- the echo, if the bytes arrive and are at most 64 KiB; in every other case no device changes. It
-- never changes another device.
pub send_control_lem :
    (w : Wire) (c : Codec) (me : EndpointId) (l : Link) (ticket : Text) (msg : CtrlMsg)
    (net : Devices) (peer : EndpointId) (bytes : Text)
    → c.parse_addr ticket ≡ some peer
    → c.to_vec msg ≡ inr bytes
    → w.parse_frame bytes ≡ some (from_ctrl msg)
    → Map.get l.conn (net peer).tasks ≡ none
    → let (e, net') = send_control w c me l ticket msg net in
      (is_none e ≡ goes_out l)
      × ((device : EndpointId)
          → net' device ≡ (
              if device == peer && (goes_out l && is_read l bytes)
              then heard l.conn msg (net device)
              else net device))
unfolding send_control to_peer
send_control_lem w c me l ticket msg net peer bytes named encoded parsed new =
    rw (named) (dial-Outcome w c me l msg bytes net peer encoded parsed new l.connect)
