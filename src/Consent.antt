-- ===== src/Consent.antt =====
-- core/src/offer.rs and core/src/control.rs, the receiving side of a nearby transfer: how an
-- offer reaches the user, and how the user's answer reaches the sender.
-- A connection is a number. The channel that `accept` makes for an offer is named by its
-- connection; its frames wait in `inboxes` for as long as the handler holds the receiving end.
-- A broadcast is the list of what was sent on it, oldest first.
pub mod Session
use dropwire.Prelude.{
  ℕ, Bool, true, false, not, Option, none, some, List, [], ◌∷◌, ◌++◌, if◌then◌else◌, nat_eq,
  text_eq, Text, EndpointId,
}
use dropwire.Prelude.Map
use dropwire.Prelude.Map.{HashMap}
use dropwire.Fingerprint.{fingerprint_for}

pub data CtrlMsg : Type 0 where
  hello decline ack : CtrlMsg
  chat : (text : Text) → CtrlMsg

pub record Offer : Type 0 where
  pub offer_id : Text
  pub ticket : Text
  pub device_name : Text
  pub title : Text
  pub file_count : ℕ
  pub total_bytes : ℕ

pub data Frame : Type 0 where
  hello ack decline : Frame
  chat : (text : Text) → Frame
  offer : Offer → Frame
  offer_accept : (offer_id : Text) → Frame
  offer_decline : (offer_id : Text) → Frame

-- `Frame::offer_id_str`.
pub offer_id_str : Frame → Text
offer_id_str (offer o) = o.offer_id
offer_id_str (offer_accept offer_id) = offer_id
offer_id_str (offer_decline offer_id) = offer_id
offer_id_str _ = []

-- `From<&CtrlMsg> for Frame`.
unfoldable pub from_ctrl : CtrlMsg → Frame
from_ctrl CtrlMsg.hello = Frame.hello
from_ctrl CtrlMsg.ack = Frame.ack
from_ctrl CtrlMsg.decline = Frame.decline
from_ctrl (CtrlMsg.chat text) = Frame.chat text

pub data EndpointReplyTransport : Type 0 where
  ip : (addr : Text) → EndpointReplyTransport
  relay : (url : Text) → EndpointReplyTransport

pub record IncomingOffer : Type 0 where
  pub offer_id : Text
  pub from_endpoint_id : Text
  pub device_name : Text
  pub fingerprint : Text
  pub ticket : Text
  pub title : Text
  pub file_count : ℕ
  pub total_bytes : ℕ
  pub reply_transport : Option EndpointReplyTransport

pub record ConsentCtx : Type 0 where
  pub ctrl_tx : List CtrlMsg
  pub offer_tx : List IncomingOffer
  pub incoming_offers : HashMap Text IncomingOffer
  pub nearby_running : Bool
  pub verdict_waiters : HashMap Text ℕ
  pub inboxes : HashMap ℕ (List Frame)

-- What comes from outside: serde_json on both kinds of frames, the ticket parser with the
-- printer of what it parsed, the text of an endpoint id, and BLAKE3.
pub record Wire : Type 0 where
  pub parse_frame : Text → Option Frame
  pub parse_ctrl : Text → Option CtrlMsg
  pub parse_ticket : Text → Option Text
  pub show_eid : EndpointId → Text
  pub blake3 : Text → List ℕ

pub add_verdict_waiter : Text → ℕ → ConsentCtx → ConsentCtx
add_verdict_waiter offer_id tx ctx = record ctx {
  verdict_waiters = Map.insert offer_id tx ctx.verdict_waiters;
}

-- `tx.send(frame).is_ok()`: it fails once the receiving end is gone.
push_frame : ℕ → Frame → Option (List Frame) → ConsentCtx → ConsentCtx × Bool
push_frame tx frame none ctx = (ctx, false)
push_frame tx frame (some queue) ctx =
    (record ctx { inboxes = Map.insert tx (queue ++ (frame ∷ [])) ctx.inboxes }, true)

deliver_to : Option ℕ → Frame → ConsentCtx → ConsentCtx × Bool
unfolding push_frame
deliver_to none frame ctx = (ctx, false)
deliver_to (some tx) frame ctx = push_frame tx frame (Map.get tx ctx.inboxes) ctx

pub resolve_verdict : Text → Frame → ConsentCtx → ConsentCtx × Bool
unfolding deliver_to
resolve_verdict offer_id frame ctx =
    deliver_to (Map.get offer_id ctx.verdict_waiters) frame
      (record ctx { verdict_waiters = Map.remove offer_id ctx.verdict_waiters })

pub expire_offer : Text → ConsentCtx → ConsentCtx
expire_offer offer_id ctx = record ctx {
  incoming_offers = Map.remove offer_id ctx.incoming_offers;
  verdict_waiters = Map.remove offer_id ctx.verdict_waiters;
}

pub route_other : Frame → ConsentCtx → ConsentCtx
route_other Frame.hello ctx = record ctx { ctrl_tx = ctx.ctrl_tx ++ (CtrlMsg.hello ∷ []) }
route_other Frame.ack ctx = record ctx { ctrl_tx = ctx.ctrl_tx ++ (CtrlMsg.ack ∷ []) }
route_other Frame.decline ctx = record ctx { ctrl_tx = ctx.ctrl_tx ++ (CtrlMsg.decline ∷ []) }
route_other (Frame.chat text) ctx = record ctx { ctrl_tx = ctx.ctrl_tx ++ (CtrlMsg.chat text ∷ []) }
route_other (offer o) ctx = ctx
route_other (offer_accept offer_id) ctx = ctx
route_other (offer_decline offer_id) ctx = ctx

pub data RespondError : Type 0 where
  not_found : (offer_id : Text) → RespondError
  expired : RespondError

pub data Response : Type 0 where
  ok : Response
  err : RespondError → Response

abbrev pub verdict_frame : Text → Bool → Frame
verdict_frame offer_id accept = if accept then offer_accept offer_id else offer_decline offer_id

-- `respond_offer` once the offer is found: deliver, then spend the offer in any case.
answer_offer : Text → Bool → ConsentCtx → ConsentCtx × Response
answer_offer offer_id accept ctx =
    let (ctx', delivered) = resolve_verdict offer_id (verdict_frame offer_id accept) ctx in
    (
      record ctx' { incoming_offers = Map.remove offer_id ctx'.incoming_offers },
      if delivered then ok else err expired,
    )

pub respond_offer : Text → Bool → ConsentCtx → ConsentCtx × Response
unfolding answer_offer
respond_offer offer_id accept ctx = elim (Map.get offer_id ctx.incoming_offers) [
  | none ↦ (ctx, err (not_found offer_id))
  | some _ ↦ answer_offer offer_id accept ctx
]

module _ (w : Wire) where
  open w use {parse_frame, parse_ctrl, parse_ticket, show_eid, blake3}

  pub incoming_offer : EndpointId → Option EndpointReplyTransport → Offer → Text → IncomingOffer
  incoming_offer remote via o ticket = record {
    offer_id = o.offer_id;
    from_endpoint_id = show_eid remote;
    device_name = o.device_name;
    fingerprint = fingerprint_for blake3 (show_eid remote);
    ticket = ticket;
    title = o.title;
    file_count = o.file_count;
    total_bytes = o.total_bytes;
    reply_transport = via;
  }

  -- Past the visibility gate: validate the ticket, then surface the offer.
  surface :
      EndpointId → Option EndpointReplyTransport → Offer → Option Text → ConsentCtx → ConsentCtx
  unfolding incoming_offer
  surface remote via o none ctx = (resolve_verdict o.offer_id (offer_decline o.offer_id) ctx).0
  surface remote via o (some ticket) ctx =
      let incoming = incoming_offer remote via o ticket in
      record ctx {
        offer_tx = ctx.offer_tx ++ (incoming ∷ []);
        incoming_offers = Map.insert o.offer_id incoming ctx.incoming_offers;
      }

  -- `route_offer` parses the bytes again, and does nothing unless they are an offer.
  route_parsed : EndpointId → Option EndpointReplyTransport → Option Frame → ConsentCtx → ConsentCtx
  unfolding surface
  route_parsed remote via (some (offer o)) ctx =
      if not ctx.nearby_running
      then (resolve_verdict o.offer_id (offer_decline o.offer_id) ctx).0
      else surface remote via o (parse_ticket o.ticket) ctx
  route_parsed remote via _ ctx = ctx

  pub route_offer : EndpointId → Option EndpointReplyTransport → Text → ConsentCtx → ConsentCtx
  unfolding route_parsed
  route_offer remote via bytes ctx = route_parsed remote via (parse_frame bytes) ctx
