-- ===== src/Consent/Session/Presence.antt =====
-- core/src/control.rs, the frames that carry no offer: a control message of a peer.
use dropwire.Prelude.{ℕ, ◌≡◌, refl, Option, none, some, [], ◌∷◌, ◌++◌, Text, EndpointId, nat_eq}
use dropwire.Prelude.Map
use dropwire.Consent.{
  CtrlMsg, from_ctrl, EndpointReplyTransport, Wire, route_other, hello, ack, decline, chat,
}
use dropwire.Consent.Session.{Session, arrives, step, accept, accept_new, echoed, frame}

-- The message is on the bus, and its frame goes back.
abbrev pub heard : ℕ → CtrlMsg → Session → Session
heard conn msg s = record s {
  ctx = record s.ctx { ctrl_tx = s.ctx.ctrl_tx ++ (msg ∷ []) };
  tasks = Map.insert conn (echoed (frame (from_ctrl msg))) s.tasks;
}

pub step-heard :
    (w : Wire) (s : Session) (conn : ℕ) (remote : EndpointId) (via : Option EndpointReplyTransport)
    (bytes : Text) (msg : CtrlMsg)
    → w.parse_frame bytes ≡ some (from_ctrl msg)
    → Map.get conn s.tasks ≡ none
    → step w s (arrives conn remote via bytes) ≡ heard conn msg s
unfolding step accept_new accept route_other from_ctrl
step-heard w s conn remote via bytes hello h new = rw (new, h) refl
step-heard w s conn remote via bytes ack h new = rw (new, h) refl
step-heard w s conn remote via bytes decline h new = rw (new, h) refl
step-heard w s conn remote via bytes (chat text) h new = rw (new, h) refl
