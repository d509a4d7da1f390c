-- ===== src/Consent/Session.antt =====
-- core/src/control.rs, the handler `accept` for many connections at once. The handler of an offer
-- waits between the registration and the answer, so it runs in three steps here, and the steps of
-- other connections, the user's answers and the nearby switch come between them in any order.
-- Within a step no other step runs.
pub mod Held
pub mod Safety
pub mod Answers
pub mod Outcomes
pub mod Presence
mod Tests
use dropwire.Prelude.{
  ℕ, Bool, false, Option, none, some, List, [], ◌∷◌, ◌++◌, if◌then◌else◌, ◌==◌, nat_eq, text_eq,
  Text, EndpointId,
}
use dropwire.Prelude.Map
use dropwire.Prelude.Map.{HashMap}
use dropwire.Consent.{
  ConsentCtx, CtrlMsg, Frame, offer, offer_decline, EndpointReplyTransport, Wire,
  add_verdict_waiter, expire_offer, route_other, route_offer, respond_offer,
}

-- What goes back on a connection that carried no offer.
pub data Echo : Type 0 where
  frame : Frame → Echo
  ctrl : CtrlMsg → Echo
  nothing : Echo

-- Where the handler of a connection stands: parked on its channel, past the wait with or without a
-- verdict, done with an answer to its offer, or done with an echo.
pub data Task : Type 0 where
  parked : (offer_id : Text) → Task
  decided : (offer_id : Text) (verdict : Option Frame) → Task
  replied : (offer_id : Text) (answer : Frame) → Task
  echoed : Echo → Task

pub record Session : Type 0 where
  pub ctx : ConsentCtx
  pub tasks : HashMap ℕ Task

pub data Event : Type 0 where
  arrives :
      (conn : ℕ) (remote : EndpointId) (via : Option EndpointReplyTransport) (bytes : Text) → Event
  receives times_out finishes : (conn : ℕ) → Event
  responds : (offer_id : Text) (accept : Bool) → Event
  switches : (on : Bool) → Event

-- A new channel with its receiving end held by the handler.
abbrev open_channel : ℕ → ConsentCtx → ConsentCtx
open_channel conn ctx = record ctx { inboxes = Map.insert conn [] ctx.inboxes }

-- Dropped at the end of the handler's offer branch.
abbrev drop_channel : ℕ → ConsentCtx → ConsentCtx
drop_channel conn ctx = record ctx { inboxes = Map.remove conn ctx.inboxes }

abbrev set_task : ℕ → Task → ConsentCtx → Session → Session
set_task conn t ctx s = record s { ctx = ctx; tasks = Map.insert conn t s.tasks }

-- Whether the channel's sender still waits under the offer's id.
abbrev is_waiting : ℕ → Option ℕ → Bool
is_waiting conn none = false
is_waiting conn (some tx) = tx == conn

-- `verdict_rx.recv()` when it is polled: a frame, the end of a channel with no sender, or pending.
pub receive : ℕ → Text → Option (List Frame) → Session → Session
receive conn offer_id (some (f ∷ queue)) s = set_task conn (decided offer_id (some f)) s.ctx s
receive conn offer_id _ s =
    if is_waiting conn (Map.get offer_id s.ctx.verdict_waiters)
    then s
    else set_task conn (decided offer_id none) s.ctx s

-- `tokio::time::timeout` polls the channel before the clock.
pub time_out : ℕ → Text → Option (List Frame) → Session → Session
time_out conn offer_id (some (f ∷ queue)) s = set_task conn (decided offer_id (some f)) s.ctx s
time_out conn offer_id _ s = set_task conn (decided offer_id none) s.ctx s

-- After the wait: an offer with no verdict is forgotten, and answered by a decline.
pub finish : ℕ → Text → Option Frame → Session → Session
finish conn offer_id none s =
    set_task conn (replied offer_id (offer_decline offer_id))
      (drop_channel conn (expire_offer offer_id s.ctx)) s
finish conn offer_id (some f) s = set_task conn (replied offer_id f) (drop_channel conn s.ctx) s

receive_at : ℕ → Option Task → Session → Session
unfolding receive
receive_at conn (some (parked offer_id)) s = receive conn offer_id (Map.get conn s.ctx.inboxes) s
receive_at conn _ s = s

time_out_at : ℕ → Option Task → Session → Session
unfolding time_out
time_out_at conn (some (parked offer_id)) s = time_out conn offer_id (Map.get conn s.ctx.inboxes) s
time_out_at conn _ s = s

finish_at : ℕ → Option Task → Session → Session
unfolding finish
finish_at conn (some (decided offer_id verdict)) s = finish conn offer_id verdict s
finish_at conn _ s = s

module _ (w : Wire) where
  open w use {parse_frame, parse_ctrl}

  -- The legacy branch: bytes that are no `Frame`.
  accept_ctrl : ℕ → Option CtrlMsg → Session → Session
  accept_ctrl conn (some msg) s =
      set_task conn (echoed (ctrl msg)) (record s.ctx { ctrl_tx = s.ctx.ctrl_tx ++ (msg ∷ []) }) s
  accept_ctrl conn none s = set_task conn (echoed nothing) s.ctx s

  -- The handler up to its first wait.
  pub accept :
      ℕ → EndpointId → Option EndpointReplyTransport → Text → Option Frame → Session → Session
  unfolding accept_ctrl
  accept conn remote via bytes (some (offer o)) s =
      set_task conn (parked o.offer_id)
        (route_offer w remote via bytes
          (add_verdict_waiter o.offer_id conn (open_channel conn s.ctx)))
        s
  accept conn remote via bytes (some f) s = set_task conn (echoed (frame f)) (route_other f s.ctx) s
  accept conn remote via bytes none s = accept_ctrl conn (parse_ctrl bytes) s

  -- A connection is new once.
  accept_new :
      ℕ → EndpointId → Option EndpointReplyTransport → Text → Option Task → Session → Session
  unfolding accept
  accept_new conn remote via bytes none s = accept conn remote via bytes (parse_frame bytes) s
  accept_new conn remote via bytes (some _) s = s

  pub step : Session → Event → Session
  unfolding receive_at time_out_at finish_at accept_new
  step s (arrives conn remote via bytes) = accept_new conn remote via bytes (Map.get conn s.tasks) s
  step s (receives conn) = receive_at conn (Map.get conn s.tasks) s
  step s (times_out conn) = time_out_at conn (Map.get conn s.tasks) s
  step s (finishes conn) = finish_at conn (Map.get conn s.tasks) s
  step s (responds offer_id accept) = record s { ctx = (respond_offer offer_id accept s.ctx).0 }
  step s (switches on) = record s { ctx = record s.ctx { nearby_running = on } }

  pub run : Session → List Event → Session
  unfolding step
  run s [] = s
  run s (e ∷ es) = run (step s e) es

-- `Core::start`: no offer, no channel, no handler.
unfoldable pub start : Bool → Session
start on = record {
  ctx = record {
    ctrl_tx = [];
    offer_tx = [];
    incoming_offers = [];
    nearby_running = on;
    verdict_waiters = [];
    inboxes = [];
  };
  tasks = [];
}
