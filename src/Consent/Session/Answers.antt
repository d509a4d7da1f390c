-- ===== src/Consent/Session/Answers.antt =====
-- How one offer is answered: the paths of core/src/control.rs and core/src/offer.rs from the
-- arrival of an offer to the frame that its sender reads, and what stays behind.
use dropwire.Prelude.{
  ℕ, ◌≡◌, refl, true, false, ◌⊎◌, Option, none, some, List, [], ◌∷◌, ◌++◌, arith, nat_eq, text_eq,
  Text, EndpointId, inl, inr, ◌∙◌, ap,
}
use dropwire.Prelude.Map
use dropwire.Prelude.Map.{HashMap, get-insert, get-remove, get-insert_self, get-remove_self}
use dropwire.Consent.{
  ConsentCtx, Frame, Offer, EndpointReplyTransport, Wire, offer, offer_decline, add_verdict_waiter,
  expire_offer, resolve_verdict, deliver_to, push_frame, route_offer, route_parsed, surface,
  incoming_offer,
}
use dropwire.Consent.Session.{
  parked, decided, replied, Session, arrives, receives, times_out, finishes, receive, receive_at,
  time_out, time_out_at, finish, finish_at, accept, accept_new, step, run,
}

-- The offer `k` is parked on `conn` with the frames `q` in its channel.
pub record Parked (k : Text) (conn : ℕ) (q : List Frame) (s : Session) : Type 0 where
  pub task : Map.get conn s.tasks ≡ some (parked k)
  pub queue : Map.get conn s.ctx.inboxes ≡ some q

-- The handler of `conn` has answered `k` by `f`.
abbrev pub Answered : Text → ℕ → Frame → Session → Type 0
Answered k conn f s = Map.get conn s.tasks ≡ some (replied k f)

-- The context with a fresh channel that waits under the offer's id.
abbrev pub registered : Text → ℕ → ConsentCtx → ConsentCtx
registered k conn ctx = record ctx {
  verdict_waiters = Map.insert k conn ctx.verdict_waiters;
  inboxes = Map.insert conn [] ctx.inboxes;
}

pub resolve_verdict_lem :
    (k : Text) (tx : ℕ) (q : List Frame) (f : Frame) (ctx : ConsentCtx)
    → Map.get k ctx.verdict_waiters ≡ some tx
    → Map.get tx ctx.inboxes ≡ some q
    → resolve_verdict k f ctx ≡ (
      record ctx {
        verdict_waiters = Map.remove k ctx.verdict_waiters;
        inboxes = Map.insert tx (q ++ (f ∷ [])) ctx.inboxes;
      },
      true,
    )
unfolding resolve_verdict deliver_to push_frame
resolve_verdict_lem k tx q f ctx e g = rw (e, deliver_to) (rw (g, push_frame) refl)

module _ (w : Wire) where
  -- A frame in the channel is read and sent back; the maps of offers and waiters stay.
  pub frame_replied :
      (k : Text) (conn : ℕ) (f : Frame) (q : List Frame) (s : Session)
      → Parked k conn (f ∷ q) s
      → let s' = run w s (receives conn ∷ finishes conn ∷ []) in
        Answered k conn f s'
        × (s'.ctx.incoming_offers ≡ s.ctx.incoming_offers)
        × (s'.ctx.offer_tx ≡ s.ctx.offer_tx)
  unfolding run step receive_at receive finish_at finish
  frame_replied k conn f q s p =
      rw (p.task, receive_at)
        (rw (p.queue, receive)
          (rw (get-insert_self conn (decided k (some f)) s.tasks, finish_at)
            (get-insert_self conn (replied k f) _, refl, refl)))

  -- Silence until the clock runs out: the offer is forgotten and declined.
  pub silence_replied :
      (k : Text) (conn : ℕ) (s : Session)
      → Parked k conn [] s
      → let s' = run w s (times_out conn ∷ finishes conn ∷ []) in
        Answered k conn (offer_decline k) s'
        × (s'.ctx.incoming_offers ≡ Map.remove k s.ctx.incoming_offers)
        × (s'.ctx.verdict_waiters ≡ Map.remove k s.ctx.verdict_waiters)
  unfolding run step time_out_at time_out finish_at finish expire_offer
  silence_replied k conn s p =
      rw (p.task, time_out_at)
        (rw (p.queue, time_out)
          (rw (get-insert_self conn (decided k none) s.tasks, finish_at)
            (get-insert_self conn (replied k (offer_decline k)) _, refl, refl)))

  module _ (s : Session) (conn : ℕ) (remote : EndpointId) (via : Option EndpointReplyTransport)
      (bytes : Text) (o : Offer) (new : Map.get conn s.tasks ≡ none)
      (parsed : w.parse_frame bytes ≡ some (offer o)) where
    unfoldable pub arrival : ConsentCtx → Session
    arrival ctx = record s { ctx = ctx; tasks = Map.insert conn (parked o.offer_id) s.tasks }

    arrives_lem :
        step w s (arrives conn remote via bytes)
        ≡ arrival (route_parsed w remote via (some (offer o)) (registered o.offer_id conn s.ctx))
    unfolding arrival step accept_new accept route_offer add_verdict_waiter
    arrives_lem = rw (new, accept_new) (rw (parsed, accept) (rw (parsed) refl))

    -- Turned away at the gate: the decline already waits in the channel.
    turned_away : Session
    unfolding arrival
    turned_away = arrival (record s.ctx {
      verdict_waiters = Map.remove o.offer_id (Map.insert o.offer_id conn s.ctx.verdict_waiters);
      inboxes = Map.insert conn (offer_decline o.offer_id ∷ []) (Map.insert conn [] s.ctx.inboxes);
    })

    turned_away-Parked : Parked o.offer_id conn (offer_decline o.offer_id ∷ []) turned_away
    unfolding turned_away
    turned_away-Parked = record {
      task = get-insert_self conn (parked o.offer_id) s.tasks;
      queue = get-insert_self conn (offer_decline o.offer_id ∷ []) _;
    }

    declined_at_gate :
        resolve_verdict o.offer_id (offer_decline o.offer_id) (registered o.offer_id conn s.ctx)
        ≡ (turned_away.ctx, true)
    unfolding turned_away
    declined_at_gate =
        resolve_verdict_lem o.offer_id conn [] (offer_decline o.offer_id) _
          (get-insert_self o.offer_id conn s.ctx.verdict_waiters)
          (get-insert_self conn [] s.ctx.inboxes)

    arrives_off :
        s.ctx.nearby_running ≡ false → step w s (arrives conn remote via bytes) ≡ turned_away
    unfolding route_parsed arrival turned_away
    arrives_off off = arrives_lem ∙ ap arrival (ground (arith, declined_at_gate))

    arrives_bad :
        s.ctx.nearby_running ≡ true
        → w.parse_ticket o.ticket ≡ none
        → step w s (arrives conn remote via bytes) ≡ turned_away
    unfolding route_parsed arrival turned_away surface
    arrives_bad on bad = arrives_lem ∙ ap arrival (ground (arith, declined_at_gate))

    -- An offer that reaches a device whose nearby sharing is off, or that carries no valid ticket,
    -- is answered by a decline at once: the user is shown nothing, and the pending offers stay as
    -- they were.
    pub turned_away_declines :
        (s.ctx.nearby_running ≡ false)
          ⊎ ((s.ctx.nearby_running ≡ true) × (w.parse_ticket o.ticket ≡ none))
        → let s' = run w s (arrives conn remote via bytes ∷ receives conn ∷ finishes conn ∷ []) in
          Answered o.offer_id conn (offer_decline o.offer_id) s'
          × (s'.ctx.incoming_offers ≡ s.ctx.incoming_offers)
          × (s'.ctx.offer_tx ≡ s.ctx.offer_tx)
    unfolding run
    turned_away_declines refused = rw (away refused) (
        unfold turned_away arrival in
        (frame_replied o.offer_id conn (offer_decline o.offer_id) [] turned_away
          turned_away-Parked))
      where
        away :
            (s.ctx.nearby_running ≡ false)
              ⊎ ((s.ctx.nearby_running ≡ true) × (w.parse_ticket o.ticket ≡ none))
            → step w s (arrives conn remote via bytes) ≡ turned_away
        away (inl off) = arrives_off off
        away (inr (on, bad)) = arrives_bad on bad

    module _ (on : s.ctx.nearby_running ≡ true) (ticket : Text)
        (valid : w.parse_ticket o.ticket ≡ some ticket) where
      -- Shown to the user, with the channel waiting.
      unfoldable pub surfaced : Session
      unfolding arrival
      surfaced = arrival (record (registered o.offer_id conn s.ctx) {
        offer_tx = s.ctx.offer_tx ++ (incoming_offer w remote via o ticket ∷ []);
        incoming_offers =
            Map.insert o.offer_id (incoming_offer w remote via o ticket) s.ctx.incoming_offers;
      })

      pub arrives_on : step w s (arrives conn remote via bytes) ≡ surfaced
      unfolding route_parsed surfaced arrival surface
      arrives_on = arrives_lem ∙ ap arrival (ground arith)

      pub surfaced-Parked : Parked o.offer_id conn [] surfaced
      unfolding surfaced
      surfaced-Parked = record {
        task = get-insert_self conn (parked o.offer_id) s.tasks;
        queue = get-insert_self conn [] s.ctx.inboxes;
      }
