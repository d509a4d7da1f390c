-- ===== src/Consent/Session/Outcomes.antt =====
-- What becomes of an offer that was shown to the user (core/src/control.rs and
-- core/src/offer.rs): answered, left unanswered, answered too late, or taken over.
pub mod Takeover
use dropwire.Prelude.{
  ℕ, ◌≡◌, refl, Bool, true, Option, none, some, List, [], ◌∷◌, ◌++◌, nat_eq, text_eq, Text,
  EndpointId, ◌∙◌, ap,
}
use dropwire.Prelude.Map
use dropwire.Prelude.Map.{HashMap, get-insert, get-remove, get-insert_self, get-remove_self}
use dropwire.Consent.{
  ConsentCtx, Frame, Offer, EndpointReplyTransport, IncomingOffer, Wire, offer, offer_decline, ok,
  err, not_found, verdict_frame, respond_offer, answer_offer,
}
use dropwire.Consent.Session.{
  decided, replied, Session, arrives, receives, times_out, finishes, responds, step, run,
  time_out_at, time_out, finish_at, finish,
}
use dropwire.Consent.Session.Answers.{
  Parked, Answered, resolve_verdict_lem, frame_replied, silence_replied, surfaced, arrives_on,
  surfaced-Parked, arrival,
}

-- The answer of an offer that is shown and whose channel waits is delivered, and spends the offer.
respond_offer_lem :
    (k : Text) (b : Bool) (tx : ℕ) (io : IncomingOffer) (q : List Frame) (ctx : ConsentCtx)
    → Map.get k ctx.incoming_offers ≡ some io
    → Map.get k ctx.verdict_waiters ≡ some tx
    → Map.get tx ctx.inboxes ≡ some q
    → respond_offer k b ctx ≡ (
      record ctx {
        incoming_offers = Map.remove k ctx.incoming_offers;
        verdict_waiters = Map.remove k ctx.verdict_waiters;
        inboxes = Map.insert tx (q ++ (verdict_frame k b ∷ [])) ctx.inboxes;
      },
      ok,
    )
unfolding respond_offer answer_offer
respond_offer_lem k b tx io q ctx e f g =
    rw (e, respond_offer) (rw (resolve_verdict_lem k tx q (verdict_frame k b) ctx f g) refl)

-- A spent or forgotten offer cannot be answered.
respond_missing :
    (k : Text) (b : Bool) (ctx : ConsentCtx)
    → Map.get k ctx.incoming_offers ≡ none
    → respond_offer k b ctx ≡ (ctx, err (not_found k))
unfolding respond_offer
respond_missing k b ctx e = rw (e, respond_offer) refl

module _ (w : Wire) (s : Session) (conn : ℕ) (remote : EndpointId)
    (via : Option EndpointReplyTransport) (bytes : Text) (o : Offer)
    (new : Map.get conn s.tasks ≡ none) (parsed : w.parse_frame bytes ≡ some (offer o))
    (on : s.ctx.nearby_running ≡ true) (ticket : Text)
    (valid : w.parse_ticket o.ticket ≡ some ticket) where
  pub shown : Session
  shown = surfaced w s conn remote via bytes o new parsed on ticket valid

  pub respond_shown :
      (b : Bool)
      → respond_offer o.offer_id b shown.ctx ≡ (
        record shown.ctx {
          incoming_offers = Map.remove o.offer_id shown.ctx.incoming_offers;
          verdict_waiters = Map.remove o.offer_id shown.ctx.verdict_waiters;
          inboxes = Map.insert conn (verdict_frame o.offer_id b ∷ []) shown.ctx.inboxes;
        },
        ok,
      )
  unfolding shown surfaced arrival
  respond_shown b =
      respond_offer_lem o.offer_id b conn _ [] _
        (get-insert_self o.offer_id _ s.ctx.incoming_offers)
        (get-insert_self o.offer_id conn s.ctx.verdict_waiters)
        (get-insert_self conn [] s.ctx.inboxes)

  pub shown_after : step w s (arrives conn remote via bytes) ≡ shown
  unfolding shown
  shown_after = arrives_on w s conn remote via bytes o new parsed on ticket valid

  pub shown-Parked : Parked o.offer_id conn [] shown
  unfolding shown
  shown-Parked = surfaced-Parked w s conn remote via bytes o new parsed on ticket valid

  -- With the user's answer in the channel.
  pub answered : Bool → Session
  answered b = record shown { ctx = (respond_offer o.offer_id b shown.ctx).0 }

  answered-Parked :
      (b : Bool) → Parked o.offer_id conn (verdict_frame o.offer_id b ∷ []) (answered b)
  unfolding answered
  answered-Parked b = record {
    task = shown-Parked.task;
    queue = rw (respond_shown b) (get-insert_self conn (verdict_frame o.offer_id b ∷ []) _);
  }

  spent : (b : Bool) → Map.get o.offer_id (answered b).ctx.incoming_offers ≡ none
  unfolding answered
  spent b = rw (respond_shown b) (get-remove_self o.offer_id shown.ctx.incoming_offers)

  pub responds_lem : (b : Bool) → step w shown (responds o.offer_id b) ≡ answered b
  unfolding step answered
  responds_lem b = refl

  -- A valid offer that reaches a device with nearby sharing on is answered by what the user says,
  -- where its arrival, the answer, the receipt of the answer and the end of the handler follow one
  -- another with nothing in between, in particular no other offer under the same id: the answer is
  -- reported as delivered, the sender reads exactly that verdict, and the offer is spent, so that a
  -- second answer finds nothing.
  pub answer_reaches_sender :
      (b again : Bool)
      → let s' = run w s (
          arrives conn remote via bytes
          ∷ responds o.offer_id b
          ∷ receives conn
          ∷ finishes conn
          ∷ []) in
        ((respond_offer o.offer_id b (step w s (arrives conn remote via bytes)).ctx).1 ≡ ok)
        × Answered o.offer_id conn (verdict_frame o.offer_id b) s'
        × ((respond_offer o.offer_id again s'.ctx).1 ≡ err (not_found o.offer_id))
  unfolding run shown answered
  answer_reaches_sender b again =
      let (said, kept, _) =
        frame_replied w o.offer_id conn (verdict_frame o.offer_id b) [] (answered b)
          (answered-Parked b) in
      rw (shown_after) (
        rw (responds_lem b) (
          ap (λ r. r.1) (respond_shown b),
          said,
          ap (λ r. r.1)
              (respond_missing o.offer_id again _ (ap (Map.get o.offer_id) kept ∙ spent b)),
        ))

  -- A shown offer that is never answered is declined when the wait runs out and leaves nothing
  -- behind: it is no longer pending, and an answer after that finds no offer.
  pub silence_declines :
      (late : Bool)
      → let s' = run w s (arrives conn remote via bytes ∷ times_out conn ∷ finishes conn ∷ []) in
        Answered o.offer_id conn (offer_decline o.offer_id) s'
        × (Map.get o.offer_id s'.ctx.verdict_waiters ≡ none)
        × ((respond_offer o.offer_id late s'.ctx).1 ≡ err (not_found o.offer_id))
  unfolding run
  silence_declines late =
      let (said, offers, waiters) = silence_replied w o.offer_id conn shown shown-Parked in
      rw (shown_after) (
        said,
        ap (Map.get o.offer_id) waiters ∙ get-remove_self o.offer_id shown.ctx.verdict_waiters,
        ap (λ r. r.1)
            (respond_missing o.offer_id late _ (
              ap (Map.get o.offer_id) offers
              ∙ get-remove_self o.offer_id shown.ctx.incoming_offers)),
      )

  timed_out : Session
  timed_out = record shown { tasks = Map.insert conn (decided o.offer_id none) shown.tasks }

  times_out_lem : step w shown (times_out conn) ≡ timed_out
  unfolding step time_out_at time_out timed_out
  times_out_lem = rw (shown-Parked.task, time_out_at) (rw (shown-Parked.queue, time_out) refl)

  pub declined_at_end :
      (k : Text) (at : ℕ) (t : Session)
      → Map.get at t.tasks ≡ some (decided k none)
      → Answered k at (offer_decline k) (step w t (finishes at))
  unfolding step finish_at finish
  declined_at_end k at t e =
      rw (e, finish_at) (get-insert_self at (replied k (offer_decline k)) t.tasks)

  -- An answer given between the end of the wait and the clean-up is lost: the user is told that it
  -- was delivered, and the sender reads a decline whatever the answer was.
  pub late_answer_lost :
      (b : Bool)
      → let late = run w s (arrives conn remote via bytes ∷ times_out conn ∷ []) in
        ((respond_offer o.offer_id b late.ctx).1 ≡ ok)
        × Answered o.offer_id conn
            (offer_decline o.offer_id)
            (run w late (responds o.offer_id b ∷ finishes conn ∷ []))
  unfolding run timed_out shown
  late_answer_lost b = rw (shown_after) (
      rw (times_out_lem) (
        ap (λ r. r.1) (respond_shown b),
        declined_at_end o.offer_id conn _ (get-insert_self conn _ shown.tasks),
      ))
