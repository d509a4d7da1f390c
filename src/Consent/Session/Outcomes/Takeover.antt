-- ===== src/Consent/Session/Outcomes/Takeover.antt =====
-- Two connections that bring an offer under one id (core/src/control.rs and core/src/offer.rs): the
-- second waiter replaces the first.
use dropwire.Prelude.{
  ℕ, ◌≡◌, ◌≢◌, Bool, true, Option, none, some, nat_eq, text_eq, nat_beq_iff, Text, EndpointId,
  arith, ◌∙◌,
}
use dropwire.Prelude.Map
use dropwire.Prelude.Map.{get-insert}
use dropwire.Consent.{Offer, EndpointReplyTransport, Wire, offer}
use dropwire.Consent.Session.{Session, parked}
use dropwire.Consent.Session.Answers.{surfaced, arrival}
use dropwire.Consent.Session.Outcomes.{shown, answered}

module _ (w : Wire) (s : Session) (conn second : ℕ) (remote other : EndpointId)
    (via via' : Option EndpointReplyTransport) (bytes bytes' : Text) (o o' : Offer)
    (new : Map.get conn s.tasks ≡ none) (new' : Map.get second s.tasks ≡ none)
    (parsed : w.parse_frame bytes ≡ some (offer o))
    (parsed' : w.parse_frame bytes' ≡ some (offer o')) (on : s.ctx.nearby_running ≡ true)
    (ticket ticket' : Text) (valid : w.parse_ticket o.ticket ≡ some ticket)
    (valid' : w.parse_ticket o'.ticket ≡ some ticket') where
  first : Session
  first = shown w s conn remote via bytes o new parsed on ticket valid

  new_second : second ≢ conn → Map.get second first.tasks ≡ none
  unfolding first shown surfaced arrival
  new_second differs =
      get-insert conn second (parked o.offer_id) s.tasks
      ∙ ground (arith, nat_beq_iff conn second, new')

  first-on : first.ctx.nearby_running ≡ true
  unfolding first shown surfaced arrival
  first-on = on

  -- Both offers shown, and then the answer of the user.
  both_shown : second ≢ conn → Session
  both_shown differs =
      shown w first second other via' bytes' o' (new_second differs) parsed' first-on ticket' valid'

  said : second ≢ conn → Bool → Session
  said differs =
      answered w first second other via' bytes' o' (new_second differs) parsed' first-on ticket'
        valid'
