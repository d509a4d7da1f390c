-- ===== src/Offering/Answer.antt =====
-- The two ends of an offer together: the task of core/src/offer.rs that waits for the answer, and
-- the handler of core/src/control.rs that gives it. What the sender reads is the text of the frame
-- with which the receiver's handler ends; it reads nothing in time while the handler still waits.
use dropwire.Prelude.{
  ℕ, ◌≡◌, refl, Bool, true, Option, none, some, List, if◌then◌else◌, ap, sym, ◌∙◌, any, nat_eq,
  text_eq, Text,
}
use dropwire.Prelude.Map
use dropwire.Consent.{Frame, offer, offer_accept, offer_decline, Wire}
use dropwire.Consent.Session.{Task, replied, Event, Session, run, start}
use dropwire.Consent.Session.Safety.{accepts, accept_needs_user}
use dropwire.Consent.Session.Held.{is_accept}
use dropwire.Offering.{
  OfferUpdate, accepted, declined, Delivery, Reading, connected, answered, timed_out, verdict_of,
  read_answer, deliver_offer, first_error, dial_error, update_of,
}

-- A connection on which nothing fails, as far as the receiver's handler has come.
pub reading_of : (Frame → Text) → Option Task → Reading
reading_of encode (some (replied offer_id answer)) = answered (encode answer)
reading_of encode _ = timed_out

abbrev pub over : Reading → Delivery
over r = record {
  dial = connected;
  opening = none;
  encoding = none;
  writing = none;
  finishing = none;
  reading = r;
}

accepts_frame : (f : Frame) → update_of (verdict_of (some f)) ≡ accepted → is_accept f ≡ true
unfolding verdict_of update_of
accepts_frame (offer_accept k) u = refl
accepts_frame (offer_decline k) u = absurd (cc u)
accepts_frame (offer o) u = absurd (cc u)
accepts_frame Frame.hello u = absurd (cc u)
accepts_frame Frame.ack u = absurd (cc u)
accepts_frame Frame.decline u = absurd (cc u)
accepts_frame (Frame.chat text) u = absurd (cc u)

module _ (w : Wire) (encode : Frame → Text)
    (round_trip : (f : Frame) → w.parse_frame (encode f) ≡ some f) where
  -- What the sender makes of a frame.
  delivered :
      (f : Frame) → deliver_offer w.parse_frame (over (answered (encode f))) ≡ verdict_of (some f)
  unfolding deliver_offer first_error dial_error read_answer
  delivered f = ap verdict_of (round_trip f)

  -- Whatever the receiver's handler does, and over any interleaving of its connections, timeouts,
  -- answers and switches from a fresh start: when the sender's end of the offer `a` reads an
  -- acceptance from that handler, the receiving user has accepted the offer `a`.
  pub accepted_needs_user :
      (on : Bool) (es : List Event) (conn : ℕ) (a : Text) (f : Frame)
      → Map.get conn (run w (start on) es).tasks ≡ some (replied a f)
      → update_of (
          deliver_offer w.parse_frame
            (over (reading_of encode (Map.get conn (run w (start on) es).tasks))))
        ≡ accepted
      → any (accepts a) es ≡ true
  unfolding reading_of
  accepted_needs_user on es conn a f t u = accept_needs_user a w on es conn f t (
      accepts_frame f (
        ap update_of (sym (delivered f))
        ∙ sym (ap (λ o. update_of (deliver_offer w.parse_frame (over (reading_of encode o)))) t)
        ∙ u))

  -- What the sender is told of an answer.
  abbrev told : Bool → OfferUpdate
  told accept = if accept then accepted else declined
