-- ===== src/Consent/Session/Tests.antt =====
-- Offers of core/src/offer.rs and core/src/control.rs at concrete inputs, over a wire whose frames
-- are told apart by their first byte.
use dropwire.Prelude.{
  ◌≡◌, refl, true, false, none, some, List, [], ◌∷◌, code_points, nat_eq, any, inl,
}
use dropwire.Prelude.Map
use dropwire.Consent.{Offer, Wire, offer, offer_accept, offer_decline}
use dropwire.Consent.Session.{
  Event, arrives, receives, times_out, finishes, responds, run, start, replied,
}
use dropwire.Consent.Session.Safety.{accepts, accept_needs_user}
use dropwire.Consent.Session.Answers.{Answered, turned_away_declines}
use dropwire.Consent.Session.Outcomes.{answer_reaches_sender, silence_declines, late_answer_lost}

abbrev file_offer : Offer
file_offer = record {
  offer_id = code_points "o1";
  ticket = code_points "blob";
  device_name = code_points "laptop";
  title = code_points "a.txt";
  file_count = 1;
  total_bytes = 100;
}

-- Every text is the offer's frame, and every ticket parses.
abbrev wire : Wire
wire = record {
  parse_frame = λ bytes. some (offer file_offer);
  parse_ctrl = λ bytes. none;
  parse_ticket = λ t. some t;
  show_eid = λ e. e ∷ [];
  blake3 = λ t. [];
}

abbrev accepted_run : List Event
accepted_run =
    arrives 1 42 none [] ∷ responds (code_points "o1") true ∷ receives 1 ∷ finishes 1 ∷ []

answer_reaches_sender_example :
    Answered
      (code_points "o1")
      1
      (offer_accept (code_points "o1"))
      (run wire (start true) accepted_run)
unfolding start Map.get
answer_reaches_sender_example =
    (answer_reaches_sender wire (start true) 1 42 none [] file_offer refl refl refl
      (code_points "blob") refl true false).1

accepted :
    Map.get 1 (run wire (start true) accepted_run).tasks
    ≡ some (replied (code_points "o1") (offer_accept (code_points "o1")))
accepted = answer_reaches_sender_example

accept_needs_user_example : any (accepts (code_points "o1")) accepted_run ≡ true
accept_needs_user_example =
    accept_needs_user (code_points "o1") wire true accepted_run 1 (offer_accept (code_points "o1"))
      accepted refl

silence_declines_example :
    Answered
      (code_points "o1")
      1
      (offer_decline (code_points "o1"))
      (run wire (start true) (arrives 1 42 none [] ∷ times_out 1 ∷ finishes 1 ∷ []))
unfolding start Map.get
silence_declines_example =
    (silence_declines wire (start true) 1 42 none [] file_offer refl refl refl (code_points "blob")
      refl true).0

late_answer_lost_example : Answered (code_points "o1") 1 (offer_decline (code_points "o1")) (
    run wire
      (run wire (start true) (arrives 1 42 none [] ∷ times_out 1 ∷ []))
      (responds (code_points "o1") true ∷ finishes 1 ∷ []))
unfolding start Map.get
late_answer_lost_example =
    (late_answer_lost wire (start true) 1 42 none [] file_offer refl refl refl (code_points "blob")
      refl true).1

turned_away_declines_example :
    Answered
      (code_points "o1")
      1
      (offer_decline (code_points "o1"))
      (run wire (start false) (arrives 1 42 none [] ∷ receives 1 ∷ finishes 1 ∷ []))
unfolding start Map.get
turned_away_declines_example =
    (turned_away_declines wire (start false) 1 42 none [] file_offer refl refl (inl refl)).0
