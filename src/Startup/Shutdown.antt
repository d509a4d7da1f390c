-- ===== src/Startup/Shutdown.antt =====
-- What reaches an engine of core/src/lib.rs after its shutdown.
use dropwire.Prelude.{
  ℕ, ◌≡◌, refl, Bool, false, Option, none, some, [], ◌∷◌, inl, Text, EndpointId, nat_eq,
}
use dropwire.Prelude.Map
use dropwire.Consent.{EndpointReplyTransport, Wire, Offer, offer, offer_decline}
use dropwire.Consent.Session.{arrives, receives, finishes, run}
use dropwire.Consent.Session.Answers.{Answered, turned_away_declines}
use dropwire.Discover.Session.{is_running, stop}
use dropwire.Startup.{Inner, with_nearby, shutdown}

-- Once the engine is shut down, it is not advertised, and an offer that still comes in is declined at
-- once and not shown.
shutdown-declines :
    {SecretKey : Type 0} (is_up : Bool) (i : Inner SecretKey) (w : Wire) (conn : ℕ)
    (remote : EndpointId) (via : Option EndpointReplyTransport) (bytes : Text) (o : Offer)
    → w.parse_frame bytes ≡ some (offer o)
    → Map.get conn i.consent.tasks ≡ none
    → let i' = shutdown is_up i in
      let s' =
        run w i'.consent (arrives conn remote via bytes ∷ receives conn ∷ finishes conn ∷ []) in
      (is_running i'.nearby ≡ false)
      × Answered o.offer_id conn (offer_decline o.offer_id) s'
      × (s'.ctx.offer_tx ≡ i.consent.ctx.offer_tx)
unfolding shutdown with_nearby stop is_running
shutdown-declines is_up i w conn remote via bytes o parsed new =
    let (declined, pending, shown) =
      turned_away_declines w (shutdown is_up i).consent conn remote via bytes o new parsed
        (inl refl) in
    (refl, declined, shown)
