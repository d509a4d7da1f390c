-- ===== src/Offering/Reserved.antt =====
-- What an offer of core/src/offer.rs does to the one-to-one gate of core/src/send.rs.
use dropwire.Prelude.{
  ◌≡◌, ◌≢◌, refl, true, false, Option, none, some, List, [], if_both, ◌==◌, ==_refl, nat_eq,
  text_eq, nat_beq_iff, text_beq_iff, Text, EndpointId, arith, ap, ◌∙◌, subst, All, inl, inr, ◌⊎◌,
}
use dropwire.Prelude.Map
use dropwire.Prelude.Map.{get-insert, get-insert_self, get-remove_self}
use dropwire.Catalog.{Catalog, TransferRecord}
use dropwire.Gate.{ProviderMessage, consume_provider_events}
use dropwire.Gate.OneToOne.{IsServed, fetchers, fetchers_bound, consume-kept}
use dropwire.Endpoint.{CoreError}
use dropwire.Offering.{
  OfferUpdate, accepted, failed, declined, waiting, Begun, Dialing, reserve, begun, dialed,
  with_record, with_peer, offer_nearby_dial, release, names_peer, settle,
}
use dropwire.Transfers.{Engine, cancel, cancel_at}

-- An offer that began has bound its content to the peer.
Reserves : CoreError ⊎ Begun → Engine → Type 0
Reserves (inl e) g = Unit
Reserves (inr b) g = Map.get b.hash_key g.gate.bound ≡ some b.peer

reserve-bound : (b : Begun) (g : Engine) → Map.get b.hash_key (reserve b g).gate.bound ≡ some b.peer
unfolding reserve
reserve-bound b g = get-insert_self b.hash_key b.peer g.gate.bound

with_record-Reserves :
    (d : Dialing) (peer : EndpointId) (r : Option TransferRecord) (g : Engine)
    → let (b, g') = with_record d peer r g in Reserves b g'
unfolding with_record Reserves
with_record-Reserves d peer none g = tt
with_record-Reserves d peer (some r) g =
    if_both {A = (CoreError ⊎ Begun) × Engine} (λ b. Reserves b.0 b.1) (r.ticket == []) tt
      (reserve-bound (begun d.fresh_id d.nearby.state.device_name peer (dialed d peer) r) g)

with_peer-Reserves :
    (d : Dialing) (p : Option EndpointId) (cat : Catalog) (g : Engine)
    → let (b, g') = with_peer d p cat g in Reserves b g'
unfolding with_peer Reserves
with_peer-Reserves d none cat g = tt
with_peer-Reserves d (some peer) cat g = with_record-Reserves d peer _ g

offered-bound :
    (d : Dialing) (cat : Catalog) (g g' : Engine) (b : Begun)
    → offer_nearby_dial d cat g ≡ (inr b, g')
    → Map.get b.hash_key g'.gate.bound ≡ some b.peer
unfolding offer_nearby_dial Reserves
offered-bound d cat g g' b began =
    subst (λ r. Reserves r.0 r.1) began (with_peer-Reserves d d.parsed cat g)

-- From the moment an offer of a served content is under way, no device but the one offered to is let
-- through to that content: whatever requests come before the offer is accepted, and whatever come
-- after it is, while the send goes on serving, every device with a known identity that fetches the
-- content is that one.
pub offer_nearby_dial-reserves :
    (d : Dialing) (cat : Catalog) (g g' : Engine) (b : Begun) (pending ms : List ProviderMessage)
    → offer_nearby_dial d cat g ≡ (inr b, g')
    → IsServed b.hash_key g'.gate
    → let asked = record g' { gate = (consume_provider_events g'.gate pending).0 } in
      All (λ x. x ≡ b.peer) (fetchers g'.gate b.hash_key pending)
      × All (λ x. x ≡ b.peer) (fetchers (settle b accepted asked).gate b.hash_key ms)
unfolding settle
offer_nearby_dial-reserves d cat g g' b pending ms began served =
    let bound = offered-bound d cat g g' b began in
    let (served', bound') = consume-kept g'.gate pending b.hash_key b.peer served bound in
    (
      fetchers_bound g'.gate pending b.hash_key b.peer served bound,
      fetchers_bound (consume_provider_events g'.gate pending).0 ms b.hash_key b.peer served'
          bound',
    )

-- A binding that another device holds outlives every end of the offer, and so does the send.
pub settle_other :
    (b : Begun) (u : OfferUpdate) (g : Engine) (holder : EndpointId)
    → Map.get b.hash_key g.gate.bound ≡ some holder
    → holder ≢ b.peer
    → settle b u g ≡ g
unfolding settle release
settle_other b waiting g holder e d = refl
settle_other b accepted g holder e d = refl
settle_other b declined g holder e d = ground (arith, e, nat_beq_iff holder b.peer)
settle_other b (failed reason) g holder e d = ground (arith, e, nat_beq_iff holder b.peer)

pub release_all :
    (b : Begun) (g : Engine)
    → Map.get b.transfer_id g.active ≡ some false
    → let g' = release b true g in
      (Map.get b.hash_key g'.gate.bound ≡ none) × (Map.get b.transfer_id g'.active ≡ some true)
unfolding release cancel
release_all b g t =
    rw (t, cancel_at)
      (get-remove_self b.hash_key g.gate.bound, get-insert_self b.transfer_id true g.active)

pub owned_declined :
    (b : Begun) (g : Engine)
    → Map.get b.hash_key g.gate.bound ≡ some b.peer
    → settle b declined g ≡ release b true g
unfolding settle
owned_declined b g e =
    ap (λ o. release b (names_peer b.peer o) g) e ∙ ap (λ y. release b y g) (==_refl b.peer)

owned :
    (b : Begun) (reason : Text) (g : Engine)
    → Map.get b.hash_key g.gate.bound ≡ some b.peer
    → settle b (failed reason) g ≡ release b true g
unfolding settle
owned b reason g e =
    ap (λ o. release b (names_peer b.peer o) g) e ∙ ap (λ y. release b y g) (==_refl b.peer)

rebound :
    (first second : Begun) (g : Engine)
    → second.hash_key ≡ first.hash_key
    → second.peer ≡ first.peer
    → Map.get first.hash_key (reserve second g).gate.bound ≡ some first.peer
unfolding reserve
rebound first second g h p =
    get-insert second.hash_key first.hash_key second.peer g.gate.bound
    ∙ ground (arith, h, p, text_beq_iff second.hash_key first.hash_key)

-- Two offers of one send to one device: when the first ends without an answer after the second was
-- accepted, it takes the binding of the second away and cancels the send that the device is fetching.
pub settle_stale :
    (first second : Begun) (g : Engine) (reason : Text)
    → second.hash_key ≡ first.hash_key
    → second.peer ≡ first.peer
    → Map.get first.transfer_id g.active ≡ some false
    → let g' =
        settle first (failed reason) (settle second accepted (reserve second (reserve first g))) in
      (Map.get first.hash_key g'.gate.bound ≡ none)
      × (Map.get first.transfer_id g'.active ≡ some true)
unfolding settle
settle_stale first second g reason h p t =
    let offered = reserve second (reserve first g) in
    rw (owned first reason offered (rebound first second (reserve first g) h p))
      (release_all first offered (unfold reserve in t))
