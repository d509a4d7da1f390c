-- ===== src/Offering/Chosen.antt =====
-- Which transfer `offer_nearby_dial` of core/src/offer.rs offers.
use mathlib.Core.List.{Mem}
use mathlib.Core.List.Perm
use dropwire.Prelude.{
  ◌≡◌, ◌≢◌, refl, true, Option, none, some, [], ◌==◌, text_eq, text_beq_iff, arith, subst,
  EndpointId, ◌⊎◌, inl, inr, find, leb, Bool-cases,
}
use dropwire.Prelude.Sort.{find-IsSorted}
use dropwire.Prelude.TreeMap.{values}
use dropwire.Catalog.{Catalog, TransferRecord, newer_first}
use dropwire.Catalog
use dropwire.Catalog.Listing.{list_newest_first}
use dropwire.Consent.{offer}
use dropwire.Endpoint.{CoreError}
use dropwire.Offering.{
  Begun, Dialing, is_offered, offer_of, begun, dialed, with_record, with_peer, offer_nearby_dial,
  Began,
}
use dropwire.Transfers.{Engine}

-- The offer `b` is one of the record `r`.
pub record Offers (d : Dialing) (b : Begun) (r : TransferRecord) : Type 0 where
  hash : b.hash_key ≡ r.hash
  id : b.transfer_id ≡ r.id
  ready : r.ticket ≢ []
  frame : b.frame ≡ offer (offer_of d.fresh_id d.nearby.state.device_name r)

-- The newest of the active sends of the catalog.
pub record IsNewest (cat : Catalog) (r : TransferRecord) : Type 0 where
  held : Mem r (values cat.entries)
  active : is_offered r ≡ true
  newest :
      (y : TransferRecord)
      → Mem y (values cat.entries)
      → is_offered y ≡ true
      → leb y.created_at r.created_at ≡ true

find-IsNewest :
    (cat : Catalog) (r : TransferRecord)
    → find is_offered (Catalog.list cat) ≡ some r
    → IsNewest cat r
find-IsNewest cat r e =
    let (same, sorted, _) = list_newest_first cat in
    let (m, active, newest) =
      find-IsSorted newer_first (λ x. ground arith) is_offered (Catalog.list cat) r sorted e in
    record {
      held = (Perm.mem_iff same).0 m;
      active = active;
      newest = λ y n. newest y ((Perm.mem_iff same).1 n);
    }

Chose : Dialing → Catalog → CoreError ⊎ Begun → Type 0
Chose d cat (inl e) = Unit
Chose d cat (inr b) = (r : TransferRecord) × IsNewest cat r × Offers d b r

begun-Offers :
    (d : Dialing) (peer : EndpointId) (r : TransferRecord)
    → r.ticket ≢ []
    → Offers d (begun d.fresh_id d.nearby.state.device_name peer (dialed d peer) r) r
unfolding begun
begun-Offers d peer r e = record { hash = refl; id = refl; ready = e; frame = refl }

with_record-Chose :
    (d : Dialing) (peer : EndpointId) (cat : Catalog) (o : Option TransferRecord) (g : Engine)
    → ((r : TransferRecord) → o ≡ some r → IsNewest cat r)
    → Chose d cat (with_record d peer o g).0
unfolding with_record Chose
with_record-Chose d peer cat none g newest = tt
with_record-Chose d peer cat (some r) g newest = elim (Bool-cases (r.ticket == [])) [
  | inl empty ↦ rw (empty) tt
  | inr full ↦
      rw (full)
        (r, newest r refl, begun-Offers d peer r (ground (arith, full, text_beq_iff r.ticket [])))
]

with_peer-Chose :
    (d : Dialing) (p : Option EndpointId) (cat : Catalog) (g : Engine)
    → Chose d cat (with_peer d p cat g).0
unfolding with_peer Chose
with_peer-Chose d none cat g = tt
with_peer-Chose d (some peer) cat g =
    with_record-Chose d peer cat (find is_offered (Catalog.list cat)) g (find-IsNewest cat)

-- What an offer that began offers is a send of the catalog that is active and has its ticket, and no
-- active send of the catalog is newer. The offer carries that record's name, ticket and totals, and
-- what the end of the offer releases and cancels is that transfer.
pub offer_nearby_dial-IsNewest :
    (d : Dialing) (cat : Catalog) (g g' : Engine) (b : Begun)
    → offer_nearby_dial d cat g ≡ (inr b, g')
    → (r : TransferRecord) × IsNewest cat r × Offers d b r
unfolding offer_nearby_dial Chose
offer_nearby_dial-IsNewest d cat g g' b began =
    subst (λ (r : Began). Chose d cat r.0) began (with_peer-Chose d d.parsed cat g)
