-- ===== src/Discover/Peers.antt =====
-- The fold of mDNS events into a table of peers, `apply_event` of core/src/discover.rs.
use dropwire.Prelude.{
  ℕ, ◌≡◌, refl, Bool, false, Option, none, some, List, [], ◌∷◌, contains, if◌then◌else◌, ◌==◌,
  ==_refl, ◌++◌, text_eq, text_beq_iff, Text, arith, ap, ◌∙◌, inl, inr, Bool-cases,
}
use dropwire.Prelude.Map
use dropwire.Prelude.Map.{get-insert, get-remove}
use dropwire.Discover.{
  PeerEntry, PeerTable, ServiceInfo, ServiceEvent, service_resolved, service_removed, Outside,
  txt_eid, entry_of, resolve, remove_all, gone, apply_event,
}

-- Each key stands in one slot only.
pub HasOneSlotEach : PeerTable → Type 0
HasOneSlotEach [] = Unit
HasOneSlotEach ((k, e) ∷ rest) = (Map.get k rest ≡ none) × HasOneSlotEach rest

insert-HasOneSlotEach :
    (k : Text) (e : PeerEntry) (m : PeerTable)
    → HasOneSlotEach m
    → HasOneSlotEach (Map.insert k e m)
unfolding HasOneSlotEach Map.insert Map.get
insert-HasOneSlotEach k e [] h = (refl, tt)
insert-HasOneSlotEach k e ((j, d) ∷ m) h = elim (Bool-cases (j == k)) [
  | inl same ↦ rw same ((ground (arith, text_beq_iff j k)), h.1)
  | inr other ↦ rw other (
    (ground (arith, text_beq_iff j k, text_beq_iff k j, get-insert k j e m)),
    insert-HasOneSlotEach k e m h.1,
  )
]

remove-HasOneSlotEach :
    (k : Text) (m : PeerTable) → HasOneSlotEach m → HasOneSlotEach (Map.remove k m)
unfolding HasOneSlotEach Map.remove Map.get
remove-HasOneSlotEach k [] h = tt
remove-HasOneSlotEach k ((j, d) ∷ m) h = elim (Bool-cases (j == k)) [
  | inl same ↦ rw same (remove-HasOneSlotEach k m h.1)
  | inr other ↦ rw other (ground (arith, get-remove k j m), remove-HasOneSlotEach k m h.1)
]

remove_all-HasOneSlotEach :
    (ks : List Text) (m : PeerTable) → HasOneSlotEach m → HasOneSlotEach (remove_all ks m)
unfolding remove_all
remove_all-HasOneSlotEach [] m h = h
remove_all-HasOneSlotEach (k ∷ ks) m h =
    remove_all-HasOneSlotEach ks (Map.remove k m) (remove-HasOneSlotEach k m h)

get-remove_all :
    (ks : List Text) (k : Text) (m : PeerTable)
    → Map.get k (remove_all ks m) ≡ (if contains ks k then none else Map.get k m)
unfolding remove_all
get-remove_all [] k m = refl
get-remove_all (j ∷ ks) k m = ground (arith, get-remove_all ks k (Map.remove j m), get-remove j k m)

-- Whether the entry found under a key was resolved from this instance.
abbrev pub is_from : Text → Option PeerEntry → Bool
is_from full_name none = false
is_from full_name (some e) = e.instance_name == full_name

contains-gone :
    (full_name k : Text) (m : PeerTable)
    → HasOneSlotEach m
    → contains (gone full_name m) k ≡ is_from full_name (Map.get k m)
unfolding gone HasOneSlotEach Map.get
contains-gone full_name k [] h = refl
contains-gone full_name k ((j, e) ∷ m) h =
    ground (arith, contains-gone full_name k m h.1, text_beq_iff j k)

module _ (out : Outside) (now : ℕ) where
  resolve-HasOneSlotEach :
      (info : ServiceInfo) (eid : Option Text) (m : PeerTable)
      → HasOneSlotEach m
      → HasOneSlotEach (resolve out now info eid m)
  unfolding resolve
  resolve-HasOneSlotEach info none m h = h
  resolve-HasOneSlotEach info (some k) m h = insert-HasOneSlotEach k (entry_of out now info k) m h

  pub apply_event-HasOneSlotEach :
      (event : ServiceEvent) (m : PeerTable)
      → HasOneSlotEach m
      → HasOneSlotEach (apply_event out now event m)
  unfolding apply_event
  apply_event-HasOneSlotEach (service_resolved info) m h =
      resolve-HasOneSlotEach info (Map.get txt_eid info.properties) m h
  apply_event-HasOneSlotEach (service_removed ty full_name) m h =
      remove_all-HasOneSlotEach (gone full_name m) m h
  apply_event-HasOneSlotEach ServiceEvent.other m h = h

  -- In a table with one slot for each key, the removal of an instance takes out the peers that
  -- were resolved from exactly that instance, and leaves every other peer as it was.
  pub get-removed :
      (ty full_name k : Text) (m : PeerTable)
      → HasOneSlotEach m
      → Map.get k (apply_event out now (service_removed ty full_name) m)
        ≡ (if is_from full_name (Map.get k m) then none else Map.get k m)
  unfolding apply_event
  get-removed ty full_name k m h =
      get-remove_all (gone full_name m) k m
      ∙ ap (λ b. if b then none else Map.get k m) (contains-gone full_name k m h)

-- One peer on its own: what each event makes of its entry.
pub announced : Text → ServiceInfo → Option Text → Bool
announced k info none = false
announced k info (some eid) = eid == k

module _ (out : Outside) where
  pub peer_step : Text → ℕ → ServiceEvent → Option PeerEntry → Option PeerEntry
  unfolding announced
  peer_step k now (service_resolved info) p =
      if announced k info (Map.get txt_eid info.properties)
      then some (entry_of out now info k)
      else p
  peer_step k now (service_removed ty full_name) p = if is_from full_name p then none else p
  peer_step k now ServiceEvent.other p = p

  get-resolve :
      (now : ℕ) (info : ServiceInfo) (eid : Option Text) (k : Text) (m : PeerTable)
      → Map.get k (resolve out now info eid m)
        ≡ (if announced k info eid then some (entry_of out now info k) else Map.get k m)
  unfolding resolve announced
  get-resolve now info none k m = refl
  get-resolve now info (some eid) k m =
      ground (arith, get-insert eid k (entry_of out now info eid) m, text_beq_iff eid k)

  get-apply_event :
      (k : Text) (now : ℕ) (event : ServiceEvent) (m : PeerTable)
      → HasOneSlotEach m
      → Map.get k (apply_event out now event m) ≡ peer_step k now event (Map.get k m)
  unfolding apply_event peer_step
  get-apply_event k now (service_resolved info) m h =
      get-resolve now info (Map.get txt_eid info.properties) k m
  get-apply_event k now (service_removed ty full_name) m h =
      unfold apply_event in (get-removed out now ty full_name k m h)
  get-apply_event k now ServiceEvent.other m h = refl

  -- The events of a session, each with the second at which it is folded in.
  unfoldable pub fold_events : List (ℕ × ServiceEvent) → PeerTable → PeerTable
  fold_events [] m = m
  fold_events ((now, event) ∷ es) m = fold_events es (apply_event out now event m)

  pub peer_after : Text → List (ℕ × ServiceEvent) → Option PeerEntry → Option PeerEntry
  unfolding peer_step
  peer_after k [] p = p
  peer_after k ((now, event) ∷ es) p = peer_after k es (peer_step k now event p)

  get-fold_from :
      (k : Text) (es : List (ℕ × ServiceEvent)) (m : PeerTable)
      → HasOneSlotEach m
      → Map.get k (fold_events es m) ≡ peer_after k es (Map.get k m)
  unfolding fold_events peer_after
  get-fold_from k [] m h = refl
  get-fold_from k ((now, event) ∷ es) m h =
      get-fold_from k es (apply_event out now event m)
        (apply_event-HasOneSlotEach out now event m h)
      ∙ ap (peer_after k es) (get-apply_event k now event m h)

  -- Whatever events a session folds into its empty table, a peer is found there exactly as the
  -- events about it alone leave it: announced with its endpoint id, and not since removed under
  -- the instance of its latest announcement. Events about other peers do not matter.
  pub get-fold_events :
      (k : Text) (es : List (ℕ × ServiceEvent))
      → Map.get k (fold_events es []) ≡ peer_after k es none
  unfolding HasOneSlotEach Map.get
  get-fold_events k es = get-fold_from k es [] tt

  peer_after-append :
      (k : Text) (es fs : List (ℕ × ServiceEvent)) (p : Option PeerEntry)
      → peer_after k (es ++ fs) p ≡ peer_after k fs (peer_after k es p)
  unfolding peer_after
  peer_after-append k [] fs p = refl
  peer_after-append k ((now, event) ∷ es) fs p = peer_after-append k es fs (peer_step k now event p)

  claimed_removed :
      (k ty : Text) (now later : ℕ) (info : ServiceInfo) (p : Option PeerEntry)
      → Map.get txt_eid info.properties ≡ some k
      → peer_step k later
          (service_removed ty info.fullname)
          (peer_step k now (service_resolved info) p)
        ≡ none
  unfolding peer_step announced entry_of
  claimed_removed k ty now later info p claims = rw (claims, ==_refl k, ==_refl info.fullname) refl

  -- An announcement that claims the endpoint id of a peer, followed by the removal of the instance
  -- that made the claim, takes that peer out of the table, whichever instance it had before.
  pub spoofed_removal :
      (k ty : Text) (now later : ℕ) (info : ServiceInfo) (before : List (ℕ × ServiceEvent))
      → Map.get txt_eid info.properties ≡ some k
      → Map.get k (
          fold_events
            (before
              ++ ((now, service_resolved info) ∷ (later, service_removed ty info.fullname) ∷ []))
            [])
        ≡ none
  unfolding peer_after
  spoofed_removal k ty now later info before claims =
      get-fold_events k _
      ∙ peer_after-append k before _ none
      ∙ claimed_removed k ty now later info (peer_after k before none) claims
