-- ===== src/Consent/Session/Held.antt =====
-- Who holds an accept: the invariant of core/src/control.rs and core/src/offer.rs behind the
-- safety of consent, and how the operations on the shared state keep it.
use dropwire.Prelude.{
  ℕ, ◌≡◌, refl, subst, inl, inr, Bool, true, false, Option, none, some, List, [], ◌∷◌, ◌++◌, arith,
  ◌==◌, nat_eq, text_eq, nat_beq_iff, text_beq_iff, Text, All, All-append, Bool-cases, Option-cases,
}
use dropwire.Prelude.Map
use dropwire.Prelude.Map.{HashMap, get-insert, get-remove}
use dropwire.Consent.{
  ConsentCtx, Frame, offer, offer_accept, offer_decline, add_verdict_waiter, expire_offer,
  resolve_verdict, deliver_to, push_frame, route_other, respond_offer, answer_offer, verdict_frame,
}
use dropwire.Consent.Session.{Task, parked, decided, replied, accept}

abbrev pub is_accept : Frame → Bool
is_accept (offer_accept offer_id) = true
is_accept _ = false

-- The offer that a connection's handler works for.
abbrev pub owner : Option Task → Option Text
owner (some (parked k)) = some k
owner (some (decided k v)) = some k
owner (some (replied k f)) = some k
owner _ = none

-- No accept for the offer `a` in what a handler holds.
abbrev pub Clean : Text → Option Task → Type 0
Clean a (some (decided k (some f))) = k ≡ a → is_accept f ≡ false
Clean a (some (replied k f)) = k ≡ a → is_accept f ≡ false
Clean a _ = Unit {0}

-- Nobody has accepted the offer `a`: no accept for it waits in a channel or is held by a handler.
pub record Inv (a : Text) (ctx : ConsentCtx) (tasks : HashMap ℕ Task) : Type 0 where
  pub owned :
      (k : Text) (tx : ℕ)
      → Map.get k ctx.verdict_waiters ≡ some tx
      → owner (Map.get tx tasks) ≡ some k
  pub inbox :
      (tx : ℕ) (q : List Frame)
      → Map.get tx ctx.inboxes ≡ some q
      → owner (Map.get tx tasks) ≡ some a
      → All (λ f. is_accept f ≡ false) q
  pub held : (tx : ℕ) → Clean a (Map.get tx tasks)

module _ (a : Text) (tasks : HashMap ℕ Task) where
  push_frame-Inv :
      (tx : ℕ) (f : Frame) (o : Option (List Frame)) (ctx : ConsentCtx)
      → Map.get tx ctx.inboxes ≡ o
      → (owner (Map.get tx tasks) ≡ some a → is_accept f ≡ false)
      → Inv a ctx tasks
      → Inv a (push_frame tx f o ctx).0 tasks
  unfolding push_frame
  push_frame-Inv tx f none ctx e g v = v
  push_frame-Inv tx f (some queue) ctx e g v = record {
    owned = v.owned;
    inbox = λ t q h o. elim (Bool-cases (tx == t)) [
      | inl same ↦
          let t' : tx ≡ t = (nat_beq_iff tx t).0 same in
          let q' : queue ++ (f ∷ []) ≡ q =
            ground (arith, get-insert tx t (queue ++ (f ∷ [])) ctx.inboxes) in
          let o' : owner (Map.get tx tasks) ≡ some a = rw t' o in
          subst (All (λ f. is_accept f ≡ false)) q'
            (All-append _ queue (f ∷ []) (v.inbox tx queue e o') (g o', tt))
      | inr differs ↦
          v.inbox t q (ground (arith, get-insert tx t (queue ++ (f ∷ [])) ctx.inboxes)) o
    ];
    held = v.held;
  }

  drop_waiter-Inv :
      (k : Text) (ctx : ConsentCtx)
      → Inv a ctx tasks
      → Inv a (record ctx { verdict_waiters = Map.remove k ctx.verdict_waiters }) tasks
  drop_waiter-Inv k ctx v = record {
    owned = λ j tx h. ground (arith, get-remove k j ctx.verdict_waiters, v.owned j tx);
    inbox = v.inbox;
    held = v.held;
  }

  deliver_to-Inv :
      (o : Option ℕ) (k : Text) (f : Frame) (ctx : ConsentCtx)
      → ((tx : ℕ) → o ≡ some tx → owner (Map.get tx tasks) ≡ some k)
      → (k ≡ a → is_accept f ≡ false)
      → Inv a ctx tasks
      → Inv a (deliver_to o f ctx).0 tasks
  unfolding deliver_to
  deliver_to-Inv none k f ctx own g v = v
  deliver_to-Inv (some tx) k f ctx own g v =
      push_frame-Inv tx f _ ctx refl (λ e. g (ground (arith, own tx refl, e))) v

  pub resolve_verdict-Inv :
      (k : Text) (f : Frame) (ctx : ConsentCtx)
      → (k ≡ a → is_accept f ≡ false)
      → Inv a ctx tasks
      → Inv a (resolve_verdict k f ctx).0 tasks
  unfolding resolve_verdict
  resolve_verdict-Inv k f ctx g v = deliver_to-Inv _ k f _ (v.owned k) g (drop_waiter-Inv k ctx v)

  -- A change that leaves the channels and the waiters alone.
  pub same-Inv :
      (c d : ConsentCtx)
      → c.verdict_waiters ≡ d.verdict_waiters
      → c.inboxes ≡ d.inboxes
      → Inv a c tasks
      → Inv a d tasks
  same-Inv c d e f v = record {
    owned = λ k tx h. v.owned k tx (rw e h);
    inbox = λ tx q h. v.inbox tx q (rw f h);
    held = v.held;
  }

  pub expire_offer-Inv :
      (k : Text) (ctx : ConsentCtx) → Inv a ctx tasks → Inv a (expire_offer k ctx) tasks
  unfolding expire_offer
  expire_offer-Inv k ctx v = same-Inv _ _ refl refl (drop_waiter-Inv k ctx v)

  pub route_other-Inv :
      (f : Frame) (ctx : ConsentCtx) → Inv a ctx tasks → Inv a (route_other f ctx) tasks
  unfolding route_other
  route_other-Inv Frame.hello ctx v = same-Inv _ _ refl refl v
  route_other-Inv Frame.ack ctx v = same-Inv _ _ refl refl v
  route_other-Inv Frame.decline ctx v = same-Inv _ _ refl refl v
  route_other-Inv (Frame.chat text) ctx v = same-Inv _ _ refl refl v
  route_other-Inv (offer o) ctx v = v
  route_other-Inv (offer_accept k) ctx v = v
  route_other-Inv (offer_decline k) ctx v = v

  pub respond_offer-Inv :
      (k : Text) (accept : Bool) (ctx : ConsentCtx)
      → (k ≡ a → accept ≡ false)
      → Inv a ctx tasks
      → Inv a (respond_offer k accept ctx).0 tasks
  unfolding respond_offer answer_offer
  respond_offer-Inv k accept ctx g v = elim (Option-cases (Map.get k ctx.incoming_offers)) [
    | inl e ↦ rw (e, respond_offer) v
    | inr (o, e) ↦
        rw (e, respond_offer)
          (same-Inv _ _ refl refl
            (resolve_verdict-Inv k (verdict_frame k accept) ctx (λ s. ground (arith, g s)) v))
  ]

-- A handler that keeps its offer and holds no accept for `a`.
pub move-Inv :
    (a : Text) (conn : ℕ) (t : Task) (ctx : ConsentCtx) (tasks : HashMap ℕ Task)
    → owner (some t) ≡ owner (Map.get conn tasks)
    → Clean a (some t)
    → Inv a ctx tasks
    → Inv a ctx (Map.insert conn t tasks)
move-Inv a conn t ctx tasks e c v = record {
  owned = λ k tx h. ground (arith, get-insert conn tx t tasks, nat_beq_iff conn tx, v.owned k tx h);
  inbox =
      λ tx q h o. v.inbox tx q h (ground (arith, get-insert conn tx t tasks, nat_beq_iff conn tx));
  held = λ tx. elim (Bool-cases (conn == tx)) [
    | inl same ↦ rw (get-insert conn tx t tasks, same) c
    | inr differs ↦ rw (get-insert conn tx t tasks, differs) (v.held tx)
  ];
}

pub drop_channel-Inv :
    (a : Text) (conn : ℕ) (ctx : ConsentCtx) (tasks : HashMap ℕ Task)
    → Inv a ctx tasks
    → Inv a (record ctx { inboxes = Map.remove conn ctx.inboxes }) tasks
drop_channel-Inv a conn ctx tasks v = record {
  owned = v.owned;
  inbox = λ tx q h o. v.inbox tx q (ground (arith, get-remove conn tx ctx.inboxes)) o;
  held = v.held;
}

-- A connection seen for the first time, parked on an empty channel under its offer's id.
pub park-Inv :
    (a k : Text) (conn : ℕ) (ctx : ConsentCtx) (tasks : HashMap ℕ Task)
    → Map.get conn tasks ≡ none
    → Inv a ctx tasks
    → Inv a
        (add_verdict_waiter k conn (record ctx { inboxes = Map.insert conn [] ctx.inboxes }))
        (Map.insert conn (parked k) tasks)
unfolding add_verdict_waiter
park-Inv a k conn ctx tasks new v = record {
  owned = λ j tx h. ground (
    arith,
    get-insert k j conn ctx.verdict_waiters,
    get-insert conn tx (parked k) tasks,
    text_beq_iff k j,
    nat_beq_iff conn tx,
    v.owned j tx,
  );
  inbox = λ tx q h o. elim (Bool-cases (conn == tx)) [
    | inl same ↦
        let q' : [] ≡ q = ground (arith, get-insert conn tx [] ctx.inboxes) in
        subst (All (λ f. is_accept f ≡ false)) q' tt
    | inr differs ↦
        v.inbox tx q (ground (arith, get-insert conn tx [] ctx.inboxes))
          (ground (arith, get-insert conn tx (parked k) tasks))
  ];
  held = λ tx. ground (arith, get-insert conn tx (parked k) tasks, v.held tx);
}
