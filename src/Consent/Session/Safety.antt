-- ===== src/Consent/Session/Safety.antt =====
-- Consent is needed: no offer is answered by an accept that the user did not give. The code is
-- core/src/control.rs and core/src/offer.rs, over any interleaving of connections and answers.
use dropwire.Prelude.{
  ℕ, ◌≡◌, refl, subst, inl, inr, Bool, true, false, not, ◌&&◌, Option, none, some, List, [], ◌∷◌,
  arith, ◌==◌, nat_eq, text_eq, text_beq_iff, Text, any, if_both, Bool-cases, Option-cases,
  EndpointId,
}
use dropwire.Prelude.Map
use dropwire.Prelude.Map.{HashMap, get-insert, get-remove}
use dropwire.Consent.{
  ConsentCtx, Frame, Offer, EndpointReplyTransport, offer, offer_decline, Wire, route_offer,
  route_parsed, surface,
}
use dropwire.Consent.Session.Held.{
  is_accept, Clean, Inv, resolve_verdict-Inv, same-Inv, expire_offer-Inv, route_other-Inv,
  respond_offer-Inv, move-Inv, drop_channel-Inv, park-Inv,
}
use dropwire.Consent.Session.{
  Task, parked, decided, replied, echoed, Echo, Session, Event, arrives, receives, times_out,
  finishes, responds, switches, receive, receive_at, time_out, time_out_at, finish, finish_at,
  accept_ctrl, accept, accept_new, step, run, start,
}

-- The event that the user accepts the offer `a`.
abbrev pub accepts : Text → Event → Bool
accepts a (responds k accept) = accept && k == a
accepts a _ = false

module _ (a : Text) (w : Wire) where
  surface-Inv :
      (tasks : HashMap ℕ Task) (remote : EndpointId) (via : Option EndpointReplyTransport)
      (o : Offer) (t : Option Text) (ctx : ConsentCtx)
      → Inv a ctx tasks
      → Inv a (surface w remote via o t ctx) tasks
  unfolding surface
  surface-Inv tasks remote via o none ctx v =
      resolve_verdict-Inv a tasks o.offer_id (offer_decline o.offer_id) ctx (λ _. refl) v
  surface-Inv tasks remote via o (some ticket) ctx v = same-Inv a tasks _ _ refl refl v

  route_parsed-Inv :
      (tasks : HashMap ℕ Task) (remote : EndpointId) (via : Option EndpointReplyTransport)
      (f : Option Frame) (ctx : ConsentCtx)
      → Inv a ctx tasks
      → Inv a (route_parsed w remote via f ctx) tasks
  unfolding route_parsed
  route_parsed-Inv tasks remote via (some (offer o)) ctx v =
      if_both (λ c. Inv a c tasks) (not ctx.nearby_running)
        (resolve_verdict-Inv a tasks o.offer_id (offer_decline o.offer_id) ctx (λ _. refl) v)
        (surface-Inv tasks remote via o (w.parse_ticket o.ticket) ctx v)
  route_parsed-Inv tasks remote via none ctx v = v
  route_parsed-Inv tasks remote via (some f) ctx v = v

  -- The change of state by each event, under the invariant.
  abbrev InvAt : Session → Type 0
  InvAt s = Inv a s.ctx s.tasks

  echo-Inv :
      (conn : ℕ) (e : Echo) (ctx : ConsentCtx) (tasks : HashMap ℕ Task)
      → Map.get conn tasks ≡ none
      → Inv a ctx tasks
      → Inv a ctx (Map.insert conn (echoed e) tasks)
  echo-Inv conn e ctx tasks new v = move-Inv a conn (echoed e) ctx tasks (ground arith) tt v

  accept-Inv :
      (conn : ℕ) (remote : EndpointId) (via : Option EndpointReplyTransport) (bytes : Text)
      (f : Option Frame) (s : Session)
      → Map.get conn s.tasks ≡ none
      → InvAt s
      → InvAt (accept w conn remote via bytes f s)
  unfolding accept accept_ctrl route_offer
  accept-Inv conn remote via bytes (some (offer o)) s new v =
      route_parsed-Inv _ remote via (w.parse_frame bytes) _
        (park-Inv a o.offer_id conn s.ctx s.tasks new v)
  accept-Inv conn remote via bytes none s new v = elim (Option-cases (w.parse_ctrl bytes)) [
    | inl e ↦ rw (e, accept_ctrl) (echo-Inv conn _ s.ctx s.tasks new v)
    | inr (msg, e) ↦
        rw (e, accept_ctrl) (echo-Inv conn _ _ s.tasks new (same-Inv a s.tasks _ _ refl refl v))
  ]
  accept-Inv conn remote via bytes (some f) s new v =
      echo-Inv conn _ _ s.tasks new (route_other-Inv a s.tasks f s.ctx v)

  receive-Inv :
      (conn : ℕ) (k : Text) (q : Option (List Frame)) (s : Session)
      → Map.get conn s.tasks ≡ some (parked k)
      → Map.get conn s.ctx.inboxes ≡ q
      → InvAt s
      → InvAt (receive conn k q s)
  unfolding receive
  receive-Inv conn k (some (f ∷ q)) s t e v =
      move-Inv a conn (decided k (some f)) s.ctx s.tasks (ground arith)
        (λ h. (v.inbox conn (f ∷ q) e (ground arith)).0) v
  receive-Inv conn k (some []) s t e v =
      if_both InvAt _ v (move-Inv a conn (decided k none) s.ctx s.tasks (ground arith) tt v)
  receive-Inv conn k none s t e v =
      if_both InvAt _ v (move-Inv a conn (decided k none) s.ctx s.tasks (ground arith) tt v)

  time_out-Inv :
      (conn : ℕ) (k : Text) (q : Option (List Frame)) (s : Session)
      → Map.get conn s.tasks ≡ some (parked k)
      → Map.get conn s.ctx.inboxes ≡ q
      → InvAt s
      → InvAt (time_out conn k q s)
  unfolding time_out
  time_out-Inv conn k (some (f ∷ q)) s t e v =
      move-Inv a conn (decided k (some f)) s.ctx s.tasks (ground arith)
        (λ h. (v.inbox conn (f ∷ q) e (ground arith)).0) v
  time_out-Inv conn k (some []) s t e v =
      move-Inv a conn (decided k none) s.ctx s.tasks (ground arith) tt v
  time_out-Inv conn k none s t e v =
      move-Inv a conn (decided k none) s.ctx s.tasks (ground arith) tt v

  finish-Inv :
      (conn : ℕ) (k : Text) (verdict : Option Frame) (s : Session)
      → Map.get conn s.tasks ≡ some (decided k verdict)
      → InvAt s
      → InvAt (finish conn k verdict s)
  unfolding finish
  finish-Inv conn k none s t v = drop_channel-Inv a conn _ _ (
      move-Inv a conn (replied k (offer_decline k)) _ s.tasks (ground arith) (λ _. refl)
        (expire_offer-Inv a s.tasks k s.ctx v))
  finish-Inv conn k (some f) s t v = drop_channel-Inv a conn _ _ (
      move-Inv a conn (replied k f) s.ctx s.tasks (ground arith) (subst (Clean a) t (v.held conn))
        v)

  receive_at-Inv :
      (conn : ℕ) (t : Option Task) (s : Session)
      → Map.get conn s.tasks ≡ t
      → InvAt s
      → InvAt (receive_at conn t s)
  unfolding receive_at
  receive_at-Inv conn (some (parked k)) s t v = receive-Inv conn k _ s t refl v
  receive_at-Inv conn (some (decided k f)) s t v = v
  receive_at-Inv conn (some (replied k f)) s t v = v
  receive_at-Inv conn (some (echoed e)) s t v = v
  receive_at-Inv conn none s t v = v

  time_out_at-Inv :
      (conn : ℕ) (t : Option Task) (s : Session)
      → Map.get conn s.tasks ≡ t
      → InvAt s
      → InvAt (time_out_at conn t s)
  unfolding time_out_at
  time_out_at-Inv conn (some (parked k)) s t v = time_out-Inv conn k _ s t refl v
  time_out_at-Inv conn (some (decided k f)) s t v = v
  time_out_at-Inv conn (some (replied k f)) s t v = v
  time_out_at-Inv conn (some (echoed e)) s t v = v
  time_out_at-Inv conn none s t v = v

  finish_at-Inv :
      (conn : ℕ) (t : Option Task) (s : Session)
      → Map.get conn s.tasks ≡ t
      → InvAt s
      → InvAt (finish_at conn t s)
  unfolding finish_at
  finish_at-Inv conn (some (decided k f)) s t v = finish-Inv conn k f s t v
  finish_at-Inv conn (some (parked k)) s t v = v
  finish_at-Inv conn (some (replied k f)) s t v = v
  finish_at-Inv conn (some (echoed e)) s t v = v
  finish_at-Inv conn none s t v = v

  accept_new-Inv :
      (conn : ℕ) (remote : EndpointId) (via : Option EndpointReplyTransport) (bytes : Text)
      (t : Option Task) (s : Session)
      → Map.get conn s.tasks ≡ t
      → InvAt s
      → InvAt (accept_new w conn remote via bytes t s)
  unfolding accept_new
  accept_new-Inv conn remote via bytes none s t v =
      accept-Inv conn remote via bytes (w.parse_frame bytes) s t v
  accept_new-Inv conn remote via bytes (some _) s t v = v

  step-Inv : (s : Session) (e : Event) → accepts a e ≡ false → InvAt s → InvAt (step w s e)
  unfolding step
  step-Inv s (arrives conn remote via bytes) g v = accept_new-Inv conn remote via bytes _ s refl v
  step-Inv s (receives conn) g v = receive_at-Inv conn _ s refl v
  step-Inv s (times_out conn) g v = time_out_at-Inv conn _ s refl v
  step-Inv s (finishes conn) g v = finish_at-Inv conn _ s refl v
  step-Inv s (responds k accept) g v =
      respond_offer-Inv a s.tasks k accept s.ctx (λ e. ground (arith, text_beq_iff k a)) v
  step-Inv s (switches on) g v = same-Inv a s.tasks _ _ refl refl v

  run-Inv :
      (s : Session) (es : List Event) → any (accepts a) es ≡ false → InvAt s → InvAt (run w s es)
  unfolding run
  run-Inv s [] g v = v
  run-Inv s (e ∷ es) g v = run-Inv (step w s e) es (ground arith) (step-Inv s e (ground arith) v)

  start-Inv : (on : Bool) → InvAt (start on)
  unfolding start Map.get
  start-Inv on = record { owned = λ k tx h. cc; inbox = λ tx q h o. cc; held = λ tx. tt }

  -- Nothing is accepted without the user. From an engine that has just started, after any
  -- sequence of connections, timeouts, answers and switches: if the handler of some connection has
  -- answered its offer `a` by an accept, the user has accepted the offer `a`.
  pub accept_needs_user :
      (on : Bool) (es : List Event) (conn : ℕ) (f : Frame)
      → Map.get conn (run w (start on) es).tasks ≡ some (replied a f)
      → is_accept f ≡ true
      → any (accepts a) es ≡ true
  accept_needs_user on es conn f t y = elim (Bool-cases (any (accepts a) es)) [
    | inl said ↦ said
    | inr silent ↦
        let c : Clean a (some (replied a f)) =
          subst (Clean a) t ((run-Inv (start on) es silent (start-Inv on)).held conn) in
        absurd (ground (arith, c refl))
  ]
