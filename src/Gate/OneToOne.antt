-- ===== src/Gate/OneToOne.antt =====
-- The one-to-one gate of core/src/send.rs: which device a ticket is served to, over any
-- sequence of provider messages.
use dropwire.Prelude.{
  ◌≡◌, refl, ◌↔◌, ◌≢◌, Bool, true, false, Option, none, some, List, [], ◌∷◌, ◌++◌, arith, ◌==◌,
  nat_eq, text_eq, nat_beq_iff, text_beq_iff, Text, EndpointId, All, All-append, ◌⊎◌, Option-cases,
  Bool-cases, inl, inr,
}
use dropwire.Prelude.Map
use dropwire.Prelude.Map.{get-insert}
use dropwire.Gate.{
  Gate, ProviderMessage, client_connected_notify, connection_closed, get_request_received, other,
  Verdict, allowed, approve_one_to_one, on_message, consume_provider_events,
}

abbrev pub IsServed : Text → Gate → Type 0
IsServed h g = Map.contains_key h g.serving ≡ true

-- A known device whose request for the content is let through.
abbrev served : Bool → Option EndpointId → Option Verdict → List EndpointId
served true (some e) (some allowed) = e ∷ []
served _ _ _ = []

unfoldable pub fetcher : Gate → Text → ProviderMessage → List EndpointId
fetcher g h (get_request_received c h') =
    served (h' == h) (Map.get c g.conns) (on_message g (get_request_received c h')).1.verdict
fetcher g h _ = []

-- The devices that fetch the content `h` over a sequence of messages.
unfoldable pub fetchers : Gate → Text → List ProviderMessage → List EndpointId
fetchers g h [] = []
fetchers g h (m ∷ ms) = fetcher g h m ++ fetchers (on_message g m).0 h ms

abbrev pub AllSame : List EndpointId → Type 0
AllSame [] = Unit {0}
AllSame (e ∷ es) = All (λ x. x ≡ e) es

pub on_message-serving : (g : Gate) (m : ProviderMessage) → (on_message g m).0.serving ≡ g.serving
unfolding on_message approve_one_to_one
on_message-serving g (client_connected_notify c none) = refl
on_message-serving g (client_connected_notify c (some e)) = refl
on_message-serving g (get_request_received c h) = ground arith
on_message-serving g _ = refl

approve-bound :
    (g : Gate) (h h' : Text) (o : Option EndpointId) (e : EndpointId)
    → Map.get h g.bound ≡ some e
    → Map.get h (approve_one_to_one g h' o).0.bound ≡ some e
unfolding approve_one_to_one
approve-bound g h h' none e b = b
approve-bound g h h' (some x) e b = ground (arith, get-insert h' h x g.bound, text_beq_iff h' h)

-- A binding is never moved by a message.
on_message-bound :
    (g : Gate) (m : ProviderMessage) (h : Text) (e : EndpointId)
    → Map.get h g.bound ≡ some e
    → Map.get h (on_message g m).0.bound ≡ some e
unfolding on_message
on_message-bound g (client_connected_notify c none) h e b = b
on_message-bound g (client_connected_notify c (some _)) h e b = b
on_message-bound g (get_request_received c h') h e b =
    ground (arith, approve-bound g h h' (Map.get c g.conns) e b)
on_message-bound g (connection_closed c) h e b = b
on_message-bound g other h e b = b

-- Nor does a run of messages move it, or end the serving.
pub consume-kept :
    (g : Gate) (ms : List ProviderMessage) (h : Text) (e : EndpointId)
    → IsServed h g
    → Map.get h g.bound ≡ some e
    → let g' = (consume_provider_events g ms).0 in IsServed h g' × (Map.get h g'.bound ≡ some e)
unfolding consume_provider_events
consume-kept g [] h e s b = (s, b)
consume-kept g (m ∷ ms) h e s b =
    consume-kept (on_message g m).0 ms h e (rw (on_message-serving g m) s)
      (on_message-bound g m h e b)

-- With the content bound to `e`, a message lets no other known device through.
fetcher_bound :
    (g : Gate) (m : ProviderMessage) (h : Text) (e : EndpointId)
    → IsServed h g
    → Map.get h g.bound ≡ some e
    → All (λ x. x ≡ e) (fetcher g h m)
unfolding fetcher on_message approve_one_to_one
fetcher_bound g (get_request_received c h') h e s b = ground (arith, text_beq_iff h' h)
fetcher_bound g _ h e s b = tt

-- A device let through while nobody held the content holds it from then on.
fetcher_binds :
    (g : Gate) (m : ProviderMessage) (h : Text)
    → IsServed h g
    → Map.get h g.bound ≡ none
    → ((fetcher g h m ≡ []) × (Map.get h (on_message g m).0.bound ≡ none))
      ⊎ ((e : EndpointId) × (fetcher g h m ≡ e ∷ [])
          × (Map.get h (on_message g m).0.bound ≡ some e))
unfolding fetcher on_message approve_one_to_one
fetcher_binds g (get_request_received c h') h s b = elim (Option-cases (Map.get c g.conns)) [
  | inl e ↦ inl (ground arith, ground arith)
  | inr (x, e) ↦ elim (Bool-cases (h' == h)) [
    | inl same ↦ inr (
      x,
      ground (arith, text_beq_iff h' h),
      ground (arith, text_beq_iff h' h, get-insert h' h x g.bound),
    )
    | inr differs ↦ inl (ground arith, ground (arith, get-insert h' h x g.bound))
  ]
]
fetcher_binds g (client_connected_notify c none) h s b = inl (refl, b)
fetcher_binds g (client_connected_notify c (some x)) h s b = inl (refl, b)
fetcher_binds g (connection_closed c) h s b = inl (refl, b)
fetcher_binds g other h s b = inl (refl, b)

-- While the content `h` is served and bound to the device `e`, no other device whose identity is
-- known is let through to it, whatever messages arrive and in whatever order.
pub fetchers_bound :
    (g : Gate) (ms : List ProviderMessage) (h : Text) (e : EndpointId)
    → IsServed h g
    → Map.get h g.bound ≡ some e
    → All (λ x. x ≡ e) (fetchers g h ms)
unfolding fetchers
fetchers_bound g [] h e s b = tt
fetchers_bound g (m ∷ ms) h e s b = All-append _ (fetcher g h m) _ (fetcher_bound g m h e s b) (
    fetchers_bound (on_message g m).0 ms h e (rw (on_message-serving g m) s)
      (on_message-bound g m h e b))

fetchers_unbound :
    (g : Gate) (ms : List ProviderMessage) (h : Text)
    → IsServed h g
    → Map.get h g.bound ≡ none
    → AllSame (fetchers g h ms)
unfolding fetchers
fetchers_unbound g [] h s b = tt
fetchers_unbound g (m ∷ ms) h s b =
    let s' : IsServed h (on_message g m).0 = rw (on_message-serving g m) s in
    elim (fetcher_binds g m h s b) [
      | inl (e, b') ↦ rw e (fetchers_unbound (on_message g m).0 ms h s' b')
      | inr (x, e, b') ↦ rw e (fetchers_bound (on_message g m).0 ms h x s' b')
    ]

All-AllSame : (e : EndpointId) (es : List EndpointId) → All (λ x. x ≡ e) es → AllSame es
All-AllSame e [] a = tt
All-AllSame e (x ∷ es) a = rw a.0 a.1

-- One ticket, one device: over any sequence of provider messages, all the devices with a known
-- identity that are let through to a served content are the same device.
pub fetchers-AllSame :
    (g : Gate) (ms : List ProviderMessage) (h : Text) → IsServed h g → AllSame (fetchers g h ms)
fetchers-AllSame g ms h s = elim (Option-cases (Map.get h g.bound)) [
  | inl b ↦ fetchers_unbound g ms h s b
  | inr (e, b) ↦ All-AllSame e (fetchers g h ms) (fetchers_bound g ms h e s b)
]

-- The gate refuses a request exactly when the peer is known, the content is being served, and it
-- is bound to another device; in particular an unknown peer is never refused.
pub approve_refuses_iff :
    (g : Gate) (h : Text) (o : Option EndpointId)
    → ((approve_one_to_one g h o).1 ≡ false) ↔ (
        (eid : EndpointId) × (holder : EndpointId) × (o ≡ some eid)
        × IsServed h g
        × (Map.get h g.bound ≡ some holder)
        × (holder ≢ eid))
unfolding approve_one_to_one
approve_refuses_iff g h none = (λ p. cc, λ r. cc (r.2))
approve_refuses_iff g h (some eid) = (only, λ r. ground (arith, nat_beq_iff r.1 eid))
  where
    only :
        (approve_one_to_one g h (some eid)).1 ≡ false
        → (e : EndpointId) × (holder : EndpointId) × (some eid ≡ some e)
          × IsServed h g
          × (Map.get h g.bound ≡ some holder)
          × (holder ≢ e)
    only p = elim (Option-cases (Map.get h g.bound)) [
      | inl b ↦ absurd (ground arith)
      | inr (holder, b) ↦ (eid, holder, refl, ground arith, b, ground arith)
    ]
