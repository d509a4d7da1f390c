-- ===== src/Gate/Lookups.antt =====
-- What the gate of core/src/send.rs is apart from how its maps are laid out: a table of lookups.
use dropwire.Prelude.{
  ℕ, ◌≡◌, refl, sym, ap, ◌∙◌, arith, Bool, true, Option, none, some, List, [], ◌∷◌, if◌then◌else◌,
  ◌==◌, nat_eq, text_eq, text_beq_iff, Text, EndpointId,
}
use dropwire.Prelude.Map
use dropwire.Prelude.Map.{get-insert, get-remove}
use dropwire.Progress.{TransferId}
use dropwire.Gate.{
  Gate, ProviderMessage, client_connected_notify, connection_closed, get_request_received, other,
  allowed, denied, Reaction, quiet, bind_first, approve_one_to_one, on_message,
  consume_provider_events,
}

-- What a message leaves of a connection's peer.
unfoldable pub peer_after : ProviderMessage → ℕ → Option EndpointId → Option EndpointId
peer_after (client_connected_notify c (some e)) k o = if c == k then some e else o
peer_after (connection_closed c) k o = if c == k then none else o
peer_after _ k o = o

-- What a request of a peer leaves of a content's binding: a first known peer of a served content
-- takes it.
pub claim : Option EndpointId → Option TransferId → Option EndpointId → Option EndpointId
claim (some e) (some id) none = some e
claim _ _ held = held

is_let_in : Option EndpointId → Option TransferId → Option EndpointId → Bool
is_let_in (some e) (some id) (some held) = held == e
is_let_in _ _ _ = true

pub reaction_of : Option EndpointId → Option TransferId → Option EndpointId → Reaction
unfolding is_let_in
reaction_of peer served held =
    if is_let_in peer served held
    then record { verdict = some allowed; subscriber = served }
    else record { verdict = some denied; subscriber = none }

approve_lem :
    (g : Gate) (h : Text) (peer : Option EndpointId)
    → ((approve_one_to_one g h peer).0.serving ≡ g.serving)
      × ((approve_one_to_one g h peer).0.conns ≡ g.conns)
      × ((approve_one_to_one g h peer).1 ≡ is_let_in peer (Map.get h g.serving) (Map.get h g.bound))
      × ((k : Text)
          → Map.get k (approve_one_to_one g h peer).0.bound ≡ (
              if h == k
              then claim peer (Map.get h g.serving) (Map.get h g.bound)
              else Map.get k g.bound))
unfolding approve_one_to_one bind_first claim is_let_in
approve_lem g h none = (refl, refl, refl, λ k. ground (arith, text_beq_iff h k))
approve_lem g h (some e) = (
  ground arith,
  ground arith,
  ground arith,
  λ k. ground (arith, get-insert h k e g.bound, text_beq_iff h k),
)

-- The gate as its lookups, and what a message makes of them.
pub record Lookups : Type 0 where
  pub serving : Text → Option TransferId
  pub conns : ℕ → Option EndpointId
  pub bound : Text → Option EndpointId

abbrev pub lookups : Gate → Lookups
lookups g = record {
  serving = λ h. Map.get h g.serving;
  conns = λ c. Map.get c g.conns;
  bound = λ h. Map.get h g.bound;
}

pub Lookups-ext :
    (l l' : Lookups)
    → ((h : Text) → l.serving h ≡ l'.serving h)
    → ((c : ℕ) → l.conns c ≡ l'.conns c)
    → ((h : Text) → l.bound h ≡ l'.bound h)
    → l ≡ l'
Lookups-ext l l' serving conns bound =
    λ i. record { serving = λ h. serving h i; conns = λ c. conns c i; bound = λ h. bound h i }

unfoldable pub bound_after : ProviderMessage → Lookups → Text → Option EndpointId
bound_after (get_request_received c h) l k =
    if h == k then claim (l.conns c) (l.serving h) (l.bound h) else l.bound k
bound_after _ l k = l.bound k

unfoldable pub lookups_after : ProviderMessage → Lookups → Lookups
lookups_after m l = record {
  serving = l.serving;
  conns = λ c. peer_after m c (l.conns c);
  bound = λ h. bound_after m l h;
}

unfoldable pub reaction_after : ProviderMessage → Lookups → Reaction
reaction_after (get_request_received c h) l = reaction_of (l.conns c) (l.serving h) (l.bound h)
reaction_after _ l = quiet

request_gate :
    (g : Gate) (c : ℕ) (h : Text)
    → (on_message g (get_request_received c h)).0 ≡ (approve_one_to_one g h (Map.get c g.conns)).0
unfolding on_message
request_gate g c h = ground arith

pub on_message-lookups :
    (g : Gate) (m : ProviderMessage) → lookups (on_message g m).0 ≡ lookups_after m (lookups g)
unfolding lookups_after on_message peer_after bound_after
on_message-lookups g (client_connected_notify c none) = refl
on_message-lookups g (client_connected_notify c (some e)) =
    Lookups-ext _ _ (λ h. refl) (λ k. get-insert c k e g.conns) (λ h. refl)
on_message-lookups g (connection_closed c) =
    Lookups-ext _ _ (λ h. refl) (λ k. get-remove c k g.conns) (λ h. refl)
on_message-lookups g (get_request_received c h) =
    let (serving, conns, verdict, bound) = approve_lem g h (Map.get c g.conns) in
    ap (λ x. lookups x) (request_gate g c h)
    ∙ Lookups-ext _ _ (λ k. ap (λ s. Map.get k s) serving) (λ k. ap (λ s. Map.get k s) conns) bound
on_message-lookups g other = refl

pub on_message-reaction :
    (g : Gate) (m : ProviderMessage) → (on_message g m).1 ≡ reaction_after m (lookups g)
unfolding reaction_after reaction_of on_message
on_message-reaction g (client_connected_notify c none) = refl
on_message-reaction g (client_connected_notify c (some e)) = refl
on_message-reaction g (connection_closed c) = refl
on_message-reaction g (get_request_received c h) =
    let (serving, conns, verdict, bound) = approve_lem g h (Map.get c g.conns) in
    ground (arith, serving, verdict)
on_message-reaction g other = refl

pub run_lookups : Lookups → List ProviderMessage → Lookups × List Reaction
run_lookups l [] = (l, [])
run_lookups l (m ∷ ms) =
    let (l', rs) = run_lookups (lookups_after m l) ms in (l', reaction_after m l ∷ rs)

-- The provider events act on the gate as on a table of lookups: whatever the messages, the loop answers
-- each as the table does, and leaves the table's lookups. So how the maps are laid out, and the
-- entries that they hide, never matter.
pub consume-lookups :
    (g : Gate) (ms : List ProviderMessage)
    → let (g', rs) = consume_provider_events g ms in (lookups g', rs) ≡ run_lookups (lookups g) ms
unfolding consume_provider_events run_lookups
consume-lookups g [] = refl
consume-lookups g (m ∷ ms) =
    let (g', r) = on_message g m in
    rw (sym (on_message-lookups g m), sym (on_message-reaction g m), sym (consume-lookups g' ms))
      refl
