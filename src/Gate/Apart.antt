-- ===== src/Gate/Apart.antt =====
-- Provider messages of core/src/send.rs that do not interfere.
use dropwire.Prelude.{
  ℕ, ◌≡◌, ◌≢◌, refl, sym, ap, ◌∙◌, arith, Option, none, some, if◌then◌else◌, ◌==◌, nat_eq, text_eq,
  Bool-cases, subst, inl, inr, nat_beq_iff, text_beq_iff, Text, EndpointId,
}
use dropwire.Gate.{
  Gate, ProviderMessage, client_connected_notify, connection_closed, get_request_received, other,
  on_message,
}
use dropwire.Gate.Lookups.{
  Lookups, lookups, Lookups-ext, peer_after, bound_after, lookups_after, reaction_after,
  on_message-lookups, on_message-reaction,
}

abbrev pub connection_of : ProviderMessage → Option ℕ
connection_of (client_connected_notify c o) = some c
connection_of (connection_closed c) = some c
connection_of (get_request_received c h) = some c
connection_of other = none

abbrev pub content_of : ProviderMessage → Option Text
content_of (get_request_received c h) = some h
content_of _ = none

abbrev pub AreApart {ℓ} : {A : Type ℓ} → Option A → Option A → Type ℓ
AreApart (some a) (some b) = a ≢ b
AreApart _ _ = Unit

-- Messages of two connections, and not requests for one content.
abbrev pub IsApart : ProviderMessage → ProviderMessage → Type 0
IsApart m m' =
    AreApart (connection_of m) (connection_of m') × AreApart (content_of m) (content_of m')

peer_apart :
    (m : ProviderMessage) (c : ℕ) (o : Option EndpointId)
    → AreApart (connection_of m) (some c)
    → peer_after m c o ≡ o
unfolding peer_after
peer_apart (client_connected_notify d none) c o h = refl
peer_apart (client_connected_notify d (some e)) c o h = ground (arith, nat_beq_iff d c)
peer_apart (connection_closed d) c o h = ground (arith, nat_beq_iff d c)
peer_apart (get_request_received d t) c o h = refl
peer_apart other c o h = refl

bound_apart :
    (m : ProviderMessage) (l : Lookups) (h : Text)
    → AreApart (content_of m) (some h)
    → bound_after m l h ≡ l.bound h
unfolding bound_after
bound_apart (get_request_received c t) l h a = ground (arith, text_beq_iff t h)
bound_apart (client_connected_notify c o) l h a = refl
bound_apart (connection_closed c) l h a = refl
bound_apart other l h a = refl

-- A message is answered as if the other had not come.
reaction_apart :
    (m m' : ProviderMessage) (l : Lookups)
    → IsApart m m'
    → reaction_after m' (lookups_after m l) ≡ reaction_after m' l
unfolding reaction_after lookups_after
reaction_apart m (get_request_received c h) l (conns, contents) =
    rw (peer_apart m c (l.conns c) conns, bound_apart m l h contents) refl
reaction_apart m (client_connected_notify c o) l a = refl
reaction_apart m (connection_closed c) l a = refl
reaction_apart m other l a = refl

-- A slot that one of the messages writes is not touched by the other.
peer_written :
    (m : ProviderMessage) (c k : ℕ) (o o' : Option EndpointId)
    → AreApart (connection_of m) (some c)
    → (if c == k then o' else peer_after m k o) ≡ peer_after m k (if c == k then o' else o)
peer_written m c k o o' a = elim (Bool-cases (c == k)) [
  | inl same ↦ rw (same) (
      sym (
        peer_apart m k o'
          (subst (λ d. AreApart (connection_of m) (some d)) ((nat_beq_iff c k).0 same) a)))
  | inr distinct ↦ rw (distinct) refl
]

peer_comm :
    (m m' : ProviderMessage) (k : ℕ) (o : Option EndpointId)
    → IsApart m m'
    → peer_after m' k (peer_after m k o) ≡ peer_after m k (peer_after m' k o)
unfolding peer_after
peer_comm m (client_connected_notify c none) k o a = refl
peer_comm m (client_connected_notify c (some e)) k o (a, _) = peer_written m c k o (some e) a
peer_comm m (connection_closed c) k o (a, _) = peer_written m c k o none a
peer_comm m (get_request_received c h) k o a = refl
peer_comm m other k o a = refl

bound_comm :
    (m m' : ProviderMessage) (l : Lookups) (k : Text)
    → IsApart m m'
    → bound_after m' (lookups_after m l) k ≡ bound_after m (lookups_after m' l) k
unfolding bound_after lookups_after peer_after
bound_comm (get_request_received c h) (get_request_received c' h') l k (d, a) =
    rw
      (
        peer_apart (get_request_received c h) c' (l.conns c') d,
        peer_apart (get_request_received c' h') c (l.conns c) (λ e. d (sym e)),
      )
      (ground (arith, text_beq_iff h k, text_beq_iff h' k, text_beq_iff h h', text_beq_iff h' h))
bound_comm (get_request_received c h) (client_connected_notify c' o) l k (a, _) =
    rw (peer_apart (client_connected_notify c' o) c (l.conns c) (λ e. a (sym e))) refl
bound_comm (get_request_received c h) (connection_closed c') l k (a, _) =
    rw (peer_apart (connection_closed c') c (l.conns c) (λ e. a (sym e))) refl
bound_comm (get_request_received c h) other l k a = refl
bound_comm (client_connected_notify c o) (get_request_received c' h') l k (a, _) =
    rw (peer_apart (client_connected_notify c o) c' (l.conns c') a) refl
bound_comm (connection_closed c) (get_request_received c' h') l k (a, _) =
    rw (peer_apart (connection_closed c) c' (l.conns c') a) refl
bound_comm other (get_request_received c' h') l k a = refl
bound_comm _ _ l k a = refl

AreApart-sym {ℓ} : {A : Type ℓ} (o o' : Option A) → AreApart o o' → AreApart o' o
AreApart-sym (some a) (some b) h = λ e. h (sym e)
AreApart-sym none (some b) h = tt
AreApart-sym (some a) none h = tt
AreApart-sym none none h = tt

IsApart-sym : (m m' : ProviderMessage) → IsApart m m' → IsApart m' m
IsApart-sym m m' (conns, contents) = (
  AreApart-sym (connection_of m) (connection_of m') conns,
  AreApart-sym (content_of m) (content_of m') contents,
)

lookups_comm :
    (m m' : ProviderMessage) (l : Lookups)
    → IsApart m m'
    → lookups_after m' (lookups_after m l) ≡ lookups_after m (lookups_after m' l)
unfolding lookups_after
lookups_comm m m' l a =
    Lookups-ext _ _ (λ h. refl) (λ c. peer_comm m m' c (l.conns c) a) (λ h. bound_comm m m' l h a)

module _ (g : Gate) (m m' : ProviderMessage) where
  second_reaction : IsApart m m' → (on_message (on_message g m).0 m').1 ≡ (on_message g m').1
  second_reaction a =
      on_message-reaction (on_message g m).0 m'
      ∙ ap (λ l. reaction_after m' l) (on_message-lookups g m)
      ∙ reaction_apart m m' (lookups g) a
      ∙ sym (on_message-reaction g m')

  second_lookups :
      lookups (on_message (on_message g m).0 m').0 ≡ lookups_after m' (lookups_after m (lookups g))
  second_lookups =
      on_message-lookups (on_message g m).0 m'
      ∙ ap (λ l. lookups_after m' l) (on_message-lookups g m)

-- Provider messages of two connections that are not requests for one content do not interfere: in either
-- order, each is answered as if it came alone, and the gate ends with the same peers and bindings.
pub on_message_apart :
    (g : Gate) (m m' : ProviderMessage)
    → IsApart m m'
    → let (g1, r) = on_message g m in
      let (g12, r') = on_message g1 m' in
      let (g2, s') = on_message g m' in
      let (g21, s) = on_message g2 m in (r ≡ s) × (r' ≡ s') × (lookups g12 ≡ lookups g21)
on_message_apart g m m' a = (
  sym (second_reaction g m' m (IsApart-sym m m' a)),
  second_reaction g m m' a,
  second_lookups g m m' ∙ lookups_comm m m' (lookups g) a ∙ sym (second_lookups g m' m),
)
