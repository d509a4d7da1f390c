-- ===== src/Gate/Forward.antt =====
-- The forwarding task of core/src/send.rs: pace, totals and ends of one request's events.
use dropwire.Prelude.{
  ℕ, ◌+◌, ◌-◌, ◌≤◌, ◌≡◌, refl, ap, List, [], ◌∷◌, ◌++◌, arith, leb, Bool-cases, inl, inr,
}
use dropwire.Gate.{ProviderEvent, RequestUpdate, started, completed, done, peer_joined, forward}

-- Every update comes at least 80 ms after the one before it, the first after `last`; and a
-- terminal event ends the stream.
abbrev pub IsPaced : ℕ → List (ℕ × ProviderEvent) → Type 0
IsPaced last [] = Unit {0}
IsPaced last ((now, ProviderEvent.progress offset total) ∷ es) = (last + 80 ≤ now) × IsPaced now es
IsPaced last ((now, done bytes nanos) ∷ es) = es ≡ []
IsPaced last ((now, ProviderEvent.aborted) ∷ es) = es ≡ []
IsPaced last ((now, peer_joined) ∷ es) = ⊥

-- The events of a served request are throttled: two progress events stand at least 80 ms apart
-- (the first one 80 ms after `last`), and nothing follows `Done` or `Aborted`.
pub forward-IsPaced :
    (total last : ℕ) (us : List (ℕ × RequestUpdate)) → IsPaced last (forward total last us)
unfolding forward
forward-IsPaced total last [] = tt
forward-IsPaced total last ((now, started size) ∷ us) = forward-IsPaced size last us
forward-IsPaced total last ((now, RequestUpdate.progress end) ∷ us) =
    ground (arith, forward-IsPaced total now us, forward-IsPaced total last us)
forward-IsPaced total last ((now, completed payload nanos) ∷ us) = refl
forward-IsPaced total last ((now, RequestUpdate.aborted) ∷ us) = refl

-- Only sizes and progress.
abbrev pub Runs : List (ℕ × RequestUpdate) → Type 0
Runs [] = Unit {0}
Runs ((now, started size) ∷ us) = Runs us
Runs ((now, RequestUpdate.progress end) ∷ us) = Runs us
Runs ((now, completed payload nanos) ∷ us) = ⊥
Runs ((now, RequestUpdate.aborted) ∷ us) = ⊥

-- The throttle never swallows the end of a request: once it completes, `Done` with its byte count
-- comes out last, after whatever the updates before it gave, and the updates after it give nothing.
pub forward-completed :
    (total last now payload nanos : ℕ) (us vs : List (ℕ × RequestUpdate))
    → Runs us
    → forward total last (us ++ ((now, completed payload nanos) ∷ vs))
      ≡ forward total last us ++ ((now, done payload nanos) ∷ [])
unfolding forward
forward-completed total last now payload nanos [] vs r = refl
forward-completed total last now payload nanos ((at, started size) ∷ us) vs r =
    forward-completed size last now payload nanos us vs r
forward-completed total last now payload nanos ((at, RequestUpdate.progress end) ∷ us) vs r =
    elim (Bool-cases (leb 80 (at - last))) [
      | inl sent ↦ rw (sent) (
          ap (◌∷◌ (at, ProviderEvent.progress end total))
            (forward-completed total at now payload nanos us vs r))
      | inr dropped ↦ rw (dropped) (forward-completed total last now payload nanos us vs r)
    ]
forward-completed total last now payload nanos ((at, completed _ _) ∷ us) vs r = absurd r
forward-completed total last now payload nanos ((at, RequestUpdate.aborted) ∷ us) vs r = absurd r
