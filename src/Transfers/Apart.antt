-- ===== src/Transfers/Apart.antt =====
-- Each transfer of core/src/lib.rs has its own token.
use dropwire.Prelude.{
  ◌≡◌, refl, ap, ◌∙◌, Bool, true, false, Option, none, some, List, [], ◌∷◌, if◌then◌else◌, ◌==◌,
  nat_eq, nat_beq_iff, arith,
}
use dropwire.Prelude.Map
use dropwire.Prelude.Map.{get-insert, get-remove}
use dropwire.Progress.{TransferId}
use dropwire.Transfers.{
  Engine, cancel, cancel_at, Event, begins, cancels, ends, enter, leave, step, run,
}

-- The token of one transfer alone: none when it does not run, else whether it is cancelled.
abbrev pub cancelled_if : Option Bool → Option Bool
cancelled_if none = none
cancelled_if (some c) = some true

-- What an event does to the token of the transfer `id`.
abbrev pub own_step : TransferId → Option Bool → Event → Option Bool
own_step id o (begins k) = if k == id then some false else o
own_step id o (cancels k) = if k == id then cancelled_if o else o
own_step id o (ends k) = if k == id then none else o

abbrev pub own_run : TransferId → Option Bool → List Event → Option Bool
own_run id o [] = o
own_run id o (e ∷ es) = own_run id (own_step id o e) es

get-cancel_at :
    (id k : TransferId) (o : Option Bool) (g : Engine)
    → Map.get k g.active ≡ o
    → Map.get id (cancel_at k o g).active
      ≡ (if k == id then cancelled_if (Map.get id g.active) else Map.get id g.active)
unfolding cancel_at
get-cancel_at id k none g e = ground (arith, e, nat_beq_iff k id)
get-cancel_at id k (some c) g e = ground (arith, e, nat_beq_iff k id, get-insert k id true g.active)

get-step :
    (id : TransferId) (g : Engine) (e : Event)
    → Map.get id (step g e).active ≡ own_step id (Map.get id g.active) e
unfolding step enter leave cancel
get-step id g (begins k) = get-insert k id false g.active
get-step id g (cancels k) = get-cancel_at id k (Map.get k g.active) g refl
get-step id g (ends k) = get-remove k id g.active

-- Transfers do not reach each other: over any sequence of beginnings, cancellations and ends, the
-- token of a transfer is the one that its own events give, whatever happens to the others. It is
-- there from the beginning to the end of the transfer, and cancelled once the user cancelled it in
-- between.
pub get-run :
    (id : TransferId) (g : Engine) (es : List Event)
    → Map.get id (run g es).active ≡ own_run id (Map.get id g.active) es
unfolding run
get-run id g [] = refl
get-run id g (e ∷ es) = get-run id (step g e) es ∙ ap (λ o. own_run id o es) (get-step id g e)
