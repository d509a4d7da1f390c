-- ===== src/Transfers.antt =====
-- The running transfers of core/src/lib.rs: `Core::send` of core/src/send.rs and `spawn_receive` of
-- core/src/receive.rs enter a cancellation token for each under a new id, `cancel` cancels it, and the
-- end of the task takes it out.
pub mod Apart
use dropwire.Prelude.{Bool, true, false, Option, none, some, List, [], ◌∷◌, nat_eq}
use dropwire.Prelude.Map
use dropwire.Prelude.Map.{HashMap}
use dropwire.Progress.{TransferId}
use dropwire.Gate.{Gate}

-- The gate, and the cancellation tokens of the running transfers, with whether each is cancelled.
pub record Engine : Type 0 where
  pub gate : Gate
  pub active : HashMap TransferId Bool

-- `Core::cancel`, from whether the transfer runs.
unfoldable pub cancel_at : TransferId → Option Bool → Engine → Engine
cancel_at id none g = g
cancel_at id (some _) g = record g { active = Map.insert id true g.active }

unfoldable pub cancel : TransferId → Engine → Engine
unfolding cancel_at
cancel id g = cancel_at id (Map.get id g.active) g

pub data Event : Type 0 where
  begins cancels ends : (id : TransferId) → Event

pub enter : TransferId → Engine → Engine
enter id g = record g { active = Map.insert id false g.active }

pub leave : TransferId → Engine → Engine
leave id g = record g { active = Map.remove id g.active }

pub step : Engine → Event → Engine
unfolding enter leave
step g (begins id) = enter id g
step g (cancels id) = cancel id g
step g (ends id) = leave id g

pub run : Engine → List Event → Engine
unfolding step
run g [] = g
run g (e ∷ es) = run (step g e) es
