-- ===== src/Gate.antt =====
-- core/src/send.rs, the serving side: who may fetch what, and how the progress of a served
-- request reaches the send that owns the content. The maps `serving`, `conns` and `bound` of
-- `Inner` (core/src/lib.rs) are the state; a send's event channel is named by its transfer id.
pub mod OneToOne
pub mod Forward
pub mod Resend
pub mod Race
pub mod Lookups
pub mod Apart
mod Tests
use dropwire.Prelude.{
  ℕ, ◌-◌, Bool, true, Option, none, some, List, [], ◌∷◌, if◌then◌else◌, leb, ◌==◌, nat_eq, text_eq,
  Text, EndpointId,
}
use dropwire.Prelude.Map
use dropwire.Prelude.Map.{HashMap}
use dropwire.Progress.{TransferId}

pub record Gate : Type 0 where
  pub serving : HashMap Text TransferId
  pub conns : HashMap ℕ EndpointId
  pub bound : HashMap Text EndpointId

-- The messages of iroh-blobs that `consume_provider_events` reads; the rest are `other`.
pub data ProviderMessage : Type 0 where
  client_connected_notify : (connection_id : ℕ) (endpoint_id : Option EndpointId) → ProviderMessage
  connection_closed : (connection_id : ℕ) → ProviderMessage
  get_request_received : (connection_id : ℕ) (hash : Text) → ProviderMessage
  other : ProviderMessage

pub data ProviderEvent : Type 0 where
  peer_joined : ProviderEvent
  progress : (offset total : ℕ) → ProviderEvent
  done : (bytes nanos : ℕ) → ProviderEvent
  aborted : ProviderEvent

-- The answer on the request's own channel.
pub data Verdict : Type 0 where
  allowed denied : Verdict

-- The rest of `approve_one_to_one`, past its two early returns: it takes the lock on `bound`.
pub bind_first : Gate → Text → EndpointId → Option EndpointId → Gate × Bool
bind_first g hash_key eid none = (record g { bound = Map.insert hash_key eid g.bound }, true)
bind_first g hash_key eid (some existing) = (g, existing == eid)

-- Both locks in a row. Between them another task may run: Gate.Race takes the two halves apart.
pub approve_one_to_one : Gate → Text → Option EndpointId → Gate × Bool
unfolding bind_first
approve_one_to_one g hash_key none = (g, true)
approve_one_to_one g hash_key (some eid) =
    if Map.contains_key hash_key g.serving
    then bind_first g hash_key eid (Map.get hash_key g.bound)
    else (g, true)

-- What one message does beside the state: the verdict sent back, and the send that is told
-- `PeerJoined` and gets the request's updates forwarded.
pub record Reaction : Type 0 where
  pub verdict : Option Verdict
  pub subscriber : Option TransferId

abbrev pub quiet : Reaction
quiet = record { verdict = none; subscriber = none }

-- One round of `consume_provider_events`, which handles one message after the other.
pub on_message : Gate → ProviderMessage → Gate × Reaction
on_message g (client_connected_notify connection_id none) = (g, quiet)
on_message g (client_connected_notify connection_id (some eid)) =
    (record g { conns = Map.insert connection_id eid g.conns }, quiet)
on_message g (connection_closed connection_id) =
    (record g { conns = Map.remove connection_id g.conns }, quiet)
on_message g (get_request_received connection_id hash) =
    let (g', approved) = approve_one_to_one g hash (Map.get connection_id g.conns) in
    if approved
    then (g', record { verdict = some allowed; subscriber = Map.get hash g'.serving })
    else (g', record { verdict = some denied; subscriber = none })
on_message g other = (g, quiet)

-- The loop, with the reactions in order.
pub consume_provider_events : Gate → List ProviderMessage → Gate × List Reaction
consume_provider_events g [] = (g, [])
consume_provider_events g (m ∷ ms) =
    let (g', r) = on_message g m in let (g'', rs) = consume_provider_events g' ms in (g'', r ∷ rs)

-- A send registers its channel once its content is imported (step 5 of `run_send`).
pub register : Gate → Text → TransferId → Gate
register g hash_key id = record g { serving = Map.insert hash_key id g.serving }

-- When it stops it takes itself off the two maps, one after the other.
pub unserve : Gate → Text → Gate
unserve g hash_key = record g { serving = Map.remove hash_key g.serving }

pub unbind : Gate → Text → Gate
unbind g hash_key = record g { bound = Map.remove hash_key g.bound }

pub unregister : Gate → Text → Gate
unfolding unserve unbind
unregister g hash_key = unbind (unserve g hash_key) hash_key

-- The updates of one request, each with the milliseconds at which it arrives.
pub data RequestUpdate : Type 0 where
  started : (size : ℕ) → RequestUpdate
  progress : (end_offset : ℕ) → RequestUpdate
  completed : (payload_bytes_sent nanos : ℕ) → RequestUpdate
  aborted : RequestUpdate

-- The task spawned for an allowed request. `last` is the instant of the last update let
-- through; each event comes out with the instant at which it is sent.
pub forward : ℕ → ℕ → List (ℕ × RequestUpdate) → List (ℕ × ProviderEvent)
forward total last [] = []
forward total last ((now, started size) ∷ us) = forward size last us
forward total last ((now, progress end_offset) ∷ us) =
    let sent = (now, progress end_offset total) ∷ forward total now us in
    let dropped = forward total last us in if leb 80 (now - last) then sent else dropped
forward total last ((now, completed payload nanos) ∷ us) = (now, done payload nanos) ∷ []
forward total last ((now, aborted) ∷ us) = (now, aborted) ∷ []

-- `Instant::now() - 200ms` lets the first update through.
pub forward_request : ℕ → List (ℕ × RequestUpdate) → List (ℕ × ProviderEvent)
forward_request now us = forward 0 (now - 200) us
