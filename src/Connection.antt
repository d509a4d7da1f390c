-- ===== src/Connection.antt =====
-- core/src/receive.rs, the connection to a sender: how long it may take, and which route it is shown
-- to have.
pub mod Codes
use dropwire.Prelude.{
  ℕ, Bool, Option, none, some, List, if◌then◌else◌, ◌==◌, nat_eq, Text, find, any,
}
use dropwire.Progress.{Route, direct, relayed, unknown}
use dropwire.Endpoint.{Infra}

-- In seconds.
pub connect_timeout : Infra → ℕ
connect_timeout Infra.local_only = 3
connect_timeout _ = 15

-- The path of a connection as far as `route_from_paths` looks at it.
pub record PathInfo : Type 0 where
  pub is_selected : Bool
  pub is_relay : Bool
  pub is_ip : Bool

route_of_selected : PathInfo → Route
route_of_selected p = if p.is_relay then relayed else if p.is_ip then direct else unknown

unfoldable pub route_of_any : List PathInfo → Route
route_of_any paths =
    if any (λ p. p.is_ip) paths
    then direct
    else if any (λ p. p.is_relay) paths
    then relayed
    else unknown

unfoldable pub route_from_paths : List PathInfo → Route
unfolding route_of_selected route_of_any
route_from_paths paths = elim (find (λ p. p.is_selected) paths) [
  | none ↦ route_of_any paths
  | some p ↦ route_of_selected p
]

-- The route in the shared `AtomicU8`.
pub route_u8 : Route → ℕ
route_u8 direct = 1
route_u8 relayed = 2
route_u8 unknown = 0

pub u8_route : ℕ → Route
u8_route v = if v == 1 then direct else if v == 2 then relayed else unknown

-- What becomes of the attempt to connect: a connection with its first paths, no answer within
-- `connect_timeout`, or a refusal.
pub data Reach : Type 0 where
  connected : (paths : List PathInfo) → Reach
  timed_out : Reach
  refused : (message : Text) → Reach
