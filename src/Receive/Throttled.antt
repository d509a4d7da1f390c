-- ===== src/Receive/Throttled.antt =====
-- The progress that a run of core/src/receive.rs tells while it downloads.
use dropwire.Prelude.{
  ℕ, ◌+◌, ◌-◌, ◌≤◌, ◌≡◌, refl, List, [], ◌∷◌, ◌++◌, code_points, leb, arith, if_both,
}
use dropwire.Progress.{TransferId, Route, Progress}
use dropwire.Connection.{route_from_paths, route_u8}
use dropwire.Connection.Codes.{u8_route-route_u8}
use dropwire.Receive.{
  Round, is_cancelled, is_done, moves, switches, breaks, Fetch, fetched, stopped, broken, download,
}

-- Each event comes at least 80 ms after the one before it, the first after `last`.
abbrev pub IsPaced : ℕ → List (ℕ × Progress) → Type 0
IsPaced last [] = Unit {0}
IsPaced last ((at, p) ∷ ps) = (last + 80 ≤ at) × IsPaced at ps

-- The events of a loop that told of every item that it reads, with the route of the latest snapshot.
pub every_event : TransferId → ℕ → Route → List Round → List (ℕ × Progress)
every_event id total route [] = []
every_event id total route (is_cancelled ∷ rounds) = []
every_event id total route (is_done ∷ rounds) = []
every_event id total route (breaks message ∷ rounds) = []
every_event id total route (switches paths ∷ rounds) =
    every_event id total (route_from_paths paths) rounds
every_event id total route (moves at offset ∷ rounds) =
    (at, Progress.transferring id offset total route) ∷ every_event id total route rounds

-- Some of the events, in their order.
pub data IsPart : List (ℕ × Progress) → List (ℕ × Progress) → Type 0 where
  none : IsPart [] []
  keep : {e : ℕ × Progress} {es fs : List (ℕ × Progress)} → IsPart es fs → IsPart (e ∷ es) (e ∷ fs)
  skip : {e : ℕ × Progress} {es fs : List (ℕ × Progress)} → IsPart es fs → IsPart es (e ∷ fs)

-- How a loop ends that skips nothing.
pub fate : List Round → Fetch
fate [] = fetched
fate (is_cancelled ∷ rounds) = stopped
fate (is_done ∷ rounds) = fetched
fate (breaks message ∷ rounds) = broken (code_points "download failed: " ++ message)
fate (switches paths ∷ rounds) = fate rounds
fate (moves at offset ∷ rounds) = fate rounds

download-IsPaced :
    (id : TransferId) (total last state : ℕ) (rounds : List Round)
    → IsPaced last (download id total last state rounds).0
unfolding download
download-IsPaced id total last state [] = tt
download-IsPaced id total last state (is_cancelled ∷ rounds) = tt
download-IsPaced id total last state (is_done ∷ rounds) = tt
download-IsPaced id total last state (breaks message ∷ rounds) = tt
download-IsPaced id total last state (switches paths ∷ rounds) =
    download-IsPaced id total last _ rounds
download-IsPaced id total last state (moves at offset ∷ rounds) =
    ground (
      arith,
      download-IsPaced id total at state rounds,
      download-IsPaced id total last state rounds,
    )

download-IsPart :
    (id : TransferId) (total last : ℕ) (route : Route) (rounds : List Round)
    → IsPart (download id total last (route_u8 route) rounds).0 (every_event id total route rounds)
unfolding download every_event
download-IsPart id total last route [] = none
download-IsPart id total last route (is_cancelled ∷ rounds) = none
download-IsPart id total last route (is_done ∷ rounds) = none
download-IsPart id total last route (breaks message ∷ rounds) = none
download-IsPart id total last route (switches paths ∷ rounds) =
    download-IsPart id total last (route_from_paths paths) rounds
download-IsPart id total last route (moves at offset ∷ rounds) = rw (u8_route-route_u8 route) (
    if_both {A = List (ℕ × Progress) × Fetch}
      (λ d.
        IsPart d.0
          ((at, Progress.transferring id offset total route) ∷ every_event id total route rounds))
      (leb 80 (at - last)) (keep (download-IsPart id total at route rounds))
      (skip (download-IsPart id total last route rounds)))

download-fate :
    (id : TransferId) (total last state : ℕ) (rounds : List Round)
    → (download id total last state rounds).1 ≡ fate rounds
unfolding download fate
download-fate id total last state [] = refl
download-fate id total last state (is_cancelled ∷ rounds) = refl
download-fate id total last state (is_done ∷ rounds) = refl
download-fate id total last state (breaks message ∷ rounds) = refl
download-fate id total last state (switches paths ∷ rounds) = download-fate id total last _ rounds
download-fate id total last state (moves at offset ∷ rounds) =
    ground (arith, download-fate id total at state rounds, download-fate id total last state rounds)

-- The progress of a download is throttled and true: its events are some of those that the items of
-- the stream give, in their order, each with the route of the latest snapshot of the paths before it,
-- and two of them stand at least 80 ms apart. How the loop ends does not depend on the throttle.
pub download_throttled :
    (id : TransferId) (total last : ℕ) (route : Route) (rounds : List Round)
    → let (es, f) = download id total last (route_u8 route) rounds in
      IsPaced last es × IsPart es (every_event id total route rounds) × (f ≡ fate rounds)
download_throttled id total last route rounds = (
  download-IsPaced id total last (route_u8 route) rounds,
  download-IsPart id total last route rounds,
  download-fate id total last (route_u8 route) rounds,
)
