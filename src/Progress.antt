-- ===== src/Progress.antt =====
-- core/src/progress.rs: the events that a transfer streams to the layers above.
-- A `TransferId` is the 128-bit number of its UUID. A duration in seconds is kept as the
-- nanoseconds that `as_secs_f64` converts, since there are no floats here.
use dropwire.Prelude.{ℕ, List, Text}

abbrev pub TransferId : Type 0
TransferId = ℕ

pub data Direction : Type 0 where
  send receive : Direction

pub data Route : Type 0 where
  direct relayed unknown : Route

pub record TransferStats : Type 0 where
  pub bytes : ℕ
  pub nanos : ℕ

pub record FilePreview : Type 0 where
  pub name : Text
  pub size : ℕ

pub record TransferPreview : Type 0 where
  pub files : List FilePreview
  pub file_count : ℕ
  pub total_bytes : ℕ
  pub route : Route

pub data Progress : Type 0 where
  importing : (id : TransferId) (done total : ℕ) → Progress
  ready : (id : TransferId) (ticket : Text) → Progress
  peer_joined : (id : TransferId) → Progress
  transferring : (id : TransferId) (offset total : ℕ) (route : Route) → Progress
  done : (id : TransferId) (stats : TransferStats) → Progress
  error : (id : TransferId) (message : Text) → Progress
  cancelled : (id : TransferId) → Progress

-- `Progress::id`.
abbrev pub id_of : Progress → TransferId
id_of (importing id _ _) = id
id_of (ready id _) = id
id_of (peer_joined id) = id
id_of (transferring id _ _ _) = id
id_of (done id _) = id
id_of (error id _) = id
id_of (cancelled id) = id
