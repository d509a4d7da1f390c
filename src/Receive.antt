-- ===== src/Receive.antt =====
-- core/src/receive.rs: a download from the connection to the last exported file. What iroh and the
-- disk answer is a parameter of each run; what the run does to the catalog, the event stream, the
-- sender and the destination is kept as a list of effects, in order.
pub mod Endings
pub mod Exports
pub mod Throttled
pub mod Every
pub mod Chosen
pub mod Recorded
mod Tests
use dropwire.Prelude.{
  ℕ, suc, ◌+◌, ◌-◌, ◌%◌, ◌^◌, Bool, true, false, Option, none, some, List, [], ◌∷◌, ◌++◌, map,
  if◌then◌else◌, leb, Text, code_points, contains, nat_eq,
}
use dropwire.Progress.{TransferId, receive, Progress, TransferStats}
use dropwire.Catalog.{Status, TransferRecord, new_record}
use dropwire.Paths.{export_target, parent}
use dropwire.Send.{file_name}
use dropwire.Connection.{
  PathInfo, route_from_paths, route_u8, u8_route, Reach, connected, timed_out, refused,
}
use dropwire.Preview.{total_of, GetRequest}

-- One turn of the download's `select!`; `at` is the time in milliseconds, counted from the first
-- value of `last_emit`, which is 200 before the loop. Between the turns the watcher of the paths may
-- see a new snapshot.
pub data Round : Type 0 where
  is_cancelled is_done : Round
  moves : (at offset : ℕ) → Round
  switches : (paths : List PathInfo) → Round
  breaks : (message : Text) → Round

pub data Fetch : Type 0 where
  fetched stopped : Fetch
  broken : (message : Text) → Fetch

abbrev pub tell : ℕ × Progress → List (ℕ × Progress) × Fetch → List (ℕ × Progress) × Fetch
tell p (ps, f) = (p ∷ ps, f)

-- The loop over the stream, which may also just end, with `last_emit` and `route_state`. Each event
-- stands beside its time.
pub download :
    TransferId → (total last_emit route_state : ℕ) → List Round → List (ℕ × Progress) × Fetch
download id total last_emit route_state [] = ([], fetched)
download id total last_emit route_state (is_cancelled ∷ rounds) = ([], stopped)
download id total last_emit route_state (is_done ∷ rounds) = ([], fetched)
download id total last_emit route_state (breaks message ∷ rounds) =
    ([], broken (code_points "download failed: " ++ message))
download id total last_emit route_state (switches paths ∷ rounds) =
    download id total last_emit (route_u8 (route_from_paths paths)) rounds
download id total last_emit route_state (moves at offset ∷ rounds) =
    let told = download id total at route_state rounds in
    let silent = download id total last_emit route_state rounds in
    if leb 80 (at - last_emit)
    then tell (at, Progress.transferring id offset total (u8_route route_state)) told
    else silent

-- `sizes_asked` is `get_hash_seq_and_sizes`: the root and the last chunk of each of its children, of
-- which the provider proves the size; `asked` is the request for content.
pub data Effect : Type 0 where
  recorded : TransferRecord → Effect
  sizes_asked : (hash : Text) → Effect
  asked : GetRequest → Effect
  emitted : Progress → Effect
  status_set : Status → Option ℕ → Effect
  exported : (index : ℕ) (target : Text) → Effect

-- What the run meets: the text and the hash of the ticket, the time of its record, the connection,
-- the sizes, whether the local store is complete and the request for what it lacks, the rounds of the
-- download, the names of the collection, the error of a directory's creation, the export.
pub record Remote : Type 0 where
  pub ticket : Text
  pub hash : Text
  pub now : ℕ
  pub reach : Reach
  pub sizes : Option (List ℕ)
  pub is_complete : Option Bool
  pub missing : GetRequest
  pub rounds : List Round
  pub collection : Option (List Text)
  pub make_dir : Text → Option Text
  pub export : ℕ → Text → Bool
  pub nanos : ℕ

-- What a stage did, and the error it returned.
abbrev pub Stage : Type 0
Stage = List Effect × Option Text

abbrev pub after : List Effect → Stage → Stage
after es (fs, r) = (es ++ fs, r)

abbrev pub is_wanted : Option (List ℕ) → ℕ → Bool
is_wanted none i = true
is_wanted (some idx) i = contains idx i

-- The request of a download: what is missing, or the metadata and the chosen files.
pub request_of : Option (List ℕ) → GetRequest → GetRequest
request_of none missing = missing
request_of (some idx) missing = record { children = 0 ∷ map (λ i. (i + 1) % 2 ^ 64) idx }

abbrev pub told_of : List (ℕ × Progress) → List Effect
told_of ps = map (λ e. emitted e.1) ps

module _ (id : TransferId) (dest : Text) (selected : Option (List ℕ)) (r : Remote) where
  open r use {ticket, hash, now, reach, sizes, is_complete, missing, rounds}
  open r use {collection, make_dir, export, nanos}

  export_file : ℕ → Text → Text → Option Text → Stage → Stage
  export_file i name target (some e) rest = ([], some e)
  export_file i name target none rest =
      if export i target
      then after (exported i target ∷ []) rest
      else ([], some (code_points "export " ++ name))

  -- The loop over the collection, from the file with index `i` on.
  pub export_from : ℕ → List Text → Stage
  unfolding export_file
  export_from i [] = ([], none)
  export_from i (name ∷ names) =
      let rest = export_from (suc i) names in
      let target = export_target dest name in
      if is_wanted selected i
      then export_file i name target (make_dir (parent target)) rest
      else rest

  abbrev pub stats_of : ℕ → TransferStats
  stats_of total = record { bytes = total; nanos = nanos }

  -- The end of `run_receive`, after the exports.
  conclude : ℕ → Stage → Stage
  conclude total (es, some e) = (es, some e)
  conclude total (es, none) = (
    es ++ (status_set Status.done (some total) ∷ emitted (Progress.done id (stats_of total)) ∷ []),
    none,
  )

  make_dest : ℕ → List Text → Option Text → Stage
  unfolding conclude
  make_dest total names (some e) = ([], some e)
  make_dest total names none = conclude total (export_from 0 names)

  pub export_stage : ℕ → Option (List Text) → Stage
  unfolding make_dest
  export_stage total none = ([], some (code_points "load collection"))
  export_stage total (some names) = make_dest total names (make_dir dest)

  pub after_download : ℕ → List (ℕ × Progress) × Fetch → Stage
  after_download total (ps, fetched) = after (told_of ps) (export_stage total collection)
  after_download total (ps, stopped) =
      after (told_of ps)
        (status_set Status.cancelled none ∷ emitted (Progress.cancelled id) ∷ [], none)
  after_download total (ps, broken e) = (told_of ps, some e)

  abbrev pub is_partial : Option (List ℕ) → Bool
  is_partial none = false
  is_partial (some idx) = true

  pub fetch_stage : List PathInfo → ℕ → Option Bool → Stage
  unfolding after_download request_of
  fetch_stage paths total none = ([], some (code_points "inspect local store"))
  fetch_stage paths total (some complete) =
      let loaded =
        after (asked (request_of selected missing) ∷ [])
          (after_download total (download id total 0 (route_u8 (route_from_paths paths)) rounds)) in
      let skipped = export_stage total collection in
      if is_partial selected then loaded else if complete then skipped else loaded

  -- The history's entry for the run, while it is active.
  pub new_entry : ℕ → TransferRecord
  new_entry total =
      new_record now id receive
        (elim (file_name dest) [ none ↦ code_points "download" | some n ↦ n ]) ticket hash
        (some dest) none 0 total

  sizes_stage : List PathInfo → Option (List ℕ) → Stage
  unfolding fetch_stage new_entry
  sizes_stage paths none = (sizes_asked hash ∷ [], some (code_points "fetch sizes"))
  sizes_stage paths (some ns) =
      let total = total_of selected ns in
      after (sizes_asked hash ∷ recorded (new_entry total) ∷ [])
        (fetch_stage paths total is_complete)

  reach_stage : Reach → Stage
  unfolding sizes_stage
  reach_stage timed_out =
      ([], some (code_points "can't reach the sender — they may be offline or the link expired"))
  reach_stage (refused e) =
      ([], some (code_points "can't reach the sender (offline or link expired): " ++ e))
  reach_stage (connected paths) = sizes_stage paths sizes

  pub run_receive : Stage
  unfolding reach_stage
  run_receive = reach_stage reach

  -- The task of `spawn_receive`: an error is told, then recorded.
  pub report : Stage → List Effect
  report (es, none) = es
  report (es, some e) = es ++ (emitted (Progress.error id e) ∷ status_set Status.error none ∷ [])

  pub spawn_receive : List Effect
  unfolding report
  spawn_receive = report run_receive
