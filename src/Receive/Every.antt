-- ===== src/Receive/Every.antt =====
-- What holds of every single effect of a run of core/src/receive.rs holds of the run.
use dropwire.Prelude.{
  ℕ, suc, ◌≡◌, inl, inr, Bool, true, Option, none, some, List, [], ◌∷◌, All, All-append, Text,
  if_both, Bool-cases, nat_eq,
}
use dropwire.Progress.{TransferId, Progress}
use dropwire.Catalog.{Status, TransferRecord}
use dropwire.Paths.{export_target, parent}
use dropwire.Preview.{total_of}
use dropwire.Connection.{Reach, connected, timed_out, refused, PathInfo, route_from_paths, route_u8}
use dropwire.Receive.{
  Effect, emitted, status_set, sizes_asked, asked, exported, Remote, Stage, after, Fetch, fetched,
  stopped, broken, download, told_of, request_of, is_wanted, export_file, export_from, conclude,
  make_dest, export_stage, after_download, is_partial, fetch_stage, report, recorded, sizes_stage,
  reach_stage, run_receive, spawn_receive,
}

module _ (id : TransferId) (dest : Text) (selected : Option (List ℕ)) (r : Remote)
    (P : Effect → Type 0) (emits : (p : Progress) → P (emitted p))
    (sets : (st : Status) (t : Option ℕ) → P (status_set st t))
    (asks : P (asked (request_of selected r.missing)))
    (writes : (i : ℕ) (name : Text)
      → is_wanted selected i ≡ true
      → P (exported i (export_target dest name))) where
  open r use {reach, sizes, is_complete, missing, rounds, collection, make_dir, export}

  abbrev pub Every : Stage → Type 0
  Every s = All P s.0

  after-Every : (es : List Effect) (s : Stage) → All P es → Every s → Every (after es s)
  after-Every es (fs, e) h k = All-append P es fs h k

  told-Every : (ps : List (ℕ × Progress)) → All P (told_of ps)
  told-Every [] = tt
  told-Every (e ∷ ps) = (emits e.1, told-Every ps)

  export_file-Every :
      (i : ℕ) (name : Text) (e : Option Text) (rest : Stage)
      → is_wanted selected i ≡ true
      → Every rest
      → Every (export_file id dest selected r i name (export_target dest name) e rest)
  unfolding export_file
  export_file-Every i name (some e) rest h k = tt
  export_file-Every i name none rest h k =
      if_both {A = Stage} Every (export i (export_target dest name))
        (after-Every (exported i (export_target dest name) ∷ []) rest (writes i name h, tt) k) tt

  export_from-Every : (i : ℕ) (names : List Text) → Every (export_from id dest selected r i names)
  unfolding export_from
  export_from-Every i [] = tt
  export_from-Every i (name ∷ names) =
      let later = export_from-Every (suc i) names in
      let target = export_target dest name in
      elim (Bool-cases (is_wanted selected i)) [
        | inl chosen ↦ rw (chosen) (
            export_file-Every i name (make_dir (parent target))
              (export_from id dest selected r (suc i) names) chosen later)
        | inr left ↦ rw (left) later
      ]

  conclude-Every : (total : ℕ) (s : Stage) → Every s → Every (conclude id dest selected r total s)
  unfolding conclude
  conclude-Every total (es, some e) k = k
  conclude-Every total (es, none) k = All-append P es _ k (sets _ _, (emits _, tt))

  make_dest-Every :
      (total : ℕ) (names : List Text) (e : Option Text)
      → Every (make_dest id dest selected r total names e)
  unfolding make_dest
  make_dest-Every total names (some e) = tt
  make_dest-Every total names none =
      conclude-Every total (export_from id dest selected r 0 names) (export_from-Every 0 names)

  export_stage-Every :
      (total : ℕ) (names : Option (List Text)) → Every (export_stage id dest selected r total names)
  unfolding export_stage
  export_stage-Every total none = tt
  export_stage-Every total (some names) = make_dest-Every total names (make_dir dest)

  after_download-Every :
      (total : ℕ) (d : List (ℕ × Progress) × Fetch)
      → Every (after_download id dest selected r total d)
  unfolding after_download
  after_download-Every total (ps, fetched) =
      after-Every (told_of ps) (export_stage id dest selected r total collection) (told-Every ps)
        (export_stage-Every total collection)
  after_download-Every total (ps, stopped) =
      All-append P (told_of ps) _ (told-Every ps) (sets _ _, (emits _, tt))
  after_download-Every total (ps, broken e) = told-Every ps

  -- Each effect of a run behind its record.
  pub fetch_stage-Every :
      (paths : List PathInfo) (total : ℕ) (complete : Option Bool)
      → Every (fetch_stage id dest selected r paths total complete)
  unfolding fetch_stage request_of
  fetch_stage-Every paths total none = tt
  fetch_stage-Every paths total (some complete) =
      let route_state = route_u8 (route_from_paths paths) in
      let loaded =
        after-Every (asked (request_of selected missing) ∷ [])
          (after_download id dest selected r total (download id total 0 route_state rounds))
          (asks, tt) (after_download-Every total (download id total 0 route_state rounds)) in
      if_both {A = Stage} Every (is_partial id dest selected r selected) loaded
        (if_both {A = Stage} Every complete (export_stage-Every total collection) loaded)

  -- Each effect of a whole task is the record, or one of these.
  pub report-Every : (s : Stage) → Every s → All P (report id dest selected r s)
  unfolding report
  report-Every (es, none) k = k
  report-Every (es, some e) k = All-append P es _ k (emits _, (sets _ _, tt))

  module _ (records : (e : TransferRecord) → P (recorded e))
      (sizes_asks : (k : Text) → P (sizes_asked k)) where
    sizes_stage-Every :
        (paths : List PathInfo) (ns : Option (List ℕ))
        → Every (sizes_stage id dest selected r paths ns)
    unfolding sizes_stage
    sizes_stage-Every paths none = (sizes_asks r.hash, tt)
    sizes_stage-Every paths (some ns) =
        (sizes_asks r.hash, (records _, fetch_stage-Every paths (total_of selected ns) is_complete))

    reach_stage-Every : (how : Reach) → Every (reach_stage id dest selected r how)
    unfolding reach_stage
    reach_stage-Every (connected paths) = sizes_stage-Every paths sizes
    reach_stage-Every timed_out = tt
    reach_stage-Every (refused e) = tt

    -- Each effect of a whole task.
    pub spawn_receive-Every : All P (spawn_receive id dest selected r)
    unfolding spawn_receive run_receive
    spawn_receive-Every =
        report-Every (reach_stage id dest selected r reach) (reach_stage-Every reach)
