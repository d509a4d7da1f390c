-- ===== src/Receive/Endings.antt =====
-- How the task of `spawn_receive` in core/src/receive.rs ends: the last events of its stream, and
-- the status that the catalog is left with.
use dropwire.Prelude.{
  ℕ, suc, ◌-◌, ◌≡◌, refl, Bool, true, false, Option, none, some, List, [], ◌∷◌, ◌++◌, if◌then◌else◌,
  if_both, leb, Text, arith, ap, ◌∙◌, ◌⊎◌, inl, inr,
}
use dropwire.Progress.{TransferId, Progress}
use dropwire.Catalog.{Status}
use dropwire.Paths.{export_target, parent}
use dropwire.Connection.{PathInfo, route_from_paths, route_u8, Reach, connected, timed_out, refused}
use dropwire.Preview.{total_of}
use dropwire.Receive.{
  Effect, emitted, status_set, recorded, sizes_asked, asked, exported, Remote, Stage, after, Round,
  is_cancelled, is_done, moves, switches, breaks, Fetch, fetched, stopped, broken, download,
  told_of, request_of, new_entry, is_wanted, export_file, export_from, stats_of, conclude,
  make_dest, export_stage, after_download, is_partial, fetch_stage, sizes_stage, reach_stage,
  run_receive, report, spawn_receive,
}

unfoldable pub is_last : Progress → Bool
is_last (Progress.done id stats) = true
is_last (Progress.error id message) = true
is_last (Progress.cancelled id) = true
is_last _ = false

-- The effects that end a transfer: its last event, and a change of its status.
unfoldable pub endings : List Effect → List Effect
unfolding is_last
endings [] = []
endings (emitted p ∷ es) = if is_last p then emitted p ∷ endings es else endings es
endings (status_set s t ∷ es) = status_set s t ∷ endings es
endings (_ ∷ es) = endings es

endings-append : (es fs : List Effect) → endings (es ++ fs) ≡ endings es ++ endings fs
unfolding endings
endings-append [] fs = refl
endings-append (emitted p ∷ es) fs = ground (arith, endings-append es fs)
endings-append (status_set s t ∷ es) fs = ap (λ l. status_set s t ∷ l) (endings-append es fs)
endings-append (recorded n ∷ es) fs = endings-append es fs
endings-append (sizes_asked k ∷ es) fs = endings-append es fs
endings-append (asked q ∷ es) fs = endings-append es fs
endings-append (exported i t ∷ es) fs = endings-append es fs

-- A stage that ended nothing.
IsSilent : Stage → Type 0
IsSilent s = endings s.0 ≡ []

download-silent :
    (id : TransferId) (total last_emit route_state : ℕ) (rounds : List Round)
    → endings (told_of (download id total last_emit route_state rounds).0) ≡ []
unfolding download endings is_last
download-silent id total last_emit route_state [] = refl
download-silent id total last_emit route_state (is_cancelled ∷ rounds) = refl
download-silent id total last_emit route_state (is_done ∷ rounds) = refl
download-silent id total last_emit route_state (breaks message ∷ rounds) = refl
download-silent id total last_emit route_state (switches paths ∷ rounds) =
    download-silent id total last_emit _ rounds
download-silent id total last_emit route_state (moves at offset ∷ rounds) =
    if_both {A = List (ℕ × Progress) × Fetch} (λ d. endings (told_of d.0) ≡ [])
      (leb 80 (at - last_emit)) (download-silent id total at route_state rounds)
      (download-silent id total last_emit route_state rounds)

module _ (id : TransferId) (dest : Text) (selected : Option (List ℕ)) (r : Remote) where
  open r use {reach, sizes, is_complete, missing, rounds, collection, make_dir, export}

  export_file-IsSilent :
      (i : ℕ) (name target : Text) (e : Option Text) (rest : Stage)
      → IsSilent rest
      → IsSilent (export_file id dest selected r i name target e rest)
  unfolding IsSilent export_file endings
  export_file-IsSilent i name target (some e) rest h = refl
  export_file-IsSilent i name target none rest h =
      if_both {A = Stage} IsSilent (export i target) h refl

  export_from-IsSilent :
      (i : ℕ) (names : List Text) → IsSilent (export_from id dest selected r i names)
  unfolding IsSilent export_from endings
  export_from-IsSilent i [] = refl
  export_from-IsSilent i (name ∷ names) =
      let rest = export_from-IsSilent (suc i) names in
      let target = export_target dest name in
      if_both {A = Stage} IsSilent (is_wanted selected i)
        (export_file-IsSilent i name target (make_dir (parent target)) _ rest) rest

  unfoldable pub done_pair : ℕ → List Effect
  done_pair total =
      status_set Status.done (some total)
      ∷ emitted (Progress.done id (stats_of id dest selected r total))
      ∷ []

  unfoldable pub cancelled_pair : List Effect
  cancelled_pair = status_set Status.cancelled none ∷ emitted (Progress.cancelled id) ∷ []

  unfoldable pub error_pair : Text → List Effect
  error_pair e = emitted (Progress.error id e) ∷ status_set Status.error none ∷ []

  -- A stage has ended the transfer, unless it returns an error.
  pub Ends : Stage → Type 0
  Ends (es, some e) = endings es ≡ []
  Ends (es, none) = ((total : ℕ) × (endings es ≡ done_pair total)) ⊎ (endings es ≡ cancelled_pair)

  after-Ends : (es : List Effect) (s : Stage) → endings es ≡ [] → Ends s → Ends (after es s)
  unfolding Ends
  after-Ends es (fs, some e) q h = endings-append es fs ∙ rw (q, h) refl
  after-Ends es (fs, none) q (inl (total, h)) = inl (total, endings-append es fs ∙ rw (q, h) refl)
  after-Ends es (fs, none) q (inr h) = inr (endings-append es fs ∙ rw (q, h) refl)

  conclude-Ends : (total : ℕ) (s : Stage) → IsSilent s → Ends (conclude id dest selected r total s)
  unfolding Ends IsSilent conclude done_pair endings is_last
  conclude-Ends total (es, some e) h = h
  conclude-Ends total (es, none) h = inl (total, endings-append es _ ∙ rw h refl)

  make_dest-Ends :
      (total : ℕ) (names : List Text) (e : Option Text)
      → Ends (make_dest id dest selected r total names e)
  unfolding Ends make_dest endings
  make_dest-Ends total names (some e) = refl
  make_dest-Ends total names none =
      conclude-Ends total (export_from id dest selected r 0 names) (export_from-IsSilent 0 names)

  export_stage-Ends :
      (total : ℕ) (names : Option (List Text)) → Ends (export_stage id dest selected r total names)
  unfolding Ends export_stage endings
  export_stage-Ends total none = refl
  export_stage-Ends total (some names) = make_dest-Ends total names (make_dir dest)

  after_download-Ends :
      (total : ℕ) (d : List (ℕ × Progress) × Fetch)
      → endings (told_of d.0) ≡ []
      → Ends (after_download id dest selected r total d)
  unfolding after_download Ends cancelled_pair
  after_download-Ends total (ps, fetched) h =
      after-Ends (told_of ps) (export_stage id dest selected r total collection) h
        (export_stage-Ends total collection)
  after_download-Ends total (ps, stopped) h =
      after-Ends (told_of ps) (cancelled_pair, none) h
        (unfold Ends endings cancelled_pair is_last in (inr refl))
  after_download-Ends total (ps, broken e) h = h

  pub fetch_stage-Ends :
      (paths : List PathInfo) (total : ℕ) (complete : Option Bool)
      → Ends (fetch_stage id dest selected r paths total complete)
  unfolding Ends fetch_stage endings
  fetch_stage-Ends paths total none = refl
  fetch_stage-Ends paths total (some complete) =
      let route_state = route_u8 (route_from_paths paths) in
      let loaded =
        after-Ends (asked (request_of selected missing) ∷ [])
          (after_download id dest selected r total (download id total 0 route_state rounds)) refl
          (after_download-Ends total (download id total 0 route_state rounds)
            (download-silent id total 0 route_state rounds)) in
      if_both {A = Stage} Ends (is_partial id dest selected r selected) loaded
        (if_both {A = Stage} Ends complete (export_stage-Ends total collection) loaded)

  sizes_stage-Ends :
      (paths : List PathInfo) (ns : Option (List ℕ))
      → Ends (sizes_stage id dest selected r paths ns)
  unfolding Ends sizes_stage endings
  sizes_stage-Ends paths none = refl
  sizes_stage-Ends paths (some ns) =
      after-Ends
        (sizes_asked r.hash ∷ recorded (new_entry id dest selected r (total_of selected ns)) ∷ [])
        (fetch_stage id dest selected r paths (total_of selected ns) is_complete) refl
        (fetch_stage-Ends paths (total_of selected ns) is_complete)

  reach_stage-Ends : (how : Reach) → Ends (reach_stage id dest selected r how)
  unfolding Ends reach_stage endings
  reach_stage-Ends (connected paths) = sizes_stage-Ends paths sizes
  reach_stage-Ends timed_out = refl
  reach_stage-Ends (refused e) = refl

  -- What the whole task leaves at its end.
  unfoldable pub HasOneEnding : List Effect → Type 0
  HasOneEnding es =
      ((total : ℕ) × (endings es ≡ done_pair total))
      ⊎ (endings es ≡ cancelled_pair)
      ⊎ ((e : Text) × (endings es ≡ error_pair e))

  pub report-HasOneEnding : (s : Stage) → Ends s → HasOneEnding (report id dest selected r s)
  unfolding Ends report HasOneEnding endings is_last error_pair
  report-HasOneEnding (es, none) (inl h) = inl h
  report-HasOneEnding (es, none) (inr h) = inr (inl h)
  report-HasOneEnding (es, some e) h = inr (inr (e, endings-append es _ ∙ rw h refl))

  -- Whatever the connection, the sender, the store and the disk do, and whenever the user cancels,
  -- the task of a receive sends exactly one final event and sets the status of its record exactly
  -- once, and the two agree: done with the total, cancelled, or an error with its message.
  pub spawn_receive-HasOneEnding : HasOneEnding (spawn_receive id dest selected r)
  unfolding spawn_receive run_receive
  spawn_receive-HasOneEnding =
      report-HasOneEnding (reach_stage id dest selected r reach) (reach_stage-Ends reach)
