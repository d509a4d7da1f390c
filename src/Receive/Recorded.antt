-- ===== src/Receive/Recorded.antt =====
-- What a receive of core/src/receive.rs leaves in the history of core/src/catalog.rs.
use mathlib.Core.Option
use dropwire.Prelude.{
  ℕ, ◌≡◌, refl, Option, none, some, List, [], ◌∷◌, nat_eq, nat_beq_iff, Text, code_points, arith,
  ap, ◌∙◌, sym, inl, inr, All, if_both,
}
use dropwire.Progress.{TransferId, Progress, receive}
use dropwire.Catalog
use dropwire.Catalog.{
  Catalog, Status, TransferRecord, Env, new_record, upsert, set_status, with_status,
}
use dropwire.Catalog.Records.{get-upsert, get-set_status}
use dropwire.Connection.{PathInfo, Reach, connected, timed_out, refused}
use dropwire.Preview.{total_of}
use dropwire.Send.{file_name}
use dropwire.Receive.{
  Effect, emitted, status_set, recorded, sizes_asked, asked, exported, Remote, Stage, after,
  fetch_stage, sizes_stage, reach_stage, run_receive, new_entry, report, spawn_receive,
}
use dropwire.Receive.Every.{fetch_stage-Every, report-Every}
use dropwire.Receive.Endings.{
  is_last, endings, HasOneEnding, report-HasOneEnding, fetch_stage-Ends, done_pair, cancelled_pair,
  error_pair,
}

-- What an effect does to the history, the time of a change given.
module _ (env : Env) (fs : env.Fs) (now : ℕ) (id : TransferId) where
  pub apply_history : Catalog → Effect → Catalog
  apply_history cat (recorded rec) = (upsert env now rec cat fs).0
  apply_history cat (status_set st t) = (set_status env now id st t cat fs).0
  apply_history cat _ = cat

  pub replay : Catalog → List Effect → Catalog
  unfolding apply_history
  replay cat [] = cat
  replay cat (e ∷ es) = replay (apply_history cat e) es

-- The record of a transfer alone.
abbrev pub set_record : ℕ → Option TransferRecord → Effect → Option TransferRecord
set_record now o (recorded rec) = some (record rec { updated_at = now })
set_record now o (status_set st t) = Option.map (with_status now st t) o
set_record now o _ = o

-- What the user was told last, as a status with the bytes of it.
pub told_status : List Effect → Option (Status × Option ℕ)
told_status [] = none
told_status (emitted (Progress.done id stats) ∷ es) = some (Status.done, some stats.bytes)
told_status (emitted (Progress.error id message) ∷ es) = some (Status.error, none)
told_status (emitted (Progress.cancelled id) ∷ es) = some (Status.cancelled, none)
told_status (_ ∷ es) = told_status es

-- The record of a run, field by field: none without a connection and sizes.
pub entry_of :
    TransferId → Text → Option (List ℕ) → Remote → Reach → Option (List ℕ) → Option TransferRecord
entry_of id dest selected r (connected paths) (some ns) = some (record {
  id = id;
  direction = receive;
  name = elim (file_name dest) [ none ↦ code_points "download" | some n ↦ n ];
  ticket = r.ticket;
  hash = r.hash;
  dest = some dest;
  source = none;
  file_count = 0;
  total_bytes = total_of selected ns;
  transferred = 0;
  status = Status.active;
  created_at = r.now;
  updated_at = r.now;
})
entry_of id dest selected r _ _ = none

-- The record with the status that the user was told.
pub left_record : ℕ → Option TransferRecord → Option (Status × Option ℕ) → Option TransferRecord
left_record now none told = none
left_record now (some rec) none = some (record rec { updated_at = now })
left_record now (some rec) (some (st, t)) =
    some (with_status now st t (record rec { updated_at = now }))

record_after : ℕ → Option TransferRecord → List Effect → Option TransferRecord
record_after now o [] = o
record_after now o (e ∷ es) = record_after now (set_record now o e) es

abbrev NotRecorded : Effect → Type 0
NotRecorded (recorded rec) = ⊥
NotRecorded _ = Unit {0}

record_after-endings :
    (now : ℕ) (o : Option TransferRecord) (es : List Effect)
    → All NotRecorded es
    → record_after now o es ≡ record_after now o (endings es)
unfolding record_after endings
record_after-endings now o [] n = refl
record_after-endings now o (emitted p ∷ es) n =
    record_after-endings now o es n.1
    ∙ if_both (λ fs. record_after now o (endings es) ≡ record_after now o fs) (is_last p) refl refl
record_after-endings now o (status_set st t ∷ es) n =
    record_after-endings now (set_record now o (status_set st t)) es n.1
record_after-endings now o (recorded rec ∷ es) n = absurd n.0
record_after-endings now o (sizes_asked k ∷ es) n = record_after-endings now o es n.1
record_after-endings now o (asked q ∷ es) n = record_after-endings now o es n.1
record_after-endings now o (exported i t ∷ es) n = record_after-endings now o es n.1

told_status-endings : (es : List Effect) → told_status es ≡ told_status (endings es)
unfolding told_status endings is_last
told_status-endings [] = refl
told_status-endings (emitted (Progress.importing id d t) ∷ es) = told_status-endings es
told_status-endings (emitted (Progress.ready id t) ∷ es) = told_status-endings es
told_status-endings (emitted (Progress.peer_joined id) ∷ es) = told_status-endings es
told_status-endings (emitted (Progress.transferring id o t route) ∷ es) = told_status-endings es
told_status-endings (emitted (Progress.done id stats) ∷ es) = refl
told_status-endings (emitted (Progress.error id e) ∷ es) = refl
told_status-endings (emitted (Progress.cancelled id) ∷ es) = refl
told_status-endings (status_set st t ∷ es) = told_status-endings es
told_status-endings (recorded rec ∷ es) = told_status-endings es
told_status-endings (sizes_asked k ∷ es) = told_status-endings es
told_status-endings (asked q ∷ es) = told_status-endings es
told_status-endings (exported i t ∷ es) = told_status-endings es

module _ (id : TransferId) (dest : Text) (selected : Option (List ℕ)) (r : Remote) (now : ℕ) where
  one_ending :
      (rec : TransferRecord) (es : List Effect)
      → All NotRecorded es
      → HasOneEnding id dest selected r es
      → record_after now (some (record rec { updated_at = now })) es
        ≡ left_record now (some rec) (told_status es)
  unfolding HasOneEnding record_after told_status left_record done_pair cancelled_pair error_pair
  one_ending rec es n h =
      record_after-endings now _ es n
      ∙ at_end h
      ∙ sym (ap (left_record now (some rec)) (told_status-endings es))
    where
      at_end :
          HasOneEnding id dest selected r es
          → record_after now (some (record rec { updated_at = now })) (endings es)
            ≡ left_record now (some rec) (told_status (endings es))
      at_end (inl (total, e)) = rw e refl
      at_end (inr (inl e)) = rw e refl
      at_end (inr (inr (x, e))) = rw e refl

  -- From the record on, the history follows its own run.
  reached :
      (paths : List PathInfo) (ns : List ℕ)
      → let rec = new_entry id dest selected r (total_of selected ns) in
        let es =
          report id dest selected r
            (fetch_stage id dest selected r paths (total_of selected ns) r.is_complete) in
        record_after now (some (record rec { updated_at = now })) es
        ≡ left_record now (some rec) (told_status es)
  reached paths ns =
      let total = total_of selected ns in
      let s = fetch_stage id dest selected r paths total r.is_complete in
      one_ending (new_entry id dest selected r total) (report id dest selected r s)
        (report-Every id dest selected r NotRecorded (λ p. tt) (λ st t. tt) tt (λ i t h. tt) s
          (fetch_stage-Every id dest selected r NotRecorded (λ p. tt) (λ st t. tt) tt (λ i t h. tt)
            paths total r.is_complete))
        (report-HasOneEnding id dest selected r s
          (fetch_stage-Ends id dest selected r paths total r.is_complete))

  report-after :
      (e f : Effect) (s : Stage)
      → report id dest selected r (after (e ∷ f ∷ []) s) ≡ e ∷ f ∷ report id dest selected r s
  unfolding report
  report-after e f (es, none) = refl
  report-after e f (es, some x) = refl

  stages :
      (how : Reach) (ns : Option (List ℕ))
      → r.sizes ≡ ns
      → let es = report id dest selected r (reach_stage id dest selected r how) in
        record_after now none es
        ≡ left_record now (entry_of id dest selected r how ns) (told_status es)
  unfolding reach_stage sizes_stage report entry_of record_after left_record told_status new_entry
      new_record
  stages timed_out ns e = refl
  stages (refused m) ns e = refl
  stages (connected paths) none e = rw (e, sizes_stage) refl
  stages (connected paths) (some ns) e =
      rw (e, sizes_stage)
        (rw
          (report-after (sizes_asked r.hash)
            (recorded (new_entry id dest selected r (total_of selected ns)))
            (fetch_stage id dest selected r paths (total_of selected ns) r.is_complete))
          (reached paths ns))

  -- A record is made for the run's own id.
  IsOwn : Effect → Type 0
  IsOwn (recorded rec) = rec.id ≡ id
  IsOwn _ = Unit {0}

  sizes_stage-IsOwn :
      (paths : List PathInfo) (ns : Option (List ℕ))
      → All IsOwn (sizes_stage id dest selected r paths ns).0
  unfolding sizes_stage IsOwn new_entry new_record
  sizes_stage-IsOwn paths none = (tt, tt)
  sizes_stage-IsOwn paths (some ns) = (
    tt,
    (
      refl,
      fetch_stage-Every id dest selected r IsOwn (λ p. tt) (λ st t. tt) tt (λ i t h. tt) paths
          (total_of selected ns) r.is_complete,
    ),
  )

  reach_stage-IsOwn : (how : Reach) → All IsOwn (reach_stage id dest selected r how).0
  unfolding reach_stage
  reach_stage-IsOwn (connected paths) = sizes_stage-IsOwn paths r.sizes
  reach_stage-IsOwn timed_out = tt
  reach_stage-IsOwn (refused m) = tt

  spawn_receive-IsOwn : All IsOwn (spawn_receive id dest selected r)
  unfolding spawn_receive run_receive IsOwn
  spawn_receive-IsOwn =
      report-Every id dest selected r IsOwn (λ p. tt) (λ st t. tt) tt (λ i t h. tt)
        (reach_stage id dest selected r r.reach) (reach_stage-IsOwn r.reach)

  module _ (env : Env) (fs : env.Fs) where
    apply-record :
        (cat : Catalog) (e : Effect)
        → IsOwn e
        → Catalog.get env id (apply_history env fs now id cat e)
          ≡ set_record now (Catalog.get env id cat) e
    unfolding apply_history IsOwn
    apply-record cat (recorded rec) own_id =
        get-upsert env now rec cat fs id ∙ ground (arith, own_id, nat_beq_iff rec.id id)
    apply-record cat (status_set st t) h =
        get-set_status env now id st t cat fs id ∙ ground (arith, nat_beq_iff id id)
    apply-record cat (emitted p) h = refl
    apply-record cat (sizes_asked k) h = refl
    apply-record cat (asked q) h = refl
    apply-record cat (exported i t) h = refl

    replay-record :
        (cat : Catalog) (es : List Effect)
        → All IsOwn es
        → Catalog.get env id (replay env fs now id cat es)
          ≡ record_after now (Catalog.get env id cat) es
    unfolding replay record_after
    replay-record cat [] h = refl
    replay-record cat (e ∷ es) h =
        replay-record (apply_history env fs now id cat e) es h.1
        ∙ ap (λ o. record_after now o es) (apply-record cat e h.0)

    -- The history and the user are told the same of a receive. A receive that gets no connection or
    -- no sizes leaves no record. Any other leaves one record, received under its ticket and hash into
    -- its destination and named after it, with its time and its total, with the status of the last
    -- event that the user was sent and, where it is done, the bytes of that event.
    pub spawn_receive-record :
        (cat : Catalog)
        → Catalog.get env id cat ≡ none
        → let es = spawn_receive id dest selected r in
          Catalog.get env id (replay env fs now id cat es)
          ≡ left_record now (entry_of id dest selected r r.reach r.sizes) (told_status es)
    unfolding spawn_receive run_receive
    spawn_receive-record cat new =
        replay-record cat (spawn_receive id dest selected r) spawn_receive-IsOwn
        ∙ ap (λ o. record_after now o (spawn_receive id dest selected r)) new
        ∙ stages r.reach r.sizes refl
