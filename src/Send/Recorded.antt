-- ===== src/Send/Recorded.antt =====
-- What a send of core/src/send.rs leaves in the history of core/src/catalog.rs.
use mathlib.Core.Option
use dropwire.Prelude.{
  ℕ, suc, ◌≡◌, refl, Bool, true, false, Option, none, some, List, [], ◌∷◌, ◌++◌, nat_eq,
  nat_beq_iff, if◌then◌else◌, Text, arith, ap, ◌∙◌, ◌⊎◌, inl, inr, Bool-cases, Option-cases,
}
use dropwire.Progress.{TransferId, Progress}
use dropwire.Catalog
use dropwire.Catalog.{
  Catalog, Status, TransferRecord, Env, new_record, upsert, set_status, with_status,
}
use dropwire.Catalog.Records.{get-upsert, get-set_status}
use dropwire.Gate.{ProviderEvent}
use dropwire.Send.{
  Effect, emitted, registered, unserved, unbound, recorded, status_set, returned, serving, failed,
  Stage, Sender, Turn, is_cancelled, is_closed, told, Listing, announced, wind_up, serve, announce,
  import_from, start_import, run_send, report, send_task, collect_files,
}

-- The status of a send from its serving turns: whether a receiver completed comes before whether the
-- user cancelled.
pub verdict : Bool → List Turn → Status
verdict true [] = Status.done
verdict false [] = Status.active
verdict true (is_cancelled ∷ ts) = Status.done
verdict false (is_cancelled ∷ ts) = Status.cancelled
verdict true (is_closed ∷ ts) = Status.done
verdict false (is_closed ∷ ts) = Status.cancelled
verdict completed (told (ProviderEvent.done bytes nanos) ∷ ts) = verdict true ts
verdict completed (told e ∷ ts) = verdict completed ts

-- Whether the ticket was announced to the user.
pub announces : List Effect → Bool
announces [] = false
announces (emitted (Progress.ready i t) ∷ es) = true
announces (_ ∷ es) = announces es

status_step : Option Status → Effect → Option Status
status_step o (recorded a) = some Status.active
status_step none (status_set st t) = none
status_step (some old) (status_set st t) = some st
status_step o _ = o

status_after : Option Status → List Effect → Option Status
unfolding status_step
status_after o [] = o
status_after o (e ∷ es) = status_after (status_step o e) es

status_after-append :
    (o : Option Status) (es fs : List Effect)
    → status_after o (es ++ fs) ≡ status_after (status_after o es) fs
unfolding status_after
status_after-append o [] fs = refl
status_after-append o (e ∷ es) fs = status_after-append (status_step o e) es fs

announces-append :
    (es fs : List Effect) → announces es ≡ false → announces (es ++ fs) ≡ announces fs
unfolding announces
announces-append [] fs h = refl
announces-append (emitted (Progress.ready i t) ∷ es) fs h = absurd (ground arith)
announces-append (emitted _ ∷ es) fs h = announces-append es fs h
announces-append (registered k ∷ es) fs h = announces-append es fs h
announces-append (unserved k ∷ es) fs h = announces-append es fs h
announces-append (unbound k ∷ es) fs h = announces-append es fs h
announces-append (recorded r ∷ es) fs h = announces-append es fs h
announces-append (status_set st t ∷ es) fs h = announces-append es fs h

status_changed :
    (now : ℕ) (st : Status) (t : Option ℕ) (o : Option TransferRecord)
    → Option.map (λ rec. rec.status) (Option.map (with_status now st t) o)
      ≡ status_step (Option.map (λ rec. rec.status) o) (status_set st t)
unfolding status_step
status_changed now st none none = refl
status_changed now st (some n) none = refl
status_changed now st none (some rec) = refl
status_changed now st (some n) (some rec) = refl

module _ (id : TransferId) (now : ℕ) (path : Text) (s : Sender) where
  open s use {source, cancelled_before, import, store_collection, turns}

  standing_status : Bool → Status
  standing_status true = Status.done
  standing_status false = Status.active

  serve-verdict :
      (k : Text) (total : ℕ) (completed : Bool) (ts : List Turn)
      → status_after (some (standing_status completed)) (serve id now path s k total completed ts).0
        ≡ some (verdict completed ts)
  unfolding serve status_after status_step standing_status verdict wind_up
  serve-verdict k total true [] = refl
  serve-verdict k total false [] = refl
  serve-verdict k total true (is_cancelled ∷ ts) = refl
  serve-verdict k total false (is_cancelled ∷ ts) = refl
  serve-verdict k total true (is_closed ∷ ts) = refl
  serve-verdict k total false (is_closed ∷ ts) = refl
  serve-verdict k total completed (told ProviderEvent.peer_joined ∷ ts) =
      serve-verdict k total completed ts
  serve-verdict k total completed (told (ProviderEvent.progress offset t) ∷ ts) =
      serve-verdict k total completed ts
  serve-verdict k total completed (told (ProviderEvent.done bytes nanos) ∷ ts) =
      serve-verdict k total true ts
  serve-verdict k total completed (told ProviderEvent.aborted ∷ ts) =
      serve-verdict k total completed ts

  never_fails :
      (k : Text) (total : ℕ) (completed : Bool) (ts : List Turn) (e : Text)
      → (serve id now path s k total completed ts).1 ≡ failed e
      → ⊥
  unfolding serve
  never_fails k total completed [] e h = ground arith
  never_fails k total completed (is_cancelled ∷ ts) e h = ground arith
  never_fails k total completed (is_closed ∷ ts) e h = ground arith
  never_fails k total completed (told ProviderEvent.peer_joined ∷ ts) e h =
      never_fails k total completed ts e h
  never_fails k total completed (told (ProviderEvent.progress offset t) ∷ ts) e h =
      never_fails k total completed ts e h
  never_fails k total completed (told (ProviderEvent.done bytes nanos) ∷ ts) e h =
      never_fails k total true ts e h
  never_fails k total completed (told ProviderEvent.aborted ∷ ts) e h =
      never_fails k total completed ts e h

  -- What a stage that starts with no record leaves.
  IsUnannounced : Stage → Type 0
  IsUnannounced r = (announces r.0 ≡ false) × (status_after none r.0 ≡ none)

  IsAnnounced : Stage → Type 0
  IsAnnounced r =
      (announces r.0 ≡ true)
      × (status_after none r.0 ≡ some (verdict false turns))
      × ((e : Text) → r.1 ≡ failed e → ⊥)

  announce-either :
      (count total : ℕ) (hash : Option Text)
      → let r = announce id now path s count total hash in IsUnannounced r ⊎ IsAnnounced r
  unfolding announce IsUnannounced IsAnnounced announces status_after status_step standing_status
  announce-either count total none = inl (refl, refl)
  announce-either count total (some k) =
      inr (refl, serve-verdict k total false turns, never_fails k total false turns)

  import_from-either :
      (total i imported : ℕ) (entries files : List (Text × Text))
      → let r = import_from id now path s total i imported entries files in
        IsUnannounced r ⊎ IsAnnounced r
  unfolding import_from IsUnannounced IsAnnounced announces status_after status_step
  import_from-either total i imported entries [] =
      announce-either _ total (store_collection entries)
  import_from-either total i imported entries ((name, p) ∷ files) =
      elim (Bool-cases (cancelled_before i)) [
        | inl stop ↦ rw stop (inl (refl, refl))
        | inr on ↦ elim (Option-cases (import p)) [
          | inl lost ↦ rw (on, lost) (inl (refl, refl))
          | inr (hash, got) ↦
              rw (on, got)
                (import_from-either total (suc i) _ (entries ++ ((name, hash) ∷ [])) files)
        ]
      ]

  start_import-either :
      (l : Listing) → let r = start_import id now path s l in IsUnannounced r ⊎ IsAnnounced r
  unfolding start_import IsUnannounced announces status_after
  start_import-either (inl e) = inl (refl, refl)
  start_import-either (inr files) = import_from-either _ 0 0 [] files

  -- The status that the whole task leaves.
  pub left_status : List Effect → Option Status
  left_status es = if announces es then some (verdict false turns) else none

  report-status :
      (r : Stage)
      → IsUnannounced r ⊎ IsAnnounced r
      → let es = (report id now path s r).0 in status_after none es ≡ left_status es
  unfolding report IsUnannounced IsAnnounced left_status announces
  report-status (es, returned) (inl (a, u)) = rw a u
  report-status (es, returned) (inr (a, u, f)) = rw a u
  report-status (es, serving) (inl (a, u)) = rw a u
  report-status (es, serving) (inr (a, u, f)) = rw a u
  report-status (es, failed e) (inl (a, u)) =
      let fs = emitted (Progress.error id e) ∷ status_set Status.error none ∷ [] in
      rw (announces-append es fs a) (
        status_after-append none es fs
        ∙ ap (λ o. status_after o fs) u
        ∙ unfold status_after status_step in refl)
  report-status (es, failed e) (inr (a, u, f)) = absurd (f e refl)

  send_task-left : let es = (send_task id now path s).0 in status_after none es ≡ left_status es
  unfolding send_task run_send
  send_task-left =
      report-status (start_import id now path s (collect_files source path))
        (start_import-either (collect_files source path))

  module _ (env : Env) (fs : env.Fs) where
    -- What an effect does to the history.
    pub apply_history : Catalog → Effect → Catalog
    apply_history cat (recorded a) = (upsert env now (announced id now path s a) cat fs).0
    apply_history cat (status_set st t) = (set_status env now id st t cat fs).0
    apply_history cat _ = cat

    pub replay : Catalog → List Effect → Catalog
    unfolding apply_history
    replay cat [] = cat
    replay cat (e ∷ es) = replay (apply_history cat e) es

    pub found_status : Catalog → Option Status
    found_status cat = Option.map (λ rec. rec.status) (Catalog.get env id cat)

    apply_history-status :
        (cat : Catalog) (e : Effect)
        → found_status (apply_history cat e) ≡ status_step (found_status cat) e
    unfolding apply_history found_status status_step announced new_record
    apply_history-status cat (recorded a) =
        ap (Option.map (λ rec. rec.status))
          (get-upsert env now (announced id now path s a) cat fs id)
        ∙ ground (arith, nat_beq_iff id id)
    apply_history-status cat (status_set st t) =
        ap (Option.map (λ rec. rec.status))
          (get-set_status env now id st t cat fs id ∙ ground (arith, nat_beq_iff id id))
        ∙ status_changed now st t (Catalog.get env id cat)
    apply_history-status cat (emitted p) = refl
    apply_history-status cat (registered k) = refl
    apply_history-status cat (unserved k) = refl
    apply_history-status cat (unbound k) = refl

    replay-status :
        (cat : Catalog) (es : List Effect)
        → found_status (replay cat es) ≡ status_after (found_status cat) es
    unfolding replay status_after
    replay-status cat [] = refl
    replay-status cat (e ∷ es) =
        replay-status (apply_history cat e) es
        ∙ ap (λ o. status_after o es) (apply_history-status cat e)

    -- A new send leaves a record in the history exactly if it announces its ticket to the user.
    -- The record is then active while it serves, done once a receiver has completed, whatever the
    -- user does later, and cancelled where the serving ended before that.
    pub send_task-status :
        (cat : Catalog)
        → Catalog.get env id cat ≡ none
        → let es = (send_task id now path s).0 in found_status (replay cat es) ≡ left_status es
    unfolding found_status
    send_task-status cat new =
        replay-status cat (send_task id now path s).0
        ∙ ap (λ o. status_after (Option.map (λ rec. rec.status) o) (send_task id now path s).0) new
        ∙ send_task-left
