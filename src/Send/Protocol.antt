-- ===== src/Send/Protocol.antt =====
-- The order of a send's effects in core/src/send.rs, against a state machine of the whole send.
use dropwire.Prelude.{
  ℕ, suc, ◌≡◌, refl, Bool, true, false, Option, none, some, List, [], ◌∷◌, ◌++◌, if◌then◌else◌,
  ◌==◌, ==_refl, text_eq, Text, arith, ap, inl, inr, Bool-cases, Option-cases,
}
use dropwire.Progress.{TransferId, Progress}
use dropwire.Catalog.{Status}
use dropwire.Gate.{ProviderEvent}
use dropwire.Send.{
  Effect, emitted, registered, unserved, unbound, recorded, status_set, Standing, returned, serving,
  failed, Stage, Sender, Turn, is_cancelled, is_closed, told, Listing, wind_up, serve, announce,
  import_from, start_import, run_send, report, send_task, collect_files,
}

-- Before the registration, registered but not announced, announced and serving, no longer served,
-- off the gate again, and told of its end.
pub data Phase : Type 0 where
  importing : Phase
  opened live leaving : (hash_key : Text) → Phase
  closing ended : Phase

-- What may happen while content is served.
while_live : Text → Progress → Option Phase
while_live k (Progress.peer_joined id) = some (live k)
while_live k (Progress.transferring id offset total route) = some (live k)
while_live k (Progress.done id stats) = some (live k)
while_live k _ = none

while_importing : Progress → Option Phase
while_importing (Progress.importing id done total) = some importing
while_importing (Progress.cancelled id) = some ended
while_importing (Progress.error id message) = some ended
while_importing _ = none

announcing : Text → Progress → Option Phase
announcing k (Progress.ready id ticket) = some (live k)
announcing k _ = none

ending : Progress → Option Phase
ending (Progress.cancelled id) = some ended
ending _ = none

emit_in : Phase → Progress → Option Phase
unfolding while_live while_importing announcing ending
emit_in importing p = while_importing p
emit_in (opened k) p = announcing k p
emit_in (live k) p = while_live k p
emit_in (leaving k) p = none
emit_in closing p = ending p
emit_in ended p = none

register_in : Phase → Text → Option Phase
register_in importing k = some (opened k)
register_in _ k = none

unserve_in : Phase → Text → Option Phase
unserve_in (live k) j = if k == j then some (leaving k) else none
unserve_in _ j = none

unbind_in : Phase → Text → Option Phase
unbind_in (leaving k) j = if k == j then some closing else none
unbind_in _ j = none

record_in : Phase → Option Phase
record_in (opened k) = some (opened k)
record_in _ = none

set_in : Phase → Status → Option Phase
set_in (live k) Status.done = some (live k)
set_in closing Status.cancelled = some closing
set_in ended Status.error = some ended
set_in _ _ = none

-- The steps that the order of a send allows; `none` is a violation.
pub step : Phase → Effect → Option Phase
unfolding emit_in register_in unserve_in unbind_in record_in set_in
step p (emitted e) = emit_in p e
step p (registered k) = register_in p k
step p (unserved k) = unserve_in p k
step p (unbound k) = unbind_in p k
step p (recorded r) = record_in p
step p (status_set s t) = set_in p s

pub steps : Phase → List Effect → Option Phase
unfolding step
steps p [] = some p
steps p (e ∷ es) = elim (step p e) [ none ↦ none | some q ↦ steps q es ]

-- Where the machine stands when the send stands so.
pub Ends : Standing → Option Phase → Type 0
Ends returned q = q ≡ some ended
Ends serving q = (k : Text) × (q ≡ some (live k))
Ends (failed e) q = q ≡ some importing

steps-append :
    (p q : Phase) (es fs : List Effect) → steps p es ≡ some q → steps p (es ++ fs) ≡ steps q fs
unfolding steps
steps-append p q [] fs h = ap (λ o. elim o [ none ↦ none | some r ↦ steps r fs ]) h
steps-append p q (e ∷ es) fs h = elim (Option-cases (step p e)) [
  | inl bad ↦ absurd (ground (arith, bad))
  | inr (r, good) ↦ rw (good, steps) (steps-append r q es fs (ground (arith, good)))
]

module _ (id : TransferId) (now : ℕ) (path : Text) (s : Sender) where
  open s use {source, cancelled_before, import, store_collection, turns}

  wind_up-steps :
      (k : Text) (completed : Bool)
      → steps (live k) (wind_up id now path s k completed) ≡ some ended
  unfolding steps wind_up
  wind_up-steps k true = ground (arith, ==_refl k)
  wind_up-steps k false = ground (arith, ==_refl k)

  serve-Ends :
      (k : Text) (total : ℕ) (completed : Bool) (ts : List Turn)
      → let r = serve id now path s k total completed ts in Ends r.1 (steps (live k) r.0)
  unfolding serve steps Ends
  serve-Ends k total completed [] = (k, refl)
  serve-Ends k total completed (is_cancelled ∷ ts) = wind_up-steps k completed
  serve-Ends k total completed (is_closed ∷ ts) = wind_up-steps k completed
  serve-Ends k total completed (told ProviderEvent.peer_joined ∷ ts) =
      serve-Ends k total completed ts
  serve-Ends k total completed (told (ProviderEvent.progress offset t) ∷ ts) =
      serve-Ends k total completed ts
  serve-Ends k total completed (told (ProviderEvent.done bytes nanos) ∷ ts) =
      serve-Ends k total true ts
  serve-Ends k total completed (told ProviderEvent.aborted ∷ ts) = serve-Ends k total completed ts

  announce-Ends :
      (count total : ℕ) (hash : Option Text)
      → let r = announce id now path s count total hash in Ends r.1 (steps importing r.0)
  unfolding announce steps Ends
  announce-Ends count total none = refl
  announce-Ends count total (some k) = serve-Ends k total false turns

  import_from-Ends :
      (total i imported : ℕ) (entries files : List (Text × Text))
      → let r = import_from id now path s total i imported entries files in
        Ends r.1 (steps importing r.0)
  unfolding import_from steps Ends
  import_from-Ends total i imported entries [] = announce-Ends _ total (store_collection entries)
  import_from-Ends total i imported entries ((name, p) ∷ files) =
      elim (Bool-cases (cancelled_before i)) [
        | inl stop ↦ rw stop refl
        | inr on ↦ elim (Option-cases (import p)) [
          | inl lost ↦ rw (on, lost) refl
          | inr (hash, got) ↦
              rw (on, got) (import_from-Ends total (suc i) _ (entries ++ ((name, hash) ∷ [])) files)
        ]
      ]

  start_import-Ends :
      (l : Listing) → let r = start_import id now path s l in Ends r.1 (steps importing r.0)
  unfolding start_import steps Ends
  start_import-Ends (inl e) = refl
  start_import-Ends (inr files) = import_from-Ends _ 0 0 [] files

  report-Ends :
      (r : Stage)
      → Ends r.1 (steps importing r.0)
      → let r' = report id now path s r in Ends r'.1 (steps importing r'.0)
  unfolding report Ends steps
  report-Ends (es, returned) h = h
  report-Ends (es, serving) h = h
  report-Ends (es, failed e) h = steps-append importing importing es _ h

  -- A send keeps to its protocol, whatever the disk, the store, the receivers and the user do: files
  -- are imported first, the content is registered at the gate before its ticket is announced, events
  -- of receivers come only in between, the content is taken off the gate before the end is told, and
  -- the last event is the only one that tells it. A send that has not returned is announced and serving.
  pub send_task-Ends : let r = send_task id now path s in Ends r.1 (steps importing r.0)
  unfolding send_task run_send
  send_task-Ends =
      report-Ends (start_import id now path s (collect_files source path))
        (start_import-Ends (collect_files source path))
