-- ===== src/Send.antt =====
-- core/src/send.rs, the sending side: which files are sent under which names, and the run from
-- their import to the end of the serving. What the disk and the blob store answer is a parameter;
-- what the run does to the event stream, the catalog and the gate is a list of effects, in order.
pub mod Files
pub mod Protocol
pub mod Recorded
mod Tests
use dropwire.Prelude.{
  ℕ, suc, ◌+◌, ◌%◌, ◌^◌, Bool, true, false, Option, none, some, List, [], ◌∷◌, ◌++◌, map,
  if◌then◌else◌, ltb, ◌==◌, nat_eq, text_eq, Text, code_points, length, sum, ◌⊎◌, inl, inr,
}
use dropwire.Prelude.Order.{text_leb}
use dropwire.Prelude.Sort.{sort_by}
use dropwire.Progress.{TransferId, Progress, send, unknown}
use dropwire.Catalog.{Status, TransferRecord, new_record}
use dropwire.Gate.{ProviderEvent}
use dropwire.Paths.{Component, root_dir, cur_dir, parent_dir, normal, components, forward_slashes}

-- `std::path`: the last component, if it is a name.
last_name : Option Text → List Component → Option Text
last_name found [] = found
last_name found (normal c ∷ cs) = last_name (some c) cs
last_name found (_ ∷ cs) = last_name none cs

pub file_name : Text → Option Text
unfolding last_name
file_name path = last_name none (components path)

pub component_text : Component → Text
component_text root_dir = code_points "/"
component_text cur_dir = code_points "."
component_text parent_dir = code_points ".."
component_text (normal c) = c

-- `strip_prefix`, component by component, and the text of what is left.
strip_components : List Component → List Component → Option (List Component)
unfolding component_text
strip_components [] cs = some cs
strip_components (p ∷ ps) [] = none
strip_components (p ∷ ps) (c ∷ cs) =
    if component_text p == component_text c then strip_components ps cs else none

path_text : List Component → Text
unfolding component_text
path_text [] = []
path_text (c ∷ []) = component_text c
path_text (c ∷ d ∷ cs) = component_text c ++ (b'/' ∷ path_text (d ∷ cs))

pub relative_to : Text → Text → Text
unfolding strip_components path_text
relative_to path whole = elim (strip_components (components path) (components whole)) [
  | none ↦ whole
  | some cs ↦ path_text cs
]

-- What `WalkDir` yields, in its order: an entry below the folder, or an error.
pub data Walked : Type 0 where
  entry : (path : Text) (is_file : Bool) → Walked
  fails : (message : Text) → Walked

-- The disk as the sender looks at it: `metadata`, with whether it is a file, and the walk.
pub record Source : Type 0 where
  pub metadata : Text → Option Bool
  pub walk : Text → List Walked

pub named : Text → Text → Text
named [] rel = rel
named (c ∷ base) rel = (c ∷ base) ++ (b'/' ∷ rel)

abbrev pub Listing : Type 0
Listing = Text ⊎ List (Text × Text)

abbrev pub cons_file : Text × Text → Listing → Listing
cons_file f (inl e) = inl e
cons_file f (inr fs) = inr (f ∷ fs)

-- The loop over the walk, as far as its first error.
pub gather : Text → Text → List Walked → Listing
unfolding relative_to named
gather path base [] = inr []
gather path base (fails e ∷ ws) = inl e
gather path base (entry p is_file ∷ ws) =
    let rest = gather path base ws in
    if is_file then cons_file (named base (forward_slashes (relative_to path p)), p) rest else rest

pub by_name : Text × Text → Text × Text → Bool
by_name a b = text_leb a.0 b.0

pub sorted : Listing → Listing
unfolding by_name
sorted (inl e) = inl e
sorted (inr fs) = inr (sort_by by_name fs)

single_file : Text → Option Text → Listing
single_file path none = inl (code_points "file has no name")
single_file path (some name) = inr ((name, path) ∷ [])

abbrev pub or_empty : Option Text → Text
or_empty none = []
or_empty (some t) = t

listing_of : Source → Text → Option Bool → Listing
unfolding single_file sorted gather
listing_of s path none = inl (code_points "stat " ++ path)
listing_of s path (some is_file) =
    if is_file
    then single_file path (file_name path)
    else sorted (gather path (or_empty (file_name path)) (s.walk path))

pub collect_files : Source → Text → Listing
unfolding listing_of
collect_files s path = listing_of s path (s.metadata path)

-- One turn of the serving `select!`: the token is cancelled, the event channel is closed, or an
-- event comes.
pub data Turn : Type 0 where
  is_cancelled is_closed : Turn
  told : ProviderEvent → Turn

-- What a send meets: the length of a file, whether its token is cancelled before the file with an
-- index, the hash that an import gives, the hash of the stored collection, the ticket's text for a
-- hash, and the turns of the serving loop so far.
pub record Sender : Type 0 where
  pub source : Source
  pub file_len : Text → ℕ
  pub cancelled_before : ℕ → Bool
  pub import : Text → Option Text
  pub store_collection : List (Text × Text) → Option Text
  pub mint : Text → Text
  pub turns : List Turn

-- What the record of an announced send is made of, beside the send itself.
pub record Announcement : Type 0 where
  pub files_count : ℕ
  pub total : ℕ
  pub hash_key : Text

pub data Effect : Type 0 where
  emitted : Progress → Effect
  registered unserved unbound : (hash_key : Text) → Effect
  recorded : Announcement → Effect
  status_set : Status → Option ℕ → Effect

-- How a send stands: it returned, it failed with an error, or it is still serving.
pub data Standing : Type 0 where
  returned serving : Standing
  failed : (message : Text) → Standing

abbrev pub Stage : Type 0
Stage = List Effect × Standing

abbrev pub after : List Effect → Stage → Stage
after es (fs, s) = (es ++ fs, s)

abbrev pub add_u64 : ℕ → ℕ → ℕ
add_u64 a b = (a + b) % 2 ^ 64

module _ (id : TransferId) (now : ℕ) (path : Text) (s : Sender) where
  open s use {source, file_len, cancelled_before, import, store_collection, mint, turns}

  -- The end of `run_send`. The content is taken off `serving` and then off `bound`, each under its
  -- own lock: provider messages may be handled in between.
  pub wind_up : Text → Bool → List Effect
  wind_up hash_key completed =
      unserved hash_key
      ∷ unbound hash_key
      ∷ (if completed
          then emitted (Progress.cancelled id) ∷ []
          else status_set Status.cancelled none ∷ emitted (Progress.cancelled id) ∷ [])

  -- The announced size, where the receiver's is not known.
  abbrev pub shown_total : ℕ → ℕ → ℕ
  shown_total total t = if ltb 0 t then t else total

  -- The serving loop, with `completed`.
  pub serve : Text → ℕ → Bool → List Turn → Stage
  unfolding wind_up
  serve hash_key total completed [] = ([], serving)
  serve hash_key total completed (is_cancelled ∷ ts) = (wind_up hash_key completed, returned)
  serve hash_key total completed (is_closed ∷ ts) = (wind_up hash_key completed, returned)
  serve hash_key total completed (told ProviderEvent.peer_joined ∷ ts) =
      after (emitted (Progress.peer_joined id) ∷ []) (serve hash_key total completed ts)
  serve hash_key total completed (told (ProviderEvent.progress offset t) ∷ ts) =
      after (emitted (Progress.transferring id offset (shown_total total t) unknown) ∷ [])
        (serve hash_key total completed ts)
  serve hash_key total completed (told (ProviderEvent.done bytes nanos) ∷ ts) =
      after
        (status_set Status.done (some bytes)
          ∷ emitted (Progress.done id (record { bytes = bytes; nanos = nanos }))
          ∷ [])
        (serve hash_key total true ts)
  serve hash_key total completed (told ProviderEvent.aborted ∷ ts) =
      serve hash_key total completed ts

  -- The record of the announced send.
  pub announced : Announcement → TransferRecord
  announced a =
      new_record now id send (elim (file_name path) [ none ↦ code_points "transfer" | some n ↦ n ])
        (mint a.hash_key) a.hash_key none (some path) a.files_count a.total

  announce : ℕ → ℕ → Option Text → Stage
  unfolding serve
  announce files_count total none = ([], failed (code_points "store collection"))
  announce files_count total (some hash_key) =
      after
        (registered hash_key
          ∷ recorded (record { files_count = files_count; total = total; hash_key = hash_key })
          ∷ emitted (Progress.ready id (mint hash_key))
          ∷ [])
        (serve hash_key total false turns)

  -- The import loop, with the entries so far, `imported`, and the index of the next file.
  pub import_from : ℕ → ℕ → ℕ → List (Text × Text) → List (Text × Text) → Stage
  unfolding announce
  import_from total i imported entries [] =
      announce (length entries) total (store_collection entries)
  import_from total i imported entries ((name, p) ∷ files) =
      let done = add_u64 imported (file_len p) in
      let next =
        λ (hash : Text). import_from total (suc i) done (entries ++ ((name, hash) ∷ [])) files in
      if cancelled_before i
      then (emitted (Progress.cancelled id) ∷ [], returned)
      else elim (import p) [
        | none ↦ ([], failed (code_points "import " ++ p))
        | some hash ↦ after (emitted (Progress.importing id done total) ∷ []) (next hash)
      ]

  total_of : List (Text × Text) → ℕ
  total_of files = sum (map (λ f. file_len f.1) files) % 2 ^ 64

  start_import : Listing → Stage
  unfolding total_of import_from
  start_import (inl e) = ([], failed e)
  start_import (inr files) = import_from (total_of files) 0 0 [] files

  pub run_send : Stage
  unfolding start_import
  run_send = start_import (collect_files source path)

  -- The task of `Core::send`.
  report : Stage → Stage
  report (es, failed e) =
      (es ++ (emitted (Progress.error id e) ∷ status_set Status.error none ∷ []), returned)
  report (es, st) = (es, st)

  pub send_task : Stage
  unfolding report
  send_task = report run_send
