-- ===== src/Send/Tests.antt =====
-- The sending side of core/src/send.rs at concrete inputs: a folder with two files.
use mathlib.Core.List.{Perm}
use dropwire.Prelude.{
  ◌≡◌, refl, true, false, none, some, List, [], ◌∷◌, Text, code_points, text_beq, inl, inr, nat_eq,
  text_eq,
}
use dropwire.Prelude.Sort.{IsSorted}
use dropwire.Catalog
use dropwire.Catalog.{Catalog, Env, TransferRecord}
use dropwire.Prelude.TreeMap
use dropwire.Prelude.TreeMap.{BTreeMap, IsOrdered}
use dropwire.Gate.{ProviderEvent}
use dropwire.Paths.{forward_slashes, sanitize_rel}
use dropwire.Paths.Segments.{IsName, join}
use dropwire.Send.{
  Source, entry, Sender, told, is_cancelled, send_task, file_name, named, or_empty, relative_to,
  collect_files, by_name,
}
use dropwire.Send.Files.{first_failure, files_in, collect_files-folder, absolute, sanitize_rel-sent}
use dropwire.Send.Protocol.{importing, steps, Ends, send_task-Ends}
use dropwire.Catalog.Filled.{filled}
use dropwire.Send.Recorded.{left_status, found_status, replay, send_task-status}

abbrev folder : Text
folder = code_points "/home/x/pics"

abbrev disk : Source
disk = record {
  metadata = λ p. some false;
  walk = λ p.
      entry (code_points "/home/x/pics/b.png") true
      ∷ entry (code_points "/home/x/pics/sub") false
      ∷ entry (code_points "/home/x/pics/sub/a.png") true
      ∷ [];
}

abbrev sender : Sender
sender = record {
  source = disk;
  file_len = λ p. 10;
  cancelled_before = λ i. false;
  import = λ p. some p;
  store_collection = λ es. some (code_points "cc");
  mint = λ h. h;
  turns = told ProviderEvent.peer_joined ∷ told (ProviderEvent.done 20 5) ∷ is_cancelled ∷ [];
}

collect_files-folder_example :
    (first_failure (disk.walk folder) ≡ none
      → (fs : List (Text × Text)) × (collect_files disk folder ≡ inr fs)
        × Perm fs (files_in folder (or_empty (file_name folder)) (disk.walk folder))
        × IsSorted by_name fs)
    × ((e : Text) → first_failure (disk.walk folder) ≡ some e → collect_files disk folder ≡ inl e)
collect_files-folder_example = collect_files-folder disk folder refl

abbrev two_names : List Text
two_names = code_points "sub" ∷ code_points "a.png" ∷ []

pics-IsName : IsName (code_points "pics")
unfolding text_beq
pics-IsName = record { named = refl; plain = refl }

sub-IsName : IsName (code_points "sub")
unfolding text_beq
sub-IsName = record { named = refl; plain = refl }

png-IsName : IsName (code_points "a.png")
unfolding text_beq
png-IsName = record { named = refl; plain = refl }

sanitize_rel-sent_example :
    let folder' = absolute (code_points "sub" ∷ code_points "pics" ∷ []) in
    let path =
      absolute
        (code_points "sub" ∷ code_points "pics" ∷ code_points "sub" ∷ code_points "a.png" ∷ []) in
    sanitize_rel (named (or_empty (file_name folder')) (forward_slashes (relative_to folder' path)))
    ≡ join (code_points "pics" ∷ code_points "sub" ∷ code_points "a.png" ∷ [])
sanitize_rel-sent_example =
    sanitize_rel-sent (code_points "sub" ∷ []) (code_points "pics") (code_points "sub")
      (code_points "a.png" ∷ []) (sub-IsName, tt) (pics-IsName, (sub-IsName, (png-IsName, tt)))
      (refl, (refl, (refl, tt)))

send_task-Ends_example : let r = send_task 7 100 folder sender in Ends r.1 (steps importing r.0)
send_task-Ends_example = send_task-Ends 7 100 folder sender

abbrev empty_history : Catalog
empty_history = record { entries = []; path = [] }

send_task-status_example :
    let es = (send_task 7 100 folder sender).0 in
    found_status 7 100 folder sender filled []
      (replay 7 100 folder sender filled [] empty_history es)
    ≡ left_status 7 100 folder sender es
unfolding Catalog.get TreeMap.get
send_task-status_example = send_task-status 7 100 folder sender filled [] empty_history refl
