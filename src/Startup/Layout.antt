-- ===== src/Startup/Layout.antt =====
-- The files of the data directory of core/src/lib.rs: the key, the history with its temporary file,
-- and the blobs are apart from each other.
use mathlib.Core.List.{append_assoc, append_cancel_left}
use dropwire.Prelude.{
  ◌≡◌, ◌≢◌, refl, sym, ap, ◌∙◌, false, [], ◌∷◌, ◌++◌, nat_eq, arith, Text, code_points,
}
use dropwire.Catalog.{with_extension}
use dropwire.Catalog.Saving.{with_extension-transfers}
use dropwire.Paths.{join_path}
use dropwire.Paths.Joined.{join_path-root}
use dropwire.Startup.{starts_with}

abbrev pub key_path : Text → Text
key_path dir = join_path dir (code_points "node.key")

abbrev pub history_path : Text → Text
history_path dir = join_path dir (code_points "transfers.json")

abbrev pub blobs_path : Text → Text
blobs_path dir = join_path dir (code_points "blobs")

root_of : Text → Text
root_of dir = (join_path-root dir).0

at_root : (dir rel : Text) → join_path dir rel ≡ root_of dir ++ rel
unfolding root_of
at_root dir rel = (join_path-root dir).1 rel

pub history-ne : (dir : Text) → history_path dir ≢ key_path dir
history-ne dir e = absurd (
    ground (
      arith,
      append_cancel_left (root_of dir) (code_points "transfers.json") (code_points "node.key") (
          sym (at_root dir (code_points "transfers.json"))
          ∙ e
          ∙ at_root dir (code_points "node.key")),
    ))

pub history_tmp-ne :
    (dir : Text) → with_extension (history_path dir) (code_points "json.tmp") ≢ key_path dir
history_tmp-ne dir e = absurd (
    ground (
      arith,
      append_cancel_left (root_of dir) (code_points "transfers.json.tmp") (code_points "node.key") (
          sym (with_extension-transfers (root_of dir))
          ∙ sym (
              ap (λ t. with_extension t (code_points "json.tmp"))
                (at_root dir (code_points "transfers.json")))
          ∙ e
          ∙ at_root dir (code_points "node.key")),
    ))

outside_blobs :
    (root : Text)
    → starts_with (root ++ code_points "blobs/") (root ++ code_points "node.key") ≡ false
outside_blobs [] = refl
outside_blobs (c ∷ root) = ground (arith, outside_blobs root)

pub key-outside : (dir : Text) → starts_with (blobs_path dir ++ (b'/' ∷ [])) (key_path dir) ≡ false
key-outside dir =
    ap (λ t. starts_with (t ++ (b'/' ∷ [])) (key_path dir)) (at_root dir (code_points "blobs"))
    ∙ ap (λ t. starts_with t (key_path dir))
        (append_assoc (root_of dir) (code_points "blobs") (b'/' ∷ []))
    ∙ ap (starts_with (root_of dir ++ code_points "blobs/")) (at_root dir (code_points "node.key"))
    ∙ outside_blobs (root_of dir)
