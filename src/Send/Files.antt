-- ===== src/Send/Files.antt =====
-- `collect_files` of core/src/send.rs: which files are sent, in which order and under which names.
use mathlib.Core.List.{Perm}
use dropwire.Prelude.{
  ◌≡◌, ◌≢◌, refl, ap, true, false, Option, none, some, List, [], ◌∷◌, ◌++◌, map, arith,
  if◌then◌else◌, ==_refl, text_eq, Text, All, All-append, ◌∙◌, inl, inr,
}
use dropwire.Prelude.Order.{text_leb_trans, text_leb_total}
use dropwire.Prelude.Sort.{IsSorted, sort_by, sort_by-perm, sort_by-IsSorted}
use dropwire.Paths.{Component, root_dir, normal, components, forward_slashes, sanitize_rel}
use dropwire.Paths.Segments.{IsName, join}
use dropwire.Paths.Sanitized.{nonempty}
use dropwire.Paths.Plain.{
  NoBackslash, NoBackslash-join, forward_slashes_plain, sanitize_rel-join, components_absolute,
}
use dropwire.Send.{
  Source, Walked, entry, fails, file_name, last_name, component_text, strip_components, path_text,
  relative_to, named, gather, cons_file, by_name, sorted, or_empty, listing_of, collect_files,
}

-- The error that a walk ends with, if any, and the files that it meets, under their names.
pub first_failure : List Walked → Option Text
first_failure [] = none
first_failure (fails e ∷ ws) = some e
first_failure (entry p is_file ∷ ws) = first_failure ws

pub files_in : Text → Text → List Walked → List (Text × Text)
files_in path base [] = []
files_in path base (fails e ∷ ws) = files_in path base ws
files_in path base (entry p is_file ∷ ws) =
    let rest = files_in path base ws in
    if is_file then (named base (forward_slashes (relative_to path p)), p) ∷ rest else rest

gather_ok :
    (path base : Text) (ws : List Walked)
    → first_failure ws ≡ none
    → gather path base ws ≡ inr (files_in path base ws)
unfolding gather first_failure files_in
gather_ok path base [] h = refl
gather_ok path base (fails e ∷ ws) h = absurd (ground arith)
gather_ok path base (entry p true ∷ ws) h = ap (cons_file _) (gather_ok path base ws h)
gather_ok path base (entry p false ∷ ws) h = gather_ok path base ws h

gather_failed :
    (path base e : Text) (ws : List Walked)
    → first_failure ws ≡ some e
    → gather path base ws ≡ inl e
unfolding gather first_failure
gather_failed path base e [] h = absurd (ground arith)
gather_failed path base e (fails f ∷ ws) h = ground arith
gather_failed path base e (entry p true ∷ ws) h = ap (cons_file _) (gather_failed path base e ws h)
gather_failed path base e (entry p false ∷ ws) h = gather_failed path base e ws h

-- A folder is sent as all the files below it, each once, under the names in rising order; where the
-- walk fails, nothing is sent and the first error is reported.
pub collect_files-folder :
    (s : Source) (path : Text)
    → s.metadata path ≡ some false
    → (first_failure (s.walk path) ≡ none
        → (fs : List (Text × Text)) × (collect_files s path ≡ inr fs)
          × Perm fs (files_in path (or_empty (file_name path)) (s.walk path))
          × IsSorted by_name fs)
      × ((e : Text) → first_failure (s.walk path) ≡ some e → collect_files s path ≡ inl e)
unfolding collect_files listing_of sorted by_name
collect_files-folder s path folder =
    let base = or_empty (file_name path) in
    let found = files_in path base (s.walk path) in
    (
      λ fine. (
        sort_by by_name found,
        rw folder (ap sorted (gather_ok path base (s.walk path) fine)),
        sort_by-perm by_name found,
        sort_by-IsSorted by_name (λ a b c. text_leb_trans a.0 b.0 c.0)
            (λ a b. text_leb_total a.0 b.0) found,
      ),
      λ e failed. rw folder (ap sorted (gather_failed path base e (s.walk path) failed)),
    )

strip_names : (cs rest : List Component) → strip_components cs (cs ++ rest) ≡ some rest
unfolding strip_components
strip_names [] rest = refl
strip_names (c ∷ cs) rest = rw (==_refl (component_text c)) (strip_names cs rest)

path_text_lem : (ss : List Text) → path_text (map normal ss) ≡ join ss
unfolding path_text join component_text
path_text_lem [] = refl
path_text_lem (s ∷ []) = refl
path_text_lem (s ∷ t ∷ ss) = ap (λ u. s ++ (b'/' ∷ u)) (path_text_lem (t ∷ ss))

last_name_lem :
    (o : Option Text) (ss : List Text) (s : Text)
    → last_name o (map normal (ss ++ (s ∷ []))) ≡ some s
unfolding last_name
last_name_lem o [] s = refl
last_name_lem o (t ∷ ss) s = last_name_lem (some t) ss s

names_split :
    (ds : List Text) (base : Text) (rest : List Text)
    → map normal (ds ++ (base ∷ rest)) ≡ map normal (ds ++ (base ∷ [])) ++ map normal rest
names_split [] base rest = refl
names_split (d ∷ ds) base rest = ap (◌∷◌ (normal d)) (names_split ds base rest)

-- The absolute path of plain names.
abbrev pub absolute : List Text → Text
absolute ss = b'/' ∷ join ss

components-absolute :
    (ds : List Text) (t : Text) (ts : List Text)
    → All IsName ds
    → All IsName (t ∷ ts)
    → components (absolute (ds ++ (t ∷ ts))) ≡ root_dir ∷ map normal (ds ++ (t ∷ ts))
components-absolute [] t ts a b = components_absolute t ts b
components-absolute (d ∷ ds) t ts a b =
    components_absolute d (ds ++ (t ∷ ts)) (a.0, All-append IsName ds (t ∷ ts) a.1 b)

named_lem : (base rel : Text) → base ≢ [] → named base rel ≡ base ++ (b'/' ∷ rel)
unfolding named
named_lem [] rel d = absurd (d refl)
named_lem (c ∷ base) rel d = refl

module _ (ds : List Text) (base s : Text) (ss : List Text) (above : All IsName ds)
    (below : All IsName (base ∷ s ∷ ss)) where
  folder_name : file_name (absolute (ds ++ (base ∷ []))) ≡ some base
  unfolding file_name last_name
  folder_name =
      ap (last_name none) (components-absolute ds base [] above (below.0, tt))
      ∙ last_name_lem none ds base

  stripped :
      strip_components
        (components (absolute (ds ++ (base ∷ []))))
        (components (absolute (ds ++ (base ∷ s ∷ ss))))
      ≡ some (map normal (s ∷ ss))
  stripped =
      rw
        (
          components-absolute ds base [] above (below.0, tt),
          components-absolute ds base (s ∷ ss) above below,
          names_split ds base (s ∷ ss),
        )
        (strip_names (root_dir ∷ map normal (ds ++ (base ∷ []))) (map normal (s ∷ ss)))

  relative_name :
      relative_to (absolute (ds ++ (base ∷ []))) (absolute (ds ++ (base ∷ s ∷ ss))) ≡ join (s ∷ ss)
  unfolding relative_to
  relative_name =
      let folder = absolute (ds ++ (base ∷ [])) in
      let path = absolute (ds ++ (base ∷ s ∷ ss)) in
      ap
        (λ (o : Option (List Component)). elim o as (λ _. Text) [
          | none ↦ path
          | some cs ↦ path_text cs
        ])
        stripped
      ∙ path_text_lem (s ∷ ss)

  named_base : named base (join (s ∷ ss)) ≡ join (base ∷ s ∷ ss)
  unfolding join
  named_base = named_lem base (join (s ∷ ss)) (nonempty base below.0.named)

  -- Of a folder, a file below it and the folders in between, all with plain names without a
  -- backslash, the receiver recreates the tree under the folder's own name: the name that the file
  -- is sent under, sanitized on the other side, is its path from the folder's name on.
  pub sanitize_rel-sent :
      All NoBackslash (base ∷ s ∷ ss)
      → let folder = absolute (ds ++ (base ∷ [])) in
        let path = absolute (ds ++ (base ∷ s ∷ ss)) in
        sanitize_rel
          (named (or_empty (file_name folder)) (forward_slashes (relative_to folder path)))
        ≡ join (base ∷ s ∷ ss)
  sanitize_rel-sent clean =
      rw
        (
          folder_name,
          relative_name,
          forward_slashes_plain (join (s ∷ ss)) (NoBackslash-join (s ∷ ss) clean.1),
          named_base,
        )
        (sanitize_rel-join base (s ∷ ss) below clean)
