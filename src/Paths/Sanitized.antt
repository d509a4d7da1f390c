-- ===== src/Paths/Sanitized.antt =====
-- `sanitize_rel` of core/src/receive.rs keeps a received file inside its destination.
use mathlib.Core.List.{append_assoc}
use dropwire.Prelude.{
  ℕ, ◌≡◌, refl, ap, true, false, List, [], ◌∷◌, ◌++◌, map, arith, ◌==◌, nat_eq, text_eq, text_beq,
  Text, code_points, retain, All, ◌∙◌, ◌≢◌,
}
use dropwire.Paths.{
  Component, root_dir, cur_dir, parent_dir, normal, split, component, first_component,
  components_from, relative_from, components, push, forward_slashes, keep_normal, or_file,
  sanitize_rel,
}
use dropwire.Paths.Segments.{
  is_name, IsName, join, split-join, split-NoSlash, names-IsName, normals, normals-components,
}

-- The names that a sender's file name stands for: its pieces at `/` and `\`, without the empty
-- ones, `.` and `..`; and `file` if none is left.
unfoldable pub names_or_file : List Text → List Text
names_or_file [] = code_points "file" ∷ []
names_or_file (s ∷ ss) = s ∷ ss

unfoldable pub safe_names : Text → List Text
safe_names name = names_or_file (retain is_name (split (forward_slashes name)))

-- The loop, as joining.
join_onto : Text → List Text → Text
join_onto out [] = out
join_onto out (s ∷ ss) = join_onto (push out s) ss

keep_normal_lem :
    (out : Text) (cs : List Component) → keep_normal out cs ≡ join_onto out (normals cs)
unfolding keep_normal join_onto normals
keep_normal_lem out [] = refl
keep_normal_lem out (normal c ∷ cs) = keep_normal_lem (push out c) cs
keep_normal_lem out (root_dir ∷ cs) = keep_normal_lem out cs
keep_normal_lem out (cur_dir ∷ cs) = keep_normal_lem out cs
keep_normal_lem out (parent_dir ∷ cs) = keep_normal_lem out cs

join_onto_lem :
    (c : ℕ) (out : Text) (ss : List Text) → join_onto (c ∷ out) ss ≡ join ((c ∷ out) ∷ ss)
unfolding join_onto join push
join_onto_lem c out [] = refl
join_onto_lem c out (s ∷ []) = refl
join_onto_lem c out (s ∷ t ∷ ss) =
    join_onto_lem c (out ++ (b'/' ∷ s)) (t ∷ ss)
    ∙ ap (◌∷◌ c) (append_assoc out (b'/' ∷ s) (b'/' ∷ join (t ∷ ss)))

pub safe_names-IsName : (name : Text) → All IsName (safe_names name)
unfolding safe_names names_or_file
safe_names-IsName name = named_or_file _ (names-IsName _ (split-NoSlash (forward_slashes name)))
  where
    named_or_file : (ss : List Text) → All IsName ss → All IsName (names_or_file ss)
    named_or_file [] a = (record { named = unfold text_beq in refl; plain = refl }, tt)
    named_or_file (s ∷ ss) a = a

-- A name has a first character.
pub nonempty : (s : Text) → is_name s ≡ true → s ≢ []
unfolding text_beq
nonempty [] h = λ _. cc
nonempty (c ∷ s) h = λ e. cc

join_names : (ss : List Text) → All IsName ss → or_file (join_onto [] ss) ≡ join (names_or_file ss)
unfolding join_onto or_file join names_or_file push
join_names [] a = refl
join_names ([] ∷ ss) a = absurd (nonempty [] a.0.named refl)
join_names ((c ∷ s) ∷ []) a = refl
join_names ((c ∷ s) ∷ t ∷ ss) a = ap or_file (join_onto_lem c s (t ∷ ss))

-- The result is the safe names, joined.
pub sanitize_rel_lem : (name : Text) → sanitize_rel name ≡ join (safe_names name)
unfolding sanitize_rel safe_names
sanitize_rel_lem name =
    ap or_file
      (keep_normal_lem [] _ ∙ ap (join_onto []) (normals-components (forward_slashes name)))
    ∙ join_names _ (names-IsName _ (split-NoSlash (forward_slashes name)))

pub components_from_names : (ss : List Text) → All IsName ss → components_from ss ≡ map normal ss
unfolding components_from component
components_from_names [] a = refl
components_from_names (s ∷ ss) a =
    let named = a.0.named in ground (arith, named, components_from_names ss a.1)

relative_from_names : (ss : List Text) → All IsName ss → relative_from ss ≡ map normal ss
unfolding relative_from first_component component
relative_from_names [] a = refl
relative_from_names (s ∷ ss) a =
    let named = a.0.named in ground (arith, named, components_from_names ss a.1)

-- A path that begins with a name is relative.
components_plain :
    (c : ℕ) (p : Text) → (c == b'/') ≡ false → components (c ∷ p) ≡ relative_from (split (c ∷ p))
unfolding components
components_plain c p h = rw h refl

first_plain : (c : ℕ) (s : Text) (ss : List Text) → All IsName ((c ∷ s) ∷ ss) → (c == b'/') ≡ false
first_plain c s ss a = let plain = a.0.plain in ground (arith, plain)

pub components-join :
    (s : Text) (ss : List Text)
    → All IsName (s ∷ ss)
    → components (join (s ∷ ss)) ≡ map normal (s ∷ ss)
unfolding join
components-join [] ss a = absurd (nonempty [] a.0.named refl)
components-join (c ∷ s) [] a =
    components_plain c s (first_plain c s [] a)
    ∙ ap relative_from (split-join (c ∷ s) [] a)
    ∙ relative_from_names ((c ∷ s) ∷ []) a
components-join (c ∷ s) (t ∷ ss) a =
    components_plain c _ (first_plain c s (t ∷ ss) a)
    ∙ ap relative_from (split-join (c ∷ s) (t ∷ ss) a)
    ∙ relative_from_names ((c ∷ s) ∷ t ∷ ss) a

-- There is always a name.
pub safe_names_some : (name : Text) → (s : Text) × (ss : List Text) × (safe_names name ≡ s ∷ ss)
unfolding safe_names
safe_names_some name = some_or_file (retain is_name (split (forward_slashes name)))
  where
    some_or_file : (l : List Text) → (s : Text) × (ss : List Text) × (names_or_file l ≡ s ∷ ss)
    some_or_file [] = (code_points "file", [], unfold names_or_file in refl)
    some_or_file (s ∷ ss) = (s, ss, unfold names_or_file in refl)
