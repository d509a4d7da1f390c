-- ===== src/Paths/Segments.antt =====
-- Splitting at the slashes, and joining back (core/src/receive.rs).
use dropwire.Prelude.{
  ℕ, ◌≡◌, refl, ap, Bool, true, false, not, ◌&&◌, List, [], ◌∷◌, ◌++◌, arith, ◌==◌, nat_eq, text_eq,
  text_beq, text_beq_iff, Text, code_points, retain, All, any, Bool-cases, inl, inr, ◌∙◌,
}
use dropwire.Paths.{
  Component, normal, split, extend_first, component, first_component, components_from,
  relative_from, components,
}

-- A piece that `components` reports as `Normal`.
abbrev pub is_name : Text → Bool
is_name s = not (s == []) && (not (s == code_points ".") && not (s == code_points ".."))

abbrev pub NoSlash : Text → Type 0
NoSlash s = any (λ c. c == b'/') s ≡ false

pub record IsName (s : Text) : Type 0 where
  pub named : is_name s ≡ true
  pub plain : NoSlash s

-- The text with a slash between the pieces.
unfoldable pub join : List Text → Text
join [] = []
join (s ∷ []) = s
join (s ∷ t ∷ ss) = s ++ (b'/' ∷ join (t ∷ ss))

split_plain : (s : Text) → NoSlash s → split s ≡ s ∷ []
unfolding split
split_plain [] p = refl
split_plain (c ∷ s) p = ground (arith, split_plain s)

pub split-append : (s t : Text) → NoSlash s → split (s ++ (b'/' ∷ t)) ≡ s ∷ split t
unfolding split
split-append [] t p = refl
split-append (c ∷ s) t p = ground (arith, split-append s t)

pub split-join : (s : Text) (ss : List Text) → All IsName (s ∷ ss) → split (join (s ∷ ss)) ≡ s ∷ ss
unfolding join
split-join s [] a = split_plain s a.0.plain
split-join s (t ∷ ss) a =
    split-append s (join (t ∷ ss)) a.0.plain ∙ ap (◌∷◌ s) (split-join t ss a.1)

extend_first-NoSlash :
    (c : ℕ) (ss : List Text)
    → (c == b'/') ≡ false
    → All NoSlash ss
    → All NoSlash (extend_first c ss)
unfolding extend_first
extend_first-NoSlash c [] h a = (ground arith, tt)
extend_first-NoSlash c (s ∷ ss) h a = (ground arith, a.1)

pub split-NoSlash : (s : Text) → All NoSlash (split s)
unfolding split
split-NoSlash [] = (refl, tt)
split-NoSlash (c ∷ s) = elim (Bool-cases (c == b'/')) [
  | inl h ↦ rw h (refl, split-NoSlash s)
  | inr h ↦ rw h (extend_first-NoSlash c (split s) h (split-NoSlash s))
]

pub names-IsName : (ss : List Text) → All NoSlash ss → All IsName (retain is_name ss)
names-IsName [] a = tt
names-IsName (s ∷ ss) a = elim (Bool-cases (is_name s)) [
  | inl h ↦ rw h (record { named = h; plain = a.0 }, names-IsName ss a.1)
  | inr h ↦ rw h (names-IsName ss a.1)
]

-- What the loop of `sanitize_rel` picks out.
unfoldable pub normals : List Component → List Text
normals [] = []
normals (normal c ∷ cs) = c ∷ normals cs
normals (_ ∷ cs) = normals cs

normals-components_from : (ss : List Text) → normals (components_from ss) ≡ retain is_name ss
unfolding normals components_from component
normals-components_from [] = refl
normals-components_from (s ∷ ss) = ground (arith, normals-components_from ss)

normals-relative_from : (ss : List Text) → normals (relative_from ss) ≡ retain is_name ss
unfolding normals relative_from first_component component
normals-relative_from [] = refl
normals-relative_from (s ∷ ss) =
    ground (arith, normals-components_from ss, text_beq_iff s (code_points "."), text_beq_iff s [])

pub normals-components : (p : Text) → normals (components p) ≡ retain is_name (split p)
unfolding components normals split text_beq
normals-components [] = refl
normals-components (c ∷ p) = elim (Bool-cases (c == b'/')) [
  | inl h ↦ rw h (normals-components_from (split p))
  | inr h ↦ rw h (normals-relative_from (extend_first c (split p)))
]
