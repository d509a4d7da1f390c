-- ===== src/Paths/Destination.antt =====
-- Where a received file lands (core/src/receive.rs): below the destination, under its safe names.
use mathlib.Core.List.{append_assoc, append-nil}
use dropwire.Prelude.{
  ℕ, ◌≡◌, refl, ap, sym, true, List, [], ◌∷◌, ◌++◌, map, ◌==◌, nat_eq, Text, All, Bool-cases, inl,
  inr, ◌∙◌, ◌≢◌, subst, nat_beq_iff, text_beq,
}
use dropwire.Paths.{
  root_dir, normal, split, extend_first, component, first_component, components_from, relative_from,
  components, sanitize_rel, ends_with_slash, join_path, export_target,
}
use dropwire.Paths.Segments.{IsName, split-join}
use dropwire.Paths.Sanitized.{
  safe_names, safe_names-IsName, sanitize_rel_lem, safe_names_some, components_from_names,
}

split_some : (d : Text) → (s : Text) × (ss : List Text) × (split d ≡ s ∷ ss)
unfolding split extend_first
split_some [] = ([], [], refl)
split_some (c ∷ d) = elim (Bool-cases (c == b'/')) [
  | inl h ↦ ([], split d, rw h refl)
  | inr h ↦ let (s, ss, e) = split_some d in (c ∷ s, ss, rw h (ap (extend_first c) e))
]

split_slash : (d r : Text) → split (d ++ (b'/' ∷ r)) ≡ split d ++ split r
unfolding split
split_slash [] r = refl
split_slash (c ∷ d) r = elim (Bool-cases (c == b'/')) [
  | inl h ↦ rw h (ap (◌∷◌ []) (split_slash d r))
  | inr h ↦
      let (s, ss, e) = split_some d in
      rw h (ap (extend_first c) (split_slash d r) ∙ unfold extend_first in rw e refl)
]

components_from-append :
    (xs ys : List Text) → components_from (xs ++ ys) ≡ components_from xs ++ components_from ys
unfolding components_from
components_from-append [] ys = refl
components_from-append (x ∷ xs) ys =
    ap (◌++◌ (component x)) (components_from-append xs ys)
    ∙ sym (append_assoc (component x) (components_from xs) (components_from ys))

relative_from-append :
    (x : Text) (xs ys : List Text)
    → relative_from ((x ∷ xs) ++ ys) ≡ relative_from (x ∷ xs) ++ components_from ys
unfolding relative_from
relative_from-append x xs ys =
    ap (◌++◌ (first_component x)) (components_from-append xs ys)
    ∙ sym (append_assoc (first_component x) (components_from xs) (components_from ys))

components_slash :
    (c : ℕ) (d r : Text)
    → components ((c ∷ d) ++ (b'/' ∷ r)) ≡ components (c ∷ d) ++ components_from (split r)
unfolding components
components_slash c d r = elim (Bool-cases (c == b'/')) [
  | inl h ↦ rw h (
      ap (◌∷◌ root_dir)
        (ap components_from (split_slash d r) ∙ components_from-append (split d) (split r)))
  | inr h ↦
      let (s, ss, e) = split_some (c ∷ d) in
      rw h (ap relative_from (split_slash (c ∷ d) r) ∙ rw e (relative_from-append s ss (split r)))
]

-- The pieces of a sanitized name.
sanitized_pieces :
    (name : Text) → components_from (split (sanitize_rel name)) ≡ map normal (safe_names name)
sanitized_pieces name =
    let (s, ss, e) = safe_names_some name in
    let named = subst (All IsName) e (safe_names-IsName name) in
    rw (sanitize_rel_lem name, e)
      (ap components_from (split-join s ss named) ∙ components_from_names (s ∷ ss) named)

-- What comes before a trailing slash.
before_slash :
    (c : ℕ) (d : Text) → ends_with_slash (c ∷ d) ≡ true → (p : Text) × (c ∷ d ≡ p ++ (b'/' ∷ []))
unfolding ends_with_slash
before_slash c [] h = ([], ap (λ x. x ∷ []) ((nat_beq_iff c b'/').0 h))
before_slash c (x ∷ d) h = let (p, e) = before_slash x d h in (c ∷ p, ap (◌∷◌ c) e)

joined_slash :
    (p rel : Text)
    → components ((p ++ (b'/' ∷ [])) ++ rel)
      ≡ components (p ++ (b'/' ∷ [])) ++ components_from (split rel)
unfolding components split text_beq
joined_slash [] rel = refl
joined_slash (c ∷ p) rel =
    ap components (append_assoc (c ∷ p) (b'/' ∷ []) rel)
    ∙ components_slash c p rel
    ∙ ap (λ x. x ++ components_from (split rel))
        (sym (append-nil (components (c ∷ p))) ∙ sym (components_slash c p []))

components-join_path :
    (dest rel : Text)
    → dest ≢ []
    → components (join_path dest rel) ≡ components dest ++ components_from (split rel)
unfolding join_path
components-join_path [] rel d = absurd (d refl)
components-join_path (c ∷ dest) rel d = elim (Bool-cases (ends_with_slash (c ∷ dest))) [
  | inl h ↦
      let (p, e) = before_slash c dest h in
      rw h (
        subst (λ q. components (q ++ rel) ≡ components q ++ components_from (split rel)) (sym e)
          (joined_slash p rel))
  | inr h ↦ rw h (components_slash c dest rel)
]

-- On Linux and macOS, where `/` is the only separator and no path has a drive prefix, a received file
-- never leaves its destination. Whatever name the sender gave it (absolute, with
-- `..`, with backslashes, empty), the path it is written to is the destination followed by one
-- or more plain names, with no root and no `..` behind the destination.
pub export_target_inside :
    (dest name : Text)
    → dest ≢ []
    → (components (export_target dest name) ≡ components dest ++ map normal (safe_names name))
      × (safe_names name ≢ [])
unfolding export_target
export_target_inside dest name d = (
  components-join_path dest (sanitize_rel name) d
      ∙ ap (◌++◌ (components dest)) (sanitized_pieces name),
  let (s, ss, e) = safe_names_some name in λ none. cc,
)
