-- ===== src/Paths/Joined.antt =====
-- `Path::join` of core/src/receive.rs and core/src/lib.rs with several names below one directory.
use dropwire.Prelude.{◌≡◌, refl, [], ◌∷◌, ◌++◌, Text, Bool-cases, inl, inr, sym}
use mathlib.Core.List.{append_assoc}
use dropwire.Paths.{join_path, ends_with_slash}

-- Names joined to one directory differ only behind one common beginning.
pub join_path-root : (dir : Text) → (root : Text) × ((rel : Text) → join_path dir rel ≡ root ++ rel)
unfolding join_path
join_path-root [] = ([], λ rel. refl)
join_path-root (c ∷ dir) = elim (Bool-cases (ends_with_slash (c ∷ dir))) [
  | inl ends ↦ (c ∷ dir, λ rel. rw (ends) refl)
  | inr open_ended ↦ (
    (c ∷ dir) ++ (b'/' ∷ []),
    λ rel. rw (open_ended) (sym (append_assoc (c ∷ dir) (b'/' ∷ []) rel)),
  )
]
