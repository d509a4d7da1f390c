-- ===== src/Prelude/Sort.antt =====
-- `slice::sort_by` and `sort_by_key`: a stable sort, here by insertion, with its three promises.
use mathlib.Core.Path.{◌≡◌, refl, subst}
use mathlib.Core.Logic.{inl, inr}
use mathlib.Core.Bool.{Bool, true, false}
use mathlib.Core.List.{
  List, [], ◌∷◌, Perm, Mem, mem-cons_self, mem-cons_of_mem, forall_mem-cons, not-mem-nil,
}
use mathlib.Core.Option.{some}
use mathlib.Core.List.Perm
use native.Mathlib.Omega.{arith}
use dropwire.Prelude.Tests.{if◌then◌else◌, Bool-cases}
use dropwire.Prelude.Lists.{retain, find}

module _ {ℓ} {A : Type ℓ} (le : A → A → Bool) where
  -- Before the first element that is not smaller: an equal one that stood behind stays behind.
  insert_by : A → List A → List A
  insert_by x [] = x ∷ []
  insert_by x (y ∷ ys) = if le x y then x ∷ y ∷ ys else y ∷ insert_by x ys

  unfoldable pub sort_by : List A → List A
  unfolding insert_by
  sort_by [] = []
  sort_by (x ∷ xs) = insert_by x (sort_by xs)

  insert_by-perm : (x : A) (ys : List A) → Perm (insert_by x ys) (x ∷ ys)
  unfolding insert_by
  insert_by-perm x [] = Perm.refl (x ∷ [])
  insert_by-perm x (y ∷ ys) = elim (Bool-cases (le x y)) [
    | inl first ↦ rw first (Perm.refl (x ∷ y ∷ ys))
    | inr later ↦ rw later (Perm.trans (Perm.cons y (insert_by-perm x ys)) (Perm.swap x y ys))
  ]

  -- No element is lost or made up.
  pub sort_by-perm : (xs : List A) → Perm (sort_by xs) xs
  unfolding sort_by
  sort_by-perm [] = Perm.nil
  sort_by-perm (x ∷ xs) = Perm.trans (insert_by-perm x (sort_by xs)) (Perm.cons x (sort_by-perm xs))

  -- A class of equal elements keeps its order.
  insert_by_stable :
      (p : A → Bool) (x : A) (ys : List A)
      → ((y : A) → p x ≡ true → p y ≡ true → le x y ≡ true)
      → retain p (insert_by x ys) ≡ retain p (x ∷ ys)
  unfolding insert_by
  insert_by_stable p x [] same = refl
  insert_by_stable p x (y ∷ ys) same = ground (arith, same y, insert_by_stable p x ys same)

  pub sort_by_stable :
      (p : A → Bool) (xs : List A)
      → ((x y : A) → p x ≡ true → p y ≡ true → le x y ≡ true)
      → retain p (sort_by xs) ≡ retain p xs
  unfolding sort_by
  sort_by_stable p [] same = refl
  sort_by_stable p (x ∷ xs) same =
      ground (arith, insert_by_stable p x (sort_by xs) (same x), sort_by_stable p xs same)

module _ {ℓ} {A : Type ℓ} (le : A → A → Bool) where
  -- Each element is at most every later one.
  abbrev pub AtMost : A → List A → Type 0
  AtMost x [] = Unit {0}
  AtMost x (y ∷ ys) = (le x y ≡ true) × AtMost x ys

  abbrev pub IsSorted : List A → Type 0
  IsSorted [] = Unit {0}
  IsSorted (x ∷ xs) = AtMost x xs × IsSorted xs

module _ {ℓ} {A : Type ℓ} (le : A → A → Bool)
    (trans : (x y z : A) → le x y ≡ true → le y z ≡ true → le x z ≡ true)
    (total : (x y : A) → le x y ≡ false → le y x ≡ true) where
  AtMost-trans : (x y : A) (ys : List A) → le x y ≡ true → AtMost le y ys → AtMost le x ys
  AtMost-trans x y [] h a = tt
  AtMost-trans x y (z ∷ ys) h a = (trans x y z h a.0, AtMost-trans x y ys h a.1)

  insert_by-AtMost :
      (x y : A) (ys : List A) → le y x ≡ true → AtMost le y ys → AtMost le y (insert_by le x ys)
  unfolding insert_by
  insert_by-AtMost x y [] h a = (h, tt)
  insert_by-AtMost x y (z ∷ ys) h a = ground (arith, insert_by-AtMost x y ys h a.1)

  insert_by-IsSorted : (x : A) (ys : List A) → IsSorted le ys → IsSorted le (insert_by le x ys)
  unfolding insert_by
  insert_by-IsSorted x [] s = (tt, tt)
  insert_by-IsSorted x (y ∷ ys) s = elim (Bool-cases (le x y)) [
    | inl h ↦ rw h ((h, AtMost-trans x y ys h s.0), s)
    | inr h ↦ rw h (insert_by-AtMost x y ys (total x y h) s.0, insert_by-IsSorted x ys s.1)
  ]

  pub sort_by-IsSorted : (xs : List A) → IsSorted le (sort_by le xs)
  unfolding sort_by
  sort_by-IsSorted [] = tt
  sort_by-IsSorted (x ∷ xs) = insert_by-IsSorted x (sort_by le xs) (sort_by-IsSorted xs)

module _ {ℓ} {A : Type ℓ} (le : A → A → Bool) (le_refl : (x : A) → le x x ≡ true)
    (p : A → Bool) where
  AtMost-mem :
      (x : A) (ys : List A) → AtMost le x ys → (y : A) → Mem y ys → p y ≡ true → le x y ≡ true
  AtMost-mem x [] a = λ y m. absurd (not-mem-nil m)
  AtMost-mem x (z ∷ ys) a = (forall_mem-cons (λ y. hlevel)).1 (λ _. a.0, AtMost-mem x ys a.1)

  -- What `find` finds in a sorted list comes before every other element that it might have found.
  pub find-IsSorted :
      (xs : List A) (r : A)
      → IsSorted le xs
      → find p xs ≡ some r
      → Mem r xs × (p r ≡ true) × ((y : A) → Mem y xs → p y ≡ true → le r y ≡ true)
  find-IsSorted [] r s e = absurd (cc e)
  find-IsSorted (x ∷ xs) r s e = elim (Bool-cases (p x)) [
    | inl found ↦
        subst
          (λ r.
            Mem r (x ∷ xs) × (p r ≡ true) × ((y : A) → Mem y (x ∷ xs) → p y ≡ true → le r y ≡ true))
          (ground (arith, e, found))
          (
            mem-cons_self,
            found,
            (forall_mem-cons (λ y. hlevel)).1 (λ _. le_refl x, AtMost-mem x xs s.0),
          )
    | inr other ↦
        let (m, found, least) = find-IsSorted xs r s.1 (ground (arith, e, other)) in
        (
          mem-cons_of_mem x m,
          found,
          (forall_mem-cons (λ y. hlevel)).1 (λ px. absurd (ground (arith, px, other)), least),
        )
  ]
