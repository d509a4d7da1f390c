-- ===== src/Prelude/TreeMap.antt =====
-- `BTreeMap<String, V>` as an association list in the order of its keys.
use mathlib.Core.Path.{◌≡◌, refl}
use mathlib.Core.Bool.{true}
use mathlib.Core.List.{List, [], ◌∷◌, map}
use mathlib.Core.Option
use mathlib.Core.Option.{Option, none, some}
use native.Mathlib.Omega.{arith}
use dropwire.Prelude.Tests.{if◌then◌else◌}
use dropwire.Prelude.Equality.{Text, text_beq_iff, text_eq, ◌==◌}
use dropwire.Prelude.Order.{text_ltb, text_ltb_trans, text_ltb_total}

abbrev pub BTreeMap {ℓ} : Type ℓ → Type ℓ
BTreeMap V = List (Text × V)

module _ {ℓ} {V : Type ℓ} where
  unfoldable pub get : Text → BTreeMap V → Option V
  get k [] = none
  get k ((j, v) ∷ m) = if j == k then some v else get k m

  unfoldable pub insert : Text → V → BTreeMap V → BTreeMap V
  insert k v [] = (k, v) ∷ []
  insert k v ((j, w) ∷ m) =
      if j == k
      then (k, v) ∷ m
      else if text_ltb k j
      then (k, v) ∷ (j, w) ∷ m
      else (j, w) ∷ insert k v m

  -- A write through `get_mut`; nothing happens where the key is missing.
  unfoldable pub modify : Text → (V → V) → BTreeMap V → BTreeMap V
  modify k f [] = []
  modify k f ((j, v) ∷ m) = if j == k then (j, f v) ∷ m else (j, v) ∷ modify k f m

  abbrev pub values : BTreeMap V → List V
  values = map (λ e. e.1)

  pub get-insert :
      (k j : Text) (v : V) (m : BTreeMap V)
      → get j (insert k v m) ≡ (if k == j then some v else get j m)
  unfolding get insert
  get-insert k j v [] = refl
  get-insert k j v ((i, w) ∷ m) =
      ground (arith, text_beq_iff k j, text_beq_iff i k, text_beq_iff i j, get-insert k j v m)

  pub get-modify :
      (k j : Text) (f : V → V) (m : BTreeMap V)
      → get j (modify k f m) ≡ (if k == j then Option.map f (get j m) else get j m)
  unfolding get modify
  get-modify k j f [] = ground arith
  get-modify k j f ((i, w) ∷ m) =
      ground (arith, text_beq_iff k j, text_beq_iff i k, text_beq_iff i j, get-modify k j f m)

  -- The keys rise strictly.
  abbrev pub Above : Text → BTreeMap V → Type 0
  Above k [] = Unit {0}
  Above k ((j, v) ∷ m) = (text_ltb k j ≡ true) × Above k m

  abbrev pub IsOrdered : BTreeMap V → Type 0
  IsOrdered [] = Unit {0}
  IsOrdered ((k, v) ∷ m) = Above k m × IsOrdered m

  Above-trans : (k j : Text) (m : BTreeMap V) → text_ltb k j ≡ true → Above j m → Above k m
  Above-trans k j [] h a = tt
  Above-trans k j ((i, v) ∷ m) h a = (text_ltb_trans k j i h a.0, Above-trans k j m h a.1)

  insert-Above :
      (k j : Text) (v : V) (m : BTreeMap V)
      → text_ltb j k ≡ true
      → Above j m
      → Above j (insert k v m)
  unfolding insert
  insert-Above k j v [] h a = (h, tt)
  insert-Above k j v ((i, w) ∷ m) h a = ground (arith, insert-Above k j v m h a.1)

  pub insert-IsOrdered :
      (k : Text) (v : V) (m : BTreeMap V) → IsOrdered m → IsOrdered (insert k v m)
  unfolding insert
  insert-IsOrdered k v [] o = (tt, tt)
  insert-IsOrdered k v ((j, w) ∷ m) o = ground (
    arith,
    text_beq_iff j k,
    Above-trans k j m,
    insert-Above k j v m,
    insert-IsOrdered k v m o.1,
    text_ltb_total j k,
  )

  modify-Above : (k j : Text) (f : V → V) (m : BTreeMap V) → Above j m → Above j (modify k f m)
  unfolding modify
  modify-Above k j f [] a = tt
  modify-Above k j f ((i, w) ∷ m) a = ground (arith, modify-Above k j f m a.1)

  pub modify-IsOrdered :
      (k : Text) (f : V → V) (m : BTreeMap V) → IsOrdered m → IsOrdered (modify k f m)
  unfolding modify
  modify-IsOrdered k f [] o = tt
  modify-IsOrdered k f ((i, w) ∷ m) o =
      ground (arith, modify-Above k i f m o.0, modify-IsOrdered k f m o.1)
