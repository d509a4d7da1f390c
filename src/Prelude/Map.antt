-- ===== src/Prelude/Map.antt =====
-- `HashMap` as an association list. Laws in `if` form, with no side condition.
use mathlib.Core.Path.{◌≡◌, refl}
use mathlib.Core.Bool.{Bool, true, false}
use mathlib.Core.List.{List, [], ◌∷◌}
use mathlib.Core.Option.{Option, none, some}
use native.Mathlib.Omega.{arith}
use dropwire.Prelude.Tests.{if◌then◌else◌}
use dropwire.Prelude.Equality.{PartialEq, ◌==◌, ==_refl}

abbrev pub HashMap {ℓ κ} : Type ℓ → Type κ → Type (ℓ ⊔ κ)
HashMap Key Value = List (Key × Value)

module _ {ℓ κ} {Key : Type ℓ} {Value : Type κ} ⦃same : PartialEq Key⦄ where
  -- The slot of a key: every operation tests a slot once and goes on to the rest.
  unfoldable pub get : Key → HashMap Key Value → Option Value
  get key [] = none
  get key ((slot, held) ∷ rest) = if slot == key then some held else get key rest

  unfoldable pub insert : Key → Value → HashMap Key Value → HashMap Key Value
  insert key value [] = (key, value) ∷ []
  insert key value ((slot, held) ∷ rest) =
      if slot == key then (key, value) ∷ rest else (slot, held) ∷ insert key value rest

  unfoldable pub remove : Key → HashMap Key Value → HashMap Key Value
  remove key [] = []
  remove key ((slot, held) ∷ rest) =
      if slot == key then remove key rest else (slot, held) ∷ remove key rest

  abbrev pub contains_key : Key → HashMap Key Value → Bool
  contains_key key map = elim (get key map) [ none ↦ false | some _ ↦ true ]

  pub get-insert :
      (key asked : Key) (value : Value) (map : HashMap Key Value)
      → get asked (insert key value map) ≡ (if key == asked then some value else get asked map)
  unfolding get insert
  get-insert key asked value [] = refl
  get-insert key asked value ((slot, held) ∷ rest) = ground (
    arith,
    same.eq_iff key asked,
    same.eq_iff slot key,
    same.eq_iff slot asked,
    get-insert key asked value rest,
  )

  pub get-remove :
      (key asked : Key) (map : HashMap Key Value)
      → get asked (remove key map) ≡ (if key == asked then none else get asked map)
  unfolding get remove
  get-remove key asked [] = ground arith
  get-remove key asked ((slot, held) ∷ rest) = ground (
    arith,
    same.eq_iff key asked,
    same.eq_iff slot key,
    same.eq_iff slot asked,
    get-remove key asked rest,
  )

  pub get-insert_self :
      (key : Key) (value : Value) (map : HashMap Key Value)
      → get key (insert key value map) ≡ some value
  get-insert_self key value map = simp (get-insert, ==_refl)

  pub get-remove_self : (key : Key) (map : HashMap Key Value) → get key (remove key map) ≡ none
  get-remove_self key map = simp (get-remove, ==_refl)
