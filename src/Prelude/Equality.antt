-- ===== src/Prelude/Equality.antt =====
-- Rust's `PartialEq` as an interface, and text: a `String` is the list of its code points.
use Prim.Native.Nat.{ℕ}
use Prim.Native.Char.{code}
use Prim.Native.String.{String}
use mathlib.Core.Path.{◌≡◌, refl}
use mathlib.Core.Logic.{◌↔◌}
use mathlib.Core.Bool.{Bool, true, false, ◌&&◌}
use mathlib.Core.List.{List, [], ◌∷◌}
use native.Mathlib.Omega.{arith}
use dropwire.Prelude.Tests.{nat_beq, nat_beq_iff}

pub record PartialEq {ℓ} (K : Type ℓ) : Type ℓ where
  pub eq : K → K → Bool
  pub eq_iff : (x y : K) → (eq x y ≡ true) ↔ (x ≡ y)

infix 50 ◌==◌
abbrev pub ◌==◌ {ℓ} : {K : Type ℓ} ⦃same : PartialEq K⦄ → K → K → Bool
◌==◌ ⦃same⦄ x y = same.eq x y

pub ==_refl {ℓ} : {K : Type ℓ} ⦃same : PartialEq K⦄ (x : K) → (x == x) ≡ true
==_refl ⦃same⦄ x = (same.eq_iff x x).1 refl

instance abbrev pub nat_eq : PartialEq ℕ
nat_eq = record { eq = λ x y. nat_beq x y; eq_iff = λ x y. nat_beq_iff x y }

-- An iroh `EndpointId` is a 32-byte public key: the number that its bytes spell.
abbrev pub EndpointId : Type 0
EndpointId = ℕ

abbrev pub Text : Type 0
Text = List ℕ

unfoldable pub text_beq : Text → Text → Bool
text_beq [] [] = true
text_beq [] (_ ∷ _) = false
text_beq (_ ∷ _) [] = false
text_beq (a ∷ s) (b ∷ t) = nat_beq a b && text_beq s t

pub text_beq_iff : (s t : Text) → (text_beq s t ≡ true) ↔ (s ≡ t)
unfolding text_beq
text_beq_iff [] [] = ground arith
text_beq_iff [] (b ∷ t) = ground arith
text_beq_iff (a ∷ s) [] = ground arith
text_beq_iff (a ∷ s) (b ∷ t) = ground (arith, text_beq_iff s t)

instance abbrev pub text_eq : PartialEq Text
text_eq = record { eq = text_beq; eq_iff = text_beq_iff }

-- The text that a literal stands for.
abbrev pub code_points : String → Text
code_points (String.◌∷◌ letter letters) = code letter ∷ code_points letters
code_points String.[] = []
