-- ===== src/Fingerprint/Tests.antt =====
-- The fingerprint of core/src/discover.rs on a digest of eight given bytes.
use dropwire.Prelude.{ℕ, ◌/◌, ◌^◌, ◌≡◌, refl, List, [], ◌∷◌, take, Text, code_points, arith}
use dropwire.Fingerprint.{emit, shift_in, absorb, group, fingerprint_for}
use dropwire.Fingerprint.Digits.{to_digits, value_from, fingerprint_for_lem}

abbrev digest : Text → List ℕ
digest t = 200 ∷ 17 ∷ 0 ∷ 255 ∷ 64 ∷ 3 ∷ 128 ∷ 99 ∷ []

shown : fingerprint_for digest (code_points "e1") ≡ code_points "zai qb7 2aa oag"
unfolding fingerprint_for absorb emit shift_in group
shown = refl

fingerprint_for_example :
    fingerprint_for digest (code_points "e1")
    ≡ group (to_digits 12 (value_from 0 (take 8 (digest (code_points "e1"))) / 2 ^ 4))
fingerprint_for_example = fingerprint_for_lem digest (code_points "e1") (omega arith) (omega arith)
