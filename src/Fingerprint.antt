-- ===== src/Fingerprint.antt =====
-- core/src/discover.rs, `NearbyDevice::fingerprint_for`: the short code that two people compare.
-- BLAKE3 is a parameter, from the bytes of an endpoint id's text to the 32 bytes of its digest.
pub mod Digits
mod Tests
use dropwire.Prelude.{
  ℕ, zero, suc, ◌+◌, ◌-◌, ◌*◌, ◌/◌, ◌%◌, ◌^◌, ◌&&◌, none, some, List, [], ◌∷◌, ◌++◌, if◌then◌else◌,
  ltb, leb, nat_beq, Text, code_points, length, get_elem?,
}

-- `FP_CHARS`.
abbrev pub fp_chars : ℕ
fp_chars = 12

-- `BASE32`.
abbrev pub base32 : Text
base32 = code_points "abcdefghijklmnopqrstuvwxyz234567"

-- `BASE32.as_bytes()[idx]`; an index below 32 is always in range.
abbrev pub base32_char : ℕ → ℕ
base32_char idx = elim (get_elem? base32 idx) [ none ↦ 0 | some c ↦ c ]

-- The inner `while`. Every round takes five bits, so `bits` rounds of fuel are more than enough.
pub emit : ℕ → (acc bits : ℕ) → Text → ℕ × Text
emit zero acc bits chars = (bits, chars)
emit (suc fuel) acc bits chars =
    let rest = emit fuel acc (bits - 5) (chars ++ (base32_char (acc / 2 ^ (bits - 5) % 32) ∷ [])) in
    if leb 5 bits && ltb (length chars) fp_chars then rest else (bits, chars)

-- One round of the `for` over the digest. `acc << 8` drops what leaves the 32 bits, and its low
-- byte is clear, so that `| b` adds `b`.
pub shift_in : ℕ → ℕ → ℕ
shift_in acc b = acc * 256 % 2 ^ 32 + b

pub absorb : (acc bits : ℕ) → Text → List ℕ → Text
absorb acc bits chars [] = chars
absorb acc bits chars (b ∷ bs) =
    let acc' = shift_in acc b in
    let (bits', chars') = emit (bits + 8) acc' (bits + 8) chars in
    let rest = absorb acc' bits' chars' bs in
    if nat_beq (length chars') fp_chars then chars' else rest

-- `chunks(3)`, joined by spaces.
pub group : Text → Text
group (a ∷ b ∷ c ∷ d ∷ rest) = a ∷ b ∷ c ∷ b' ' ∷ group (d ∷ rest)
group chars = chars

pub fingerprint_for : (Text → List ℕ) → Text → Text
fingerprint_for blake3 endpoint_id = group (absorb 0 0 [] (blake3 endpoint_id))
