-- ===== src/Fingerprint/Digits.antt =====
-- What the characters of `fingerprint_for` in core/src/discover.rs are: digits of the digest, read
-- as one large number.
use dropwire.Prelude.{
  ℕ, zero, suc, ◌+◌, ◌-◌, ◌*◌, ◌/◌, ◌%◌, ◌^◌, ◌≤◌, ◌<◌, ◌&&◌, Bool, false, ◌≡◌, refl, List, [], ◌∷◌,
  ◌++◌, if◌then◌else◌, Bool-cases, ltb, leb, nat_beq, Text, length, length-append, take, All, arith,
  ap, ◌∙◌, sym, subst, inl, inr,
}
use dropwire.Fingerprint.{base32_char, fp_chars, emit, shift_in, absorb, group, fingerprint_for}

-- The last `c` digits of a number in base 32, the most significant first.
pub to_digits : ℕ → ℕ → Text
to_digits zero n = []
to_digits (suc c) n = to_digits c (n / 32) ++ (base32_char (n % 32) ∷ [])

-- The number that bytes spell behind a number.
pub value_from : ℕ → List ℕ → ℕ
value_from n [] = n
value_from n (b ∷ bs) = value_from (n * 256 + b) bs

-- A digit above the lowest `k` bits, read from the 32 bits that are kept.
kept_digit : (n k : ℕ) → k ≤ 7 → n % 2 ^ 32 / 2 ^ k % 32 ≡ n / 2 ^ k % 32
kept_digit n zero h = omega arith
kept_digit n (suc zero) h = omega arith
kept_digit n (suc (suc zero)) h = omega arith
kept_digit n (suc (suc (suc zero))) h = omega arith
kept_digit n (suc (suc (suc (suc zero)))) h = omega arith
kept_digit n (suc (suc (suc (suc (suc zero))))) h = omega arith
kept_digit n (suc (suc (suc (suc (suc (suc zero)))))) h = omega arith
kept_digit n (suc (suc (suc (suc (suc (suc (suc zero))))))) h = omega arith
kept_digit n (suc (suc (suc (suc (suc (suc (suc (suc k)))))))) h = absurd (omega arith)

digit_shift : (n k : ℕ) → k ≤ 7 → n / 2 ^ k / 32 ≡ n / 2 ^ (k + 5)
digit_shift n zero h = omega arith
digit_shift n (suc zero) h = omega arith
digit_shift n (suc (suc zero)) h = omega arith
digit_shift n (suc (suc (suc zero))) h = omega arith
digit_shift n (suc (suc (suc (suc zero)))) h = omega arith
digit_shift n (suc (suc (suc (suc (suc zero))))) h = omega arith
digit_shift n (suc (suc (suc (suc (suc (suc zero)))))) h = omega arith
digit_shift n (suc (suc (suc (suc (suc (suc (suc zero))))))) h = omega arith
digit_shift n (suc (suc (suc (suc (suc (suc (suc (suc k)))))))) h = absurd (omega arith)

-- The test of the loop.
abbrev pub goes_on : ℕ → Text → Bool
goes_on bits chars = leb 5 bits && ltb (length chars) fp_chars

-- With a round of fuel for each bit the loop ends by its own test.
pub emit_done :
    (fuel acc bits : ℕ) (chars : Text)
    → bits ≤ fuel
    → let r = emit fuel acc bits chars in goes_on r.0 r.1 ≡ false
unfolding emit
emit_done zero acc bits chars h = ground arith
emit_done (suc fuel) acc bits chars h =
    elim (Bool-cases (leb 5 bits && ltb (length chars) fp_chars)) [
      | inl more ↦ rw more (emit_done fuel acc (bits - 5) _ (ground arith))
      | inr over ↦ rw over over
    ]

-- The characters so far are the digits above the bits that are left.
AreDigits : ℕ → ℕ → Text → Type 0
AreDigits n bits chars = chars ≡ to_digits (length chars) (n / 2 ^ bits)

next-AreDigits :
    (n k : ℕ) (chars : Text)
    → k ≤ 7
    → AreDigits n (k + 5) chars
    → AreDigits n k (chars ++ (base32_char (n % 2 ^ 32 / 2 ^ k % 32) ∷ []))
unfolding AreDigits to_digits
next-AreDigits n k chars u h =
    let kept = ap (λ d. chars ++ (base32_char d ∷ [])) (kept_digit n k u) in
    let above =
      ap (λ cs. cs ++ (base32_char (n / 2 ^ k % 32) ∷ []))
        (h ∙ ap (to_digits (length chars)) (sym (digit_shift n k u))) in
    let counted =
      ap (λ c. to_digits c (n / 2 ^ k)) {x = suc (length chars)}
        {y = length (chars ++ (base32_char (n % 2 ^ 32 / 2 ^ k % 32) ∷ []))}
        (omega (arith, length-append chars (base32_char (n % 2 ^ 32 / 2 ^ k % 32) ∷ []))) in
    kept ∙ above ∙ counted

emit-AreDigits :
    (n fuel bits : ℕ) (chars : Text)
    → bits ≤ 12
    → AreDigits n bits chars
    → let r = emit fuel (n % 2 ^ 32) bits chars in
      AreDigits n r.0 r.1 × (5 * length r.1 + r.0 ≡ 5 * length chars + bits)
unfolding emit
emit-AreDigits n zero bits chars u h = (h, refl)
emit-AreDigits n (suc fuel) bits chars u h = elim (Bool-cases (goes_on bits chars)) [
  | inl more ↦
      let k = bits - 5 in
      let char = base32_char (n % 2 ^ 32 / 2 ^ k % 32) in
      let h' : AreDigits n (k + 5) chars =
        subst (λ b. AreDigits n b chars) {x = bits} {y = k + 5} (ground arith) h in
      let (digits, counted) =
        emit-AreDigits n fuel k (chars ++ (char ∷ [])) (omega arith)
          (next-AreDigits n k chars (omega arith) h') in
      rw more (digits, counted ∙ ground (arith, length-append chars (char ∷ [])))
  | inr over ↦ rw over (h, refl)
]

-- One byte more.
shift_in-value : (n b : ℕ) → b < 256 → shift_in (n % 2 ^ 32) b ≡ (n * 256 + b) % 2 ^ 32
unfolding shift_in
shift_in-value n b h = omega arith

byte_shift : (n b k : ℕ) → b < 256 → k < 5 → n / 2 ^ k ≡ (n * 256 + b) / 2 ^ (k + 8)
byte_shift n b zero l h = omega arith
byte_shift n b (suc zero) l h = omega arith
byte_shift n b (suc (suc zero)) l h = omega arith
byte_shift n b (suc (suc (suc zero))) l h = omega arith
byte_shift n b (suc (suc (suc (suc zero)))) l h = omega arith
byte_shift n b (suc (suc (suc (suc (suc k))))) l h = absurd (omega arith)

byte-AreDigits :
    (n b bits : ℕ) (chars : Text)
    → b < 256
    → bits < 5
    → AreDigits n bits chars
    → AreDigits (n * 256 + b) (bits + 8) chars
unfolding AreDigits
byte-AreDigits n b bits chars l u h = h ∙ ap (to_digits (length chars)) (byte_shift n b bits l u)

-- What one byte leaves of the bits and the characters.
after_byte : ℕ → ℕ → ℕ → Text → ℕ × Text
after_byte n b bits chars = emit (bits + 8) ((n * 256 + b) % 2 ^ 32) (bits + 8) chars

after_byte_lem :
    (n b bits : ℕ) (chars : Text)
    → b < 256
    → bits < 5
    → AreDigits n bits chars
    → let r = after_byte n b bits chars in
      AreDigits (n * 256 + b) r.0 r.1
      × (5 * length r.1 + r.0 ≡ 5 * length chars + (bits + 8))
      × (goes_on r.0 r.1 ≡ false)
unfolding after_byte
after_byte_lem n b bits chars l u h =
    let (digits, counted) =
      emit-AreDigits (n * 256 + b) (bits + 8) (bits + 8) chars (omega arith)
        (byte-AreDigits n b bits chars l u h) in
    (digits, counted, emit_done (bits + 8) ((n * 256 + b) % 2 ^ 32) (bits + 8) chars (omega arith))

last_byte :
    (n : ℕ) (r : ℕ × Text) (rest : Text)
    → AreDigits n r.0 r.1
    → 5 * length r.1 + r.0 ≡ 64
    → goes_on r.0 r.1 ≡ false
    → (if nat_beq (length r.1) fp_chars then r.1 else rest) ≡ to_digits 12 (n / 2 ^ 4)
unfolding AreDigits
last_byte n (left, chars) rest h counted over =
    let full : length chars ≡ 12 = ground arith in
    let four : left ≡ 4 = ground arith in
    let digits =
      h ∙ ap (λ c. to_digits c (n / 2 ^ left)) full ∙ ap (λ k. to_digits 12 (n / 2 ^ k)) four in
    ground (arith, digits)

middle_byte :
    (m : ℕ) (r : ℕ × Text)
    → 5 * length r.1 + r.0 + 8 * suc m ≡ 64
    → goes_on r.0 r.1 ≡ false
    → (r.0 < 5) × (nat_beq (length r.1) fp_chars ≡ false)
middle_byte m (left, chars) counted over = (ground arith, ground arith)

absorb_byte :
    (n b bits : ℕ) (chars : Text) (bs : List ℕ)
    → b < 256
    → let r = after_byte n b bits chars in
      absorb (n % 2 ^ 32) bits chars (b ∷ bs)
      ≡ (if nat_beq (length r.1) fp_chars then r.1 else absorb ((n * 256 + b) % 2 ^ 32) r.0 r.1 bs)
unfolding absorb after_byte
absorb_byte n b bits chars bs l = rw (shift_in-value n b l) refl

-- The first eight bytes hold all twelve digits: `suc m` of them are still to come.
absorb-to_digits :
    (m n bits : ℕ) (chars : Text) (bs : List ℕ)
    → m < length bs
    → All (λ b. b < 256) bs
    → bits < 5
    → 5 * length chars + bits + 8 * suc m ≡ 64
    → AreDigits n bits chars
    → absorb (n % 2 ^ 32) bits chars bs ≡ to_digits 12 (value_from n (take (suc m) bs) / 2 ^ 4)
unfolding value_from
absorb-to_digits m n bits chars [] l a u e h = absurd (omega arith)
absorb-to_digits zero n bits chars (b ∷ bs) l a u e h =
    let (digits, counted, over) = after_byte_lem n b bits chars a.0 u h in
    absorb_byte n b bits chars bs a.0
    ∙ last_byte (n * 256 + b) (after_byte n b bits chars) _ digits (omega (arith, counted)) over
absorb-to_digits (suc m) n bits chars (b ∷ bs) l a u e h =
    let (digits, counted, over) = after_byte_lem n b bits chars a.0 u h in
    let r = after_byte n b bits chars in
    let counted' : 5 * length r.1 + r.0 + 8 * suc m ≡ 64 = omega (arith, counted) in
    let (few, short) = middle_byte m r counted' over in
    absorb_byte n b bits chars bs a.0
    ∙ rw short (absorb-to_digits m (n * 256 + b) r.0 r.1 bs (omega arith) a.1 few counted' digits)

-- For a hash that gives at least eight bytes, the fingerprint is the twelve base32 digits of the
-- first sixty bits of the endpoint id's hash, the most significant first, in groups of three: all
-- of these bits count, and no other.
pub fingerprint_for_lem :
    (blake3 : Text → List ℕ) (endpoint_id : Text)
    → 7 < length (blake3 endpoint_id)
    → All (λ b. b < 256) (blake3 endpoint_id)
    → fingerprint_for blake3 endpoint_id
      ≡ group (to_digits 12 (value_from 0 (take 8 (blake3 endpoint_id)) / 2 ^ 4))
unfolding fingerprint_for AreDigits to_digits
fingerprint_for_lem blake3 endpoint_id l a =
    ap group (absorb-to_digits 7 0 0 [] (blake3 endpoint_id) l a (omega arith) refl refl)
