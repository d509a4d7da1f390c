-- ===== src/Catalog/Filled.antt =====
-- A disk and a codec that fill the interface of core/src/catalog.rs: a disk in memory that never
-- fails, and a file format of the one history that is empty; any other does not encode.
use dropwire.Prelude.{
  ℕ, ◌≡◌, Option, none, some, [], ◌∷◌, Text, text_eq, code_points, arith, text_beq_iff,
  if◌then◌else◌, ◌==◌, Bool-cases, inl, inr, subst,
}
use dropwire.Prelude.Memory.{memory}
use dropwire.Prelude.TreeMap.{BTreeMap, IsOrdered}
use dropwire.Catalog.{Env, TransferRecord}

unfoldable pub encode_empty : BTreeMap TransferRecord → Option Text
encode_empty [] = some (code_points "E")
encode_empty (_ ∷ _) = none

unfoldable pub decode_empty : Text → Option (BTreeMap TransferRecord)
decode_empty b = if b == code_points "E" then some [] else none

pub decode-encode_empty :
    (m : BTreeMap TransferRecord) (b : Text) → encode_empty m ≡ some b → decode_empty b ≡ some m
unfolding encode_empty decode_empty
decode-encode_empty [] b h = ground (arith, text_beq_iff b (code_points "E"))
decode-encode_empty (_ ∷ _) b h = absurd (cc h)

pub decode_empty-IsOrdered :
    (b : Text) (m : BTreeMap TransferRecord) → decode_empty b ≡ some m → IsOrdered m
unfolding decode_empty
decode_empty-IsOrdered b m h = elim (Bool-cases (b == code_points "E")) [
  | inl e ↦ let m' : ◌≡◌ {A = BTreeMap TransferRecord} [] m = ground arith in subst IsOrdered m' tt
  | inr e ↦ absurd (ground arith)
]

pub show_injective : (a b : ℕ) → ◌≡◌ {A = Text} (a ∷ []) (b ∷ []) → a ≡ b
show_injective a b h = ground arith

abbrev pub filled : Env
filled = record {
  disk = memory;
  encode = encode_empty;
  decode = decode_empty;
  show = λ id. id ∷ [];
  decode-encode = decode-encode_empty;
  decode-IsOrdered = decode_empty-IsOrdered;
  show_injective = show_injective;
}
