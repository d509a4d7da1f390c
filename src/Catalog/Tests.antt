-- ===== src/Catalog/Tests.antt =====
-- The catalog of core/src/catalog.rs at concrete inputs, on a disk that never fails.
use dropwire.Prelude.{
  ℕ, ◌≡◌, refl, Option, none, some, [], ◌∷◌, arith, if◌then◌else◌, ◌==◌, text_eq, nat_eq, Text,
  code_points, text_beq_iff, ◌⊎◌, Bool-cases, inl, inr, subst,
}
use dropwire.Prelude.Memory.{memory}
use dropwire.Prelude.Order.{text_leb}
use dropwire.Prelude.TreeMap.{BTreeMap, IsOrdered}
use dropwire.Progress.{send, receive}
use native.Mathlib.Decide.{ℕ_discrete}
use dropwire.Catalog.Saving.{load-save}
use dropwire.Catalog.{Catalog, TransferRecord, done, Env, new_record, save, load}

abbrev first_record : TransferRecord
first_record =
    new_record 10 1 send (code_points "a.txt") (code_points "t1") (code_points "h1") none none 1 100

abbrev second_record : TransferRecord
second_record =
    record (new_record 20 2 receive (code_points "b") (code_points "t2") (code_points "h2") none
      none 0 7) { status = done }

abbrev sample : BTreeMap TransferRecord
unfolding new_record
sample = (1 ∷ [], first_record) ∷ (2 ∷ [], second_record) ∷ []

sample-discrete : Discrete (BTreeMap TransferRecord)
sample-discrete = hlevel ℕ_discrete

-- An encoding of the one catalog that the tests save.
encode_sample : BTreeMap TransferRecord → Option Text
encode_sample m = elim (sample-discrete m sample) [ yes e ↦ some (code_points "S") | no e ↦ none ]

decode_sample : Text → Option (BTreeMap TransferRecord)
decode_sample b = if b == code_points "S" then some sample else none

decode-encode_sample :
    (m : BTreeMap TransferRecord) (b : Text) → encode_sample m ≡ some b → decode_sample b ≡ some m
unfolding encode_sample decode_sample
decode-encode_sample m b h = ground (arith, text_beq_iff b (code_points "S"))

sample-IsOrdered : IsOrdered sample
unfolding text_leb sample
sample-IsOrdered = ((refl, tt), (tt, tt))

decode_sample-IsOrdered :
    (b : Text) (m : BTreeMap TransferRecord) → decode_sample b ≡ some m → IsOrdered m
unfolding decode_sample
decode_sample-IsOrdered b m h = elim (Bool-cases (b == code_points "S")) [
  | inl e ↦ let m' : sample ≡ m = ground arith in subst IsOrdered m' sample-IsOrdered
  | inr e ↦ absurd (ground arith)
]

show_injective : (a b : ℕ) → ◌≡◌ {A = Text} (a ∷ []) (b ∷ []) → a ≡ b
show_injective a b h = ground arith

abbrev env : Env
env = record {
  disk = memory;
  encode = encode_sample;
  decode = decode_sample;
  show = λ id. id ∷ [];
  decode-encode = decode-encode_sample;
  decode-IsOrdered = decode_sample-IsOrdered;
  show_injective = show_injective;
}

abbrev history : Catalog
history = record { entries = sample; path = code_points "d/transfers.json" }

encoded : encode_sample sample ≡ some (code_points "S")
unfolding encode_sample
encoded =
    elim (sample-discrete sample sample)
      as (λ d.
        elim d as (λ _. Option Text) [ yes e ↦ some (code_points "S") | no e ↦ none ]
        ≡ some (code_points "S")) [ yes e ↦ refl | no e ↦ absurd (e refl) ]

load-save_example :
    (load env (code_points "d/transfers.json") (save env history [])
      ≡ load env (code_points "d/transfers.json") [])
    ⊎ (load env (code_points "d/transfers.json") (save env history []) ≡ history)
load-save_example = load-save env history []
