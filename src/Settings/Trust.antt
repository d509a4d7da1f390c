-- ===== src/Settings/Trust.antt =====
-- The list of trusted devices of src-tauri/src/settings.rs, seen as a map from endpoint ids.
use dropwire.Prelude.{
  ℕ, ◌≡◌, Option, none, some, List, [], ◌∷◌, arith, if◌then◌else◌, ◌==◌, text_eq, Text, find,
  text_beq_iff,
}
use dropwire.Settings.{Trusted, bumped, first_seen, remember_in, forget_in}

abbrev pub find_device : Text → List Trusted → Option Trusted
find_device id = find (λ t. t.endpoint_id == id)

-- What a transfer with a device makes of the entry found for it.
abbrev pub merged : ℕ → Trusted → Option Trusted → Trusted
merged now dev none = first_seen now dev
merged now dev (some t) = bumped now dev t

-- Remembering a device leaves under its id the entry bumped, or a new one with a single transfer
-- where there was none, and every other device as it was.
pub find_device-remember_in :
    (now : ℕ) (dev : Trusted) (id : Text) (ts : List Trusted)
    → find_device id (remember_in now dev ts) ≡ (
        if dev.endpoint_id == id
        then some (merged now dev (find_device id ts))
        else find_device id ts)
unfolding remember_in bumped first_seen
find_device-remember_in now dev id [] = ground arith
find_device-remember_in now dev id (t ∷ ts) = ground (
  arith,
  text_beq_iff dev.endpoint_id id,
  text_beq_iff t.endpoint_id id,
  text_beq_iff t.endpoint_id dev.endpoint_id,
  find_device-remember_in now dev id ts,
)

-- Forgetting a device removes every entry with its id, and no other.
pub find_device-forget_in :
    (gone id : Text) (ts : List Trusted)
    → find_device id (forget_in gone ts) ≡ (if gone == id then none else find_device id ts)
unfolding forget_in
find_device-forget_in gone id [] = ground arith
find_device-forget_in gone id (t ∷ ts) = ground (
  arith,
  text_beq_iff gone id,
  text_beq_iff t.endpoint_id id,
  text_beq_iff t.endpoint_id gone,
  find_device-forget_in gone id ts,
)
