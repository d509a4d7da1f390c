-- ===== src/Catalog.antt =====
-- core/src/catalog.rs: the local history of transfers, and the file `transfers.json` it lives in.
-- The entries are a `BTreeMap` from the transfer id's text. Each operation takes the catalog and
-- the disk, and returns both; `now` is the Unix time in seconds at the call.
pub mod Saving
pub mod Records
pub mod Untold
pub mod Listing
pub mod Filled
mod Tests
use dropwire.Prelude.{
  ℕ, ◌≡◌, Bool, true, false, Option, none, some, List, [], ◌∷◌, ◌++◌, map, reverse, if◌then◌else◌,
  leb, ◌==◌, nat_eq, Text, code_points, retain, any,
}
use dropwire.Prelude.Disk.{Disk}
use dropwire.Prelude.Sort.{sort_by}
use dropwire.Prelude.TreeMap
use dropwire.Prelude.TreeMap.{BTreeMap, IsOrdered, values}
use dropwire.Progress.{TransferId, Direction}

pub data Status : Type 0 where
  active done error cancelled interrupted : Status

pub record TransferRecord : Type 0 where
  pub id : TransferId
  pub direction : Direction
  pub name : Text
  pub ticket : Text
  pub hash : Text
  pub dest : Option Text
  pub source : Option Text
  pub file_count : ℕ
  pub total_bytes : ℕ
  pub transferred : ℕ
  pub status : Status
  pub created_at : ℕ
  pub updated_at : ℕ

pub record Catalog : Type 0 where
  pub entries : BTreeMap TransferRecord
  pub path : Text

-- `r.status == Status::Active`.
abbrev pub is_active : Status → Bool
is_active active = true
is_active _ = false

-- What the catalog takes from outside: the disk, serde_json on the entries, and the text of a
-- transfer id. Encoding may fail; decoding gives back what was encoded, and only ordered maps.
pub record Env : Type 1 where
  pub disk : Disk
  pub open disk use *
  pub encode : BTreeMap TransferRecord → Option Text
  pub decode : Text → Option (BTreeMap TransferRecord)
  pub show : TransferId → Text
  pub decode-encode :
      (m : BTreeMap TransferRecord) (b : Text) → encode m ≡ some b → decode b ≡ some m
  pub decode-IsOrdered : (b : Text) (m : BTreeMap TransferRecord) → decode b ≡ some m → IsOrdered m
  pub show_injective : (a b : TransferId) → show a ≡ show b → a ≡ b

-- `Path::with_extension` on the reversed path: the part before the last dot of the file name,
-- if there is one and it is not the name's first character.
has_stem : Text → Text → Text
has_stem whole [] = whole
has_stem whole (c ∷ cs) = if c == b'/' then whole else c ∷ cs

strip_extension : Text → Text → Text
unfolding has_stem
strip_extension whole [] = whole
strip_extension whole (c ∷ cs) =
    if c == b'/' then whole else if c == b'.' then has_stem whole cs else strip_extension whole cs

pub with_extension : Text → Text → Text
unfolding strip_extension
with_extension path ext = reverse (strip_extension (reverse path) (reverse path)) ++ (b'.' ∷ ext)

-- `Catalog::new_record`.
unfoldable pub new_record :
    ℕ
    → TransferId
    → Direction
    → (name ticket hash : Text) (dest source : Option Text) (file_count total_bytes : ℕ)
    → TransferRecord
new_record now id direction name ticket hash dest source file_count total_bytes = record {
  id = id;
  direction = direction;
  name = name;
  ticket = ticket;
  hash = hash;
  dest = dest;
  source = source;
  file_count = file_count;
  total_bytes = total_bytes;
  transferred = 0;
  status = active;
  created_at = now;
  updated_at = now;
}

-- The body of the `if let` of `set_status`.
abbrev pub with_status : ℕ → Status → Option ℕ → TransferRecord → TransferRecord
with_status now status none rec = record rec { status = status; updated_at = now }
with_status now status (some t) rec = record rec {
  status = status;
  transferred = t;
  updated_at = now;
}

-- The body of the loop of `mark_stale_interrupted`.
abbrev pub interrupt : TransferRecord → TransferRecord
interrupt rec = if is_active rec.status then record rec { status = interrupted } else rec

-- `sort_by_key` by `Reverse(created_at)`.
abbrev pub newer_first : TransferRecord → TransferRecord → Bool
newer_first a b = leb b.created_at a.created_at

unfoldable pub list : Catalog → List TransferRecord
list cat = sort_by newer_first (values cat.entries)

module _ (env : Env) where
  open env use {Fs, read, write, rename, encode, decode, show}

  -- The write to the temporary file, and the rename where that succeeded.
  commit : Text → Text → Text → Fs → Fs
  commit tmp path json fs =
      let (is_ok, fs') = write tmp json fs in if is_ok then (rename tmp path fs').1 else fs'

  -- The catalog with no path is never written, nor one that does not encode.
  save_to : Text → Option Text → Fs → Fs
  unfolding commit
  save_to [] json fs = fs
  save_to (c ∷ path) none fs = fs
  save_to (c ∷ path) (some json) fs =
      commit (with_extension (c ∷ path) (code_points "json.tmp")) (c ∷ path) json fs

  pub save : Catalog → Fs → Fs
  unfolding save_to
  save cat fs = save_to cat.path (encode cat.entries) fs

  unfoldable pub decoded : Option Text → BTreeMap TransferRecord
  decoded none = []
  decoded (some bytes) = elim (decode bytes) [ none ↦ [] | some entries ↦ entries ]

  unfoldable pub load : Text → Fs → Catalog
  unfolding decoded
  load path fs = record { entries = decoded (read path fs); path = path }

  -- Each operation ends by saving what it leaves.
  abbrev pub saved : Catalog → Fs → Catalog × Fs
  saved cat fs = (cat, save cat fs)

  pub upsert : ℕ → TransferRecord → Catalog → Fs → Catalog × Fs
  upsert now rec cat fs =
      let stamped = record rec { updated_at = now } in
      saved (record cat { entries = TreeMap.insert (show rec.id) stamped cat.entries }) fs

  pub set_status : ℕ → TransferId → Status → Option ℕ → Catalog → Fs → Catalog × Fs
  set_status now id status transferred cat fs =
      let entries = TreeMap.modify (show id) (with_status now status transferred) cat.entries in
      saved (record cat { entries = entries }) fs

  unfoldable pub get : TransferId → Catalog → Option TransferRecord
  get id cat = TreeMap.get (show id) cat.entries

  pub clear_finished : Catalog → Fs → Catalog × Fs
  clear_finished cat fs =
      saved (record cat { entries = retain (λ e. is_active e.1.status) cat.entries }) fs

  -- Saved only where some entry was active.
  unfoldable pub mark_stale_interrupted : Catalog → Fs → Catalog × Fs
  mark_stale_interrupted cat fs =
      let entries = map (λ e. (e.0, interrupt e.1)) cat.entries in
      let cat' = record cat { entries = entries } in
      if any (λ e. is_active e.1.status) cat.entries then saved cat' fs else (cat', fs)
