-- ===== src/Settings.antt =====
-- src-tauri/src/settings.rs: the preferences and the trusted devices, kept in `settings.json`, with
-- the commands of src-tauri/src/lib.rs that change them. `now` is the Unix time at the call.
pub mod Trust
pub mod Prefs
pub mod Persisted
use dropwire.Prelude.{
  ℕ, suc, min, ◌≡◌, Bool, true, false, not, Option, none, some, List, [], ◌∷◌, reverse,
  if◌then◌else◌, ◌==◌, nat_eq, text_eq, Text, code_points, retain, ◌^◌, ◌-◌,
}
use dropwire.Prelude.Disk.{Disk}
use dropwire.Paths.{join_path, parent}

pub record Trusted : Type 0 where
  pub endpoint_id : Text
  pub name : Text
  pub os : Option Text
  pub fingerprint : Text
  pub transfers : ℕ
  pub last_seen : ℕ

pub record Settings : Type 0 where
  pub onboarded : Bool
  pub device_name : Option Text
  pub dest_dir : Option Text
  pub nearby_on : Bool
  pub theme : Text
  pub trusted : List Trusted
  pub skip_code_for_trusted : Bool
  pub tray_on_close : Bool
  pub start_at_login : Bool

abbrev pub default_settings : Settings
default_settings = record {
  onboarded = false;
  device_name = none;
  dest_dir = none;
  nearby_on = true;
  theme = code_points "auto";
  trusted = [];
  skip_code_for_trusted = false;
  tray_on_close = true;
  start_at_login = false;
}

pub record Store : Type 0 where
  pub path : Text
  pub inner : Settings

-- What comes from outside: the disk, directory creation, which touches no file, and serde_json.
pub record Env : Type 1 where
  pub disk : Disk
  pub open disk use *
  pub create_dir_all : Text → Fs → Fs
  pub encode : Settings → Option Text
  pub decode : Text → Option Settings
  pub read-create_dir_all : (dir p : Text) (fs : Fs) → read p (create_dir_all dir fs) ≡ read p fs
  pub decode-encode : (s : Settings) (json : Text) → encode s ≡ some json → decode json ≡ some s

-- `saturating_add(1)` on 32 bits.
abbrev pub saturating_suc : ℕ → ℕ
saturating_suc n = min (suc n) (2 ^ 32 - 1)

-- The new text, unless it is empty.
abbrev pub text_or : Text → Text → Text
text_or [] old = old
text_or (c ∷ cs) old = c ∷ cs

abbrev pub option_or : Option Text → Option Text → Option Text
option_or none old = old
option_or (some t) old = some t

-- The entry of a device seen before, after one more transfer.
pub bumped : ℕ → Trusted → Trusted → Trusted
bumped now dev existing = record existing {
  transfers = saturating_suc existing.transfers;
  last_seen = now;
  name = text_or dev.name existing.name;
  os = option_or dev.os existing.os;
  fingerprint = text_or dev.fingerprint existing.fingerprint;
}

pub first_seen : ℕ → Trusted → Trusted
first_seen now dev = record dev { transfers = 1; last_seen = now }

-- The closure of `remember`: the first entry with the id, or a new one at the end.
pub remember_in : ℕ → Trusted → List Trusted → List Trusted
unfolding bumped first_seen
remember_in now dev [] = first_seen now dev ∷ []
remember_in now dev (t ∷ ts) =
    if t.endpoint_id == dev.endpoint_id then bumped now dev t ∷ ts else t ∷ remember_in now dev ts

pub forget_in : Text → List Trusted → List Trusted
forget_in endpoint_id = retain (λ t. not (t.endpoint_id == endpoint_id))

module _ (env : Env) where
  open env use {Fs, read, write, create_dir_all, encode, decode}

  loaded : Option Text → Settings
  loaded none = default_settings
  loaded (some json) = elim (decode json) [ none ↦ default_settings | some s ↦ s ]

  pub load : Text → Fs → Store
  unfolding loaded
  load data_dir fs =
      let path = join_path data_dir (code_points "settings.json") in
      record { path = path; inner = loaded (read path fs) }

  -- A failed encoding or write is logged, not raised.
  unfoldable pub persist : Text → Option Text → Fs → Fs
  persist path none fs = fs
  persist path (some json) fs = (write path json fs).1

  -- The snapshot returned is the settings of the store returned.
  unfoldable pub update : (Settings → Settings) → Store → Fs → Store × Fs
  unfolding persist
  update f store fs =
      let snapshot = f store.inner in
      (
        record store { inner = snapshot },
        persist store.path (encode snapshot) (create_dir_all (parent store.path) fs),
      )

  pub remember : ℕ → Trusted → Store → Fs → Store × Fs
  remember now dev = update (λ s. record s { trusted = remember_in now dev s.trusted })

  pub forget : Text → Store → Fs → Store × Fs
  forget endpoint_id = update (λ s. record s { trusted = forget_in endpoint_id s.trusted })
