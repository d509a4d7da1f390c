-- ===== src/Identity.antt =====
-- core/src/identity.rs: the key of this device, kept in a file. The contents of the file are its
-- bytes.
use dropwire.Prelude.{
  ◌≡◌, refl, Option, none, some, if◌then◌else◌, ◌==◌, nat_eq, Text, length, arith, ap, ◌∙◌, subst,
  Bool-cases, inl, inr,
}
use dropwire.Prelude.Disk.{Disk}

-- What iroh's keys and the file's permissions promise: a key has 32 bytes, from which it is read
-- back, and making a file private does not change what its owner reads.
pub record Keys (disk : Disk) : Type 1 where
  pub SecretKey : Type 0
  pub to_bytes : SecretKey → Text
  pub from_bytes : Text → SecretKey
  pub set_permissions : Text → disk.Fs → disk.Fs
  pub from_bytes-to_bytes : (sk : SecretKey) → from_bytes (to_bytes sk) ≡ sk
  pub length-to_bytes : (sk : SecretKey) → length (to_bytes sk) ≡ 32
  pub read-set_permissions :
      (p q : Text) (fs : disk.Fs) → disk.read q (set_permissions p fs) ≡ disk.read q fs

module _ (disk : Disk) (keys : Keys disk) where
  open disk use {Fs, read, write, read-write}
  open keys use {
    SecretKey, to_bytes, from_bytes, set_permissions, from_bytes-to_bytes, length-to_bytes,
    read-set_permissions,
  }

  -- The key in the file's bytes, if there are as many as a key has.
  unfoldable pub stored : Option Text → Option SecretKey
  stored none = none
  stored (some bytes) = if length bytes == 32 then some (from_bytes bytes) else none

  -- A fresh key is used only once it is written; the result of making it private is ignored.
  unfoldable pub create : Text → SecretKey → Fs → Option SecretKey × Fs
  create key_path fresh fs =
      let (is_ok, fs') = write key_path (to_bytes fresh) fs in
      if is_ok then (some fresh, set_permissions key_path fs') else (none, fs')

  unfoldable pub load_or : Text → SecretKey → Option SecretKey → Fs → Option SecretKey × Fs
  unfolding create
  load_or key_path fresh (some sk) fs = (some sk, fs)
  load_or key_path fresh none fs = create key_path fresh fs

  unfoldable pub load_or_create : Text → SecretKey → Fs → Option SecretKey × Fs
  unfolding load_or stored
  load_or_create key_path fresh fs = load_or key_path fresh (stored (read key_path fs)) fs

  -- The file holds the key.
  abbrev pub Holds : Text → SecretKey → Fs → Type 0
  Holds key_path sk fs = stored (read key_path fs) ≡ some sk

  stored-to_bytes : (sk : SecretKey) → stored (some (to_bytes sk)) ≡ some sk
  unfolding stored
  stored-to_bytes sk = ground (arith, length-to_bytes sk, from_bytes-to_bytes sk)

  HoldsIf : Text → Option SecretKey → Fs → Type 0
  HoldsIf key_path none fs = Unit
  HoldsIf key_path (some sk) fs = Holds key_path sk fs

  create-HoldsIf :
      (key_path : Text) (fresh : SecretKey) (fs : Fs)
      → let (o, fs') = create key_path fresh fs in HoldsIf key_path o fs'
  unfolding create HoldsIf
  create-HoldsIf key_path fresh fs = elim (Bool-cases (write key_path (to_bytes fresh) fs).0) [
    | inl ok ↦ rw (ok) (
        ap stored
          (read-set_permissions key_path key_path _ ∙ read-write key_path (to_bytes fresh) fs ok)
        ∙ stored-to_bytes fresh)
    | inr failed ↦ rw (failed) tt
  ]

  load_or-HoldsIf :
      (key_path : Text) (fresh : SecretKey) (o : Option SecretKey) (fs : Fs)
      → stored (read key_path fs) ≡ o
      → let (o', fs') = load_or key_path fresh o fs in HoldsIf key_path o' fs'
  unfolding load_or HoldsIf
  load_or-HoldsIf key_path fresh none fs e = create-HoldsIf key_path fresh fs
  load_or-HoldsIf key_path fresh (some sk) fs e = e

  -- The key that is returned is the one in the file.
  pub load_or_create-Holds :
      (key_path : Text) (fresh sk : SecretKey) (fs fs' : Fs)
      → load_or_create key_path fresh fs ≡ (some sk, fs')
      → Holds key_path sk fs'
  unfolding load_or_create HoldsIf
  load_or_create-Holds key_path fresh sk fs fs' e =
      subst (λ (r : Option SecretKey × Fs). HoldsIf key_path r.0 r.1) e
        (load_or-HoldsIf key_path fresh (stored (read key_path fs)) fs refl)

  -- A key in the file is the one that is returned, and nothing is written.
  pub load_or_create_again :
      (key_path : Text) (fresh sk : SecretKey) (fs : Fs)
      → Holds key_path sk fs
      → load_or_create key_path fresh fs ≡ (some sk, fs)
  unfolding load_or_create load_or
  load_or_create_again key_path fresh sk fs h = ap (λ o. load_or key_path fresh o fs) h
