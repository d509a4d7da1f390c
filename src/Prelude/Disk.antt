-- ===== src/Prelude/Disk.antt =====
-- `std::fs` as an interface: any behaviour of the machine, failures and torn writes included,
-- within what the documentation promises.
use mathlib.Core.Path.{◌≡◌}
use mathlib.Core.Logic.{◌≢◌}
use mathlib.Core.Bool.{Bool, true, false}
use mathlib.Core.Option.{Option, some}
use dropwire.Prelude.Equality.{Text}

pub record Disk : Type 1 where
  pub Fs : Type 0
  pub read : Text → Fs → Option Text
  -- The flag is whether the call returned `Ok`.
  pub write : Text → Text → Fs → Bool × Fs
  pub rename : Text → Text → Fs → Bool × Fs
  -- A write that succeeds is read back; one that fails may leave anything, but in its file only.
  pub read-write :
      (p b : Text) (fs : Fs) → (write p b fs).0 ≡ true → read p (write p b fs).1 ≡ some b
  pub read-write_ne : (p q b : Text) (fs : Fs) → p ≢ q → read q (write p b fs).1 ≡ read q fs
  -- A rename replaces its target in one step or leaves everything as it was.
  pub read-rename :
      (p q : Text) (fs : Fs) → (rename p q fs).0 ≡ true → read q (rename p q fs).1 ≡ read p fs
  pub rename_failed : (p q : Text) (fs : Fs) → (rename p q fs).0 ≡ false → (rename p q fs).1 ≡ fs
  pub read-rename_ne :
      (p q r : Text) (fs : Fs) → p ≢ r → q ≢ r → read r (rename p q fs).1 ≡ read r fs
