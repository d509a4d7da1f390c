-- ===== src/Shell/Snippets.antt =====
-- src-tauri/src/lib.rs, `write_text_file`: a text that is sent as a small file of its own.
pub mod Kept
mod Tests
use dropwire.Prelude.{
  ℕ, ◌≡◌, Bool, Option, none, some, [], ◌∷◌, ◌++◌, if◌then◌else◌, ◌==◌, text_eq, ◌⊎◌, inl, inr,
  Text, code_points,
}
use dropwire.Prelude.Disk.{Disk}
use dropwire.Paths.{join_path}
use dropwire.Shell.{trim}

-- The surroundings: the disk, `create_dir_all` with its error, which leaves the files' contents, the
-- directories of Tauri and of the machine, the text of a write's error, the white space of Unicode, and
-- the decimal digits of a number, which tell numbers apart.
pub record Machine : Type 1 where
  pub disk : Disk
  pub create_dir_all : Text → disk.Fs → Option Text × disk.Fs
  pub app_cache_dir : Option Text
  pub temp_dir : Text
  pub write_error : Text
  pub is_whitespace : ℕ → Bool
  pub decimal : ℕ → Text
  pub read-create_dir_all :
      (dir p : Text) (fs : disk.Fs) → disk.read p (create_dir_all dir fs).1 ≡ disk.read p fs
  pub decimal_injective : (m n : ℕ) → decimal m ≡ decimal n → m ≡ n

-- `unwrap_or`, for the time since the epoch and for the directory.
abbrev pub unwrap_or {ℓ} : {A : Type ℓ} → A → Option A → A
unwrap_or x none = x
unwrap_or x (some y) = y

module _ (m : Machine) where
  open m use {disk, decimal}
  open disk use {Fs}

  pub text_dir : Text
  text_dir = join_path (unwrap_or m.temp_dir m.app_cache_dir) (code_points "dropwire-text")

  pub snippet_path : ℕ → Text
  unfolding text_dir
  snippet_path stamp =
      join_path text_dir (code_points "shared-text-" ++ (decimal stamp ++ code_points ".txt"))

  abbrev pub Written : Type 0
  Written = (Text ⊎ Text) × Fs

  write_snippet : Text → ℕ → Fs → Written
  unfolding snippet_path
  write_snippet text stamp fs =
      let (is_ok, fs') = disk.write (snippet_path stamp) text fs in
      (if is_ok then inr (snippet_path stamp) else inl m.write_error, fs')

  with_dir : Text → ℕ → Option Text → Fs → Written
  unfolding write_snippet
  with_dir text stamp (some e) fs = (inl e, fs)
  with_dir text stamp none fs = write_snippet text stamp fs

  -- The seconds since the epoch, where the clock is past it.
  pub write_text_file : Text → Option ℕ → Fs → Written
  unfolding with_dir text_dir
  write_text_file text since_epoch fs =
      let (made, fs') = m.create_dir_all text_dir fs in
      let rest = with_dir text (unwrap_or 0 since_epoch) made fs' in
      if trim m.is_whitespace text == [] then (inl (code_points "nothing to send"), fs) else rest
