-- ===== src/Shell/Snippets/Tests.antt =====
-- Two texts shared within one second through src-tauri/src/lib.rs, on a disk in memory.
use dropwire.Prelude.{
  ℕ, ◌≡◌, refl, nat_eq, some, none, [], ◌∷◌, ◌++◌, Text, code_points, text_eq, ◌==◌,
}
use dropwire.Prelude.Memory.{memory}
use dropwire.Shell.{trim}
use dropwire.Shell.Snippets.{Machine, write_text_file}
use dropwire.Shell.Snippets.Kept.{two_snippets}

digit_injective : (m n : ℕ) → m ∷ [] ≡ n ∷ [] → m ≡ n
digit_injective m n h = cc h

-- Numbers are written in a base above all of them.
abbrev machine : Machine
machine = record {
  disk = memory;
  create_dir_all = λ dir fs. (none, fs);
  app_cache_dir = some (code_points "/cache");
  temp_dir = code_points "/tmp";
  write_error = code_points "denied";
  is_whitespace = λ c. c == 32;
  decimal = λ n. n ∷ [];
  read-create_dir_all = λ dir p fs. refl;
  decimal_injective = digit_injective;
}

abbrev no_files : memory.Fs
no_files = []

abbrev path : Text
path = code_points "/cache/dropwire-text/shared-text-" ++ (5 ∷ code_points ".txt")

two_snippets_example :
    let fs' = (write_text_file machine (code_points "one") (some 5) no_files).1 in
    let fs'' = (write_text_file machine (code_points "two") (some 5) fs').1 in
    (memory.read path fs' ≡ some (code_points "one"))
    × (memory.read path fs'' ≡ some (code_points "two"))
    × (memory.read path fs'' ≡ some (code_points "two"))
unfolding write_text_file dropwire.Prelude.text_beq trim dropwire.Paths.join_path
two_snippets_example =
    two_snippets machine (code_points "one") (code_points "two") (some 5) (some 5) path path
      no_files refl refl
