-- ===== src/Prelude/Memory.antt =====
-- A disk in memory that never fails, as an association list from paths to contents.
use mathlib.Core.Path.{◌≡◌, refl}
use mathlib.Core.Logic.{◌≢◌}
use mathlib.Core.Bool.{Bool, true, false}
use mathlib.Core.Option.{Option, none, some}
use native.Mathlib.Omega.{arith}
use dropwire.Prelude.Equality.{Text, text_eq, text_beq_iff}
use dropwire.Prelude.Map
use dropwire.Prelude.Map.{HashMap, get-insert_self, get-insert, get-remove}
use dropwire.Prelude.Disk.{Disk}

unfoldable pub move_file : Text → Text → Option Text → HashMap Text Text → Bool × HashMap Text Text
move_file p q none fs = (false, fs)
move_file p q (some b) fs = (true, Map.insert q b (Map.remove p fs))

pub read_moved :
    (p q : Text) (o : Option Text) (fs : HashMap Text Text)
    → (move_file p q o fs).0 ≡ true
    → Map.get q (move_file p q o fs).1 ≡ o
unfolding move_file
read_moved p q none fs h = cc
read_moved p q (some b) fs h = get-insert_self q b (Map.remove p fs)

pub read_moved_ne :
    (p q r : Text) (o : Option Text) (fs : HashMap Text Text)
    → p ≢ r
    → q ≢ r
    → Map.get r (move_file p q o fs).1 ≡ Map.get r fs
unfolding move_file
read_moved_ne p q r none fs h k = refl
read_moved_ne p q r (some b) fs h k = ground (
  arith,
  get-insert q r b (Map.remove p fs),
  get-remove p r fs,
  text_beq_iff q r,
  text_beq_iff p r,
)

pub not_moved :
    (p q : Text) (o : Option Text) (fs : HashMap Text Text)
    → (move_file p q o fs).0 ≡ false
    → (move_file p q o fs).1 ≡ fs
unfolding move_file
not_moved p q none fs h = refl
not_moved p q (some b) fs h = cc

pub written_ne :
    (p q b : Text) (fs : HashMap Text Text) → p ≢ q → Map.get q (Map.insert p b fs) ≡ Map.get q fs
written_ne p q b fs h = ground (arith, get-insert p q b fs, text_beq_iff p q)

abbrev pub memory : Disk
memory = record {
  Fs = HashMap Text Text;
  read = Map.get;
  write = λ p b fs. (true, Map.insert p b fs);
  rename = λ p q fs. move_file p q (Map.get p fs) fs;
  read-write = λ p b fs h. get-insert_self p b fs;
  read-write_ne = λ p q b fs h. written_ne p q b fs h;
  read-rename = λ p q fs h. read_moved p q (Map.get p fs) fs h;
  rename_failed = λ p q fs h. not_moved p q (Map.get p fs) fs h;
  read-rename_ne = λ p q r fs h k. read_moved_ne p q r (Map.get p fs) fs h k;
}
