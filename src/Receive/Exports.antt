-- ===== src/Receive/Exports.antt =====
-- Which files of the collection a run of core/src/receive.rs writes, and where.
use dropwire.Prelude.{
  ℕ, suc, Bool, true, false, ◌≡◌, refl, Option, none, some, List, [], ◌∷◌, ◌++◌, if◌then◌else◌,
  Text, ap, ◌∙◌, inl, inr, Bool-cases,
}
use mathlib.Core.List.{append-nil}
use dropwire.Progress.{TransferId}
use dropwire.Paths.{export_target, parent}
use dropwire.Receive.{
  Effect, emitted, status_set, recorded, sizes_asked, asked, exported, Remote, Stage, after,
  is_wanted, export_file, export_from, conclude, make_dest, export_stage,
}

pub exports : List Effect → List (ℕ × Text)
exports [] = []
exports (exported i target ∷ es) = (i, target) ∷ exports es
exports (_ ∷ es) = exports es

exports-append : (es fs : List Effect) → exports (es ++ fs) ≡ exports es ++ exports fs
unfolding exports
exports-append [] fs = refl
exports-append (emitted p ∷ es) fs = exports-append es fs
exports-append (status_set s t ∷ es) fs = exports-append es fs
exports-append (recorded n ∷ es) fs = exports-append es fs
exports-append (sizes_asked k ∷ es) fs = exports-append es fs
exports-append (asked q ∷ es) fs = exports-append es fs
exports-append (exported i t ∷ es) fs = ap (λ l. (i, t) ∷ l) (exports-append es fs)

-- The files of the collection that the selection asks for, with their targets, in order.
pub wanted_from : Option (List ℕ) → Text → ℕ → List Text → List (ℕ × Text)
wanted_from selected dest i [] = []
wanted_from selected dest i (name ∷ names) =
    let rest = wanted_from selected dest (suc i) names in
    if is_wanted selected i then (i, export_target dest name) ∷ rest else rest

abbrev pub is_none : Option Text → Bool
is_none none = true
is_none (some e) = false

module _ (succeeds : ℕ × Text → Bool) where
  -- The files before the first one that fails.
  unfoldable pub front : List (ℕ × Text) → List (ℕ × Text)
  front [] = []
  front (w ∷ ws) = let rest = front ws in if succeeds w then w ∷ rest else []

  unfoldable pub all_succeed : List (ℕ × Text) → Bool
  all_succeed [] = true
  all_succeed (w ∷ ws) = let rest = all_succeed ws in if succeeds w then rest else false

-- A stage that wrote the files wanted before the first one that fails, and returned an error exactly
-- where one fails; nothing, with an error, where the destination is not made.
pub Writes : Bool → (ℕ × Text → Bool) → List (ℕ × Text) → Stage → Type 0
Writes is_made succeeds wanted (es, e) =
    (exports es ≡ (if is_made then front succeeds wanted else []))
    × (is_none e ≡ (if is_made then all_succeed succeeds wanted else false))

module _ (id : TransferId) (dest : Text) (selected : Option (List ℕ)) (r : Remote) where
  open r use {collection, make_dir, export}

  -- The directory of a file is made, and the file is exported.
  pub succeeds_at : ℕ × Text → Bool
  succeeds_at (i, target) = if is_none (make_dir (parent target)) then export i target else false

  IsWritten : List (ℕ × Text) → Stage → Type 0
  IsWritten = Writes true succeeds_at

  after-IsWritten :
      (i : ℕ) (target : Text) (wanted : List (ℕ × Text)) (s : Stage)
      → succeeds_at (i, target) ≡ true
      → IsWritten wanted s
      → IsWritten ((i, target) ∷ wanted) (after (exported i target ∷ []) s)
  unfolding IsWritten Writes exports front all_succeed
  after-IsWritten i target wanted (es, e) good (h, k) = rw (good) (ap (λ l. (i, target) ∷ l) h, k)

  no_writes :
      (i : ℕ) (target : Text) (wanted : List (ℕ × Text)) (e : Text)
      → succeeds_at (i, target) ≡ false
      → IsWritten ((i, target) ∷ wanted) ([], some e)
  unfolding IsWritten Writes exports front all_succeed
  no_writes i target wanted e bad = rw (bad) (refl, refl)

  export_file-IsWritten :
      (i : ℕ) (name target : Text) (e : Option Text) (wanted : List (ℕ × Text)) (rest : Stage)
      → make_dir (parent target) ≡ e
      → IsWritten wanted rest
      → IsWritten ((i, target) ∷ wanted) (export_file id dest selected r i name target e rest)
  unfolding export_file succeeds_at
  export_file-IsWritten i name target (some e) wanted rest made h =
      no_writes i target wanted e (rw (made) refl)
  export_file-IsWritten i name target none wanted rest made h =
      elim (Bool-cases (export i target)) [
        | inl good ↦ rw (good) (after-IsWritten i target wanted rest (rw (made, good) refl) h)
        | inr bad ↦ rw (bad) (no_writes i target wanted _ (rw (made, bad) refl))
      ]

  export_from-IsWritten :
      (i : ℕ) (names : List Text)
      → IsWritten (wanted_from selected dest i names) (export_from id dest selected r i names)
  unfolding export_from wanted_from IsWritten Writes exports front all_succeed
  export_from-IsWritten i [] = (refl, refl)
  export_from-IsWritten i (name ∷ names) =
      let later = export_from-IsWritten (suc i) names in
      let target = export_target dest name in
      elim (Bool-cases (is_wanted selected i)) [
        | inl chosen ↦ rw chosen (
            export_file-IsWritten i name target (make_dir (parent target)) _
              (export_from id dest selected r (suc i) names) refl later)
        | inr left ↦ rw left later
      ]

  conclude-IsWritten :
      (total : ℕ) (wanted : List (ℕ × Text)) (s : Stage)
      → IsWritten wanted s
      → IsWritten wanted (conclude id dest selected r total s)
  unfolding IsWritten Writes conclude exports
  conclude-IsWritten total wanted (es, some e) h = h
  conclude-IsWritten total wanted (es, none) (h, k) =
      (exports-append es _ ∙ append-nil (exports es) ∙ h, k)

  make_dest-Writes :
      (total : ℕ) (names : List Text) (e : Option Text)
      → Writes
          (is_none e)
          succeeds_at
          (wanted_from selected dest 0 names)
          (make_dest id dest selected r total names e)
  unfolding make_dest Writes exports IsWritten
  make_dest-Writes total names (some e) = (refl, refl)
  make_dest-Writes total names none =
      conclude-IsWritten total (wanted_from selected dest 0 names)
        (export_from id dest selected r 0 names) (export_from-IsWritten 0 names)

  -- Once a download is there, exporting its collection writes the wanted files below the
  -- destination, in order, up to the first one whose directory cannot be made or whose export fails,
  -- and it ends without an error exactly where none fails. Where the destination itself cannot be
  -- made, it writes nothing and ends with an error.
  pub export_stage-Writes :
      (total : ℕ) (names : List Text)
      → Writes
          (is_none (make_dir dest))
          succeeds_at
          (wanted_from selected dest 0 names)
          (export_stage id dest selected r total (some names))
  unfolding export_stage
  export_stage-Writes total names = make_dest-Writes total names (make_dir dest)
