-- ===== src/Shell/Snippets/Kept.antt =====
-- What a shared text of src-tauri/src/lib.rs becomes on the disk.
use dropwire.Prelude.{
  ℕ, ◌≡◌, ◌≢◌, refl, sym, ap, ◌∙◌, arith, Bool, true, false, Bool-cases, Option, none, some, [],
  ◌++◌, if◌then◌else◌, ◌==◌, text_eq, nat_eq, nat_beq_iff, ◌⊎◌, inl, inr, Text, code_points,
}
use mathlib.Core.List.{append_cancel_left, append_cancel_right}
use dropwire.Paths.Joined.{join_path-root}
use dropwire.Shell.{trim}
use dropwire.Shell.Snippets.{
  Machine, unwrap_or, text_dir, snippet_path, write_snippet, with_dir, write_text_file, Written,
}

-- A call that returns `Ok` succeeds, with its path.
succeeds :
    (is_ok : Bool) (path asked error : Text)
    → (let r : Text ⊎ Text = (if is_ok then inr path else inl error) in r ≡ inr asked)
    → (is_ok ≡ true) × (asked ≡ path)
succeeds true path asked error h = (refl, cc h)
succeeds false path asked error h = absurd (cc h)

module _ (m : Machine) where
  open m use {disk}
  open disk use {Fs, read}

  -- A text that is written is at the path that is returned, and no other file changes.
  abbrev IsWritten : Text → ℕ → Text → Fs → Fs → Type 0
  IsWritten text stamp path fs fs' =
      (path ≡ snippet_path m stamp)
      × (read path fs' ≡ some text)
      × ((p : Text) → path ≢ p → read p fs' ≡ read p fs)

  write_snippet-IsWritten :
      (text : Text) (stamp : ℕ) (path : Text) (fs : Fs)
      → (write_snippet m text stamp fs).0 ≡ inr path
      → IsWritten text stamp path fs (write_snippet m text stamp fs).1
  unfolding write_snippet
  write_snippet-IsWritten text stamp path fs h =
      let at = snippet_path m stamp in
      let (is_ok, same) = succeeds (disk.write at text fs).0 at path m.write_error h in
      rw (same)
        (refl, disk.read-write at text fs is_ok, λ p other. disk.read-write_ne at p text fs other)

  with_dir-IsWritten :
      (text : Text) (stamp : ℕ) (path : Text) (made : Option Text) (fs : Fs)
      → (with_dir m text stamp made fs).0 ≡ inr path
      → IsWritten text stamp path fs (with_dir m text stamp made fs).1
  unfolding with_dir
  with_dir-IsWritten text stamp path none fs h = write_snippet-IsWritten text stamp path fs h
  with_dir-IsWritten text stamp path (some e) fs h = absurd (cc h)

  with_dir-IsWritten_before :
      (text : Text) (stamp : ℕ) (path : Text) (fs : Fs)
      → let (made, fs') = m.create_dir_all (text_dir m) fs in
        (with_dir m text stamp made fs').0 ≡ inr path
        → IsWritten text stamp path fs (with_dir m text stamp made fs').1
  with_dir-IsWritten_before text stamp path fs h =
      let (made, fs') = m.create_dir_all (text_dir m) fs in
      let (at, holds, others) = with_dir-IsWritten text stamp path made fs' h in
      (at, holds, λ p other. others p other ∙ m.read-create_dir_all (text_dir m) p fs)

  unless_blank :
      (is_blank : Bool) (e text : Text) (stamp : ℕ) (path : Text) (fs : Fs) (r : Written m)
      → (r.0 ≡ inr path → IsWritten text stamp path fs r.1)
      → (let o : Written m = (if is_blank then (inl e, fs) else r) in
          o.0 ≡ inr path → IsWritten text stamp path fs o.1)
  unless_blank true e text stamp path fs r k h = absurd (cc h)
  unless_blank false e text stamp path fs r k h = k h

  pub write_text_file-IsWritten :
      (text : Text) (now : Option ℕ) (path : Text) (fs : Fs)
      → (write_text_file m text now fs).0 ≡ inr path
      → IsWritten text (unwrap_or 0 now) path fs (write_text_file m text now fs).1
  unfolding write_text_file
  write_text_file-IsWritten text now path fs =
      unless_blank (trim m.is_whitespace text == []) _ text (unwrap_or 0 now) path fs _
        (with_dir-IsWritten_before text (unwrap_or 0 now) path fs)

  snippet_path_injective : (s t : ℕ) → snippet_path m s ≡ snippet_path m t → s ≡ t
  unfolding snippet_path
  snippet_path_injective s t h =
      let (root, joins) = join_path-root (text_dir m) in
      let named = λ (n : ℕ). code_points "shared-text-" ++ (m.decimal n ++ code_points ".txt") in
      m.decimal_injective s t (
        append_cancel_right (m.decimal s) (m.decimal t) (code_points ".txt") (
          append_cancel_left (code_points "shared-text-") (m.decimal s ++ code_points ".txt")
            (m.decimal t ++ code_points ".txt")
            (append_cancel_left root (named s) (named t)
              (sym (joins (named s)) ∙ h ∙ joins (named t)))))

  -- One second's snippets share their file.
  read_later :
      (s t : ℕ) (first second path path' : Text) (fs fs' : Fs)
      → path ≡ snippet_path m s
      → read path fs ≡ some first
      → IsWritten second t path' fs fs'
      → read path fs' ≡ some (if s == t then second else first)
  read_later s t first second path path' fs fs' at holds (at', holds', others) =
      elim (Bool-cases (s == t)) [
        | inl same ↦
            rw (same, at ∙ ap (λ n. snippet_path m n) ((nat_beq_iff s t).0 same) ∙ sym at') holds'
        | inr distinct ↦ rw (distinct) (
            others path (λ e.
              ground (
                arith,
                distinct,
                nat_beq_iff s t,
                snippet_path_injective s t (sym at ∙ sym e ∙ at'),
              ))
            ∙ holds)
      ]

  -- Two texts shared one after the other, by calls that both succeed: each is in the file at the
  -- path that its call returns, and the file of the first keeps its text through the second call,
  -- unless both calls fall in one second, when it holds the second text.
  pub two_snippets :
      (first second : Text) (now later : Option ℕ) (path path' : Text) (fs : Fs)
      → (write_text_file m first now fs).0 ≡ inr path
      → (write_text_file m second later (write_text_file m first now fs).1).0 ≡ inr path'
      → let fs' = (write_text_file m first now fs).1 in
        let fs'' = (write_text_file m second later fs').1 in
        (read path fs' ≡ some first)
        × (read path' fs'' ≡ some second)
        × (read path fs'' ≡ some (if unwrap_or 0 now == unwrap_or 0 later then second else first))
  two_snippets first second now later path path' fs h h' =
      let (at, holds, others) = write_text_file-IsWritten first now path fs h in
      let fs' = (write_text_file m first now fs).1 in
      let written = write_text_file-IsWritten second later path' fs' h' in
      (
        holds,
        written.1,
        read_later (unwrap_or 0 now) (unwrap_or 0 later) first second path path' fs' _ at holds
            written,
      )
