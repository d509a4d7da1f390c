-- ===== src/Catalog/Saving.antt =====
-- The file behind core/src/catalog.rs: what `save` leaves on a disk that may fail, and what a
-- later `load` finds.
use mathlib.Core.List.{reverse-append, reverse-reverse, append_assoc}
use dropwire.Prelude.{
  ◌≡◌, refl, sym, ap, ◌∙◌, ◌≢◌, ◌⊎◌, inl, inr, true, Option, none, some, [], ◌∷◌, ◌++◌, reverse,
  arith, Text, code_points, length, Bool-cases,
}
use dropwire.Catalog.{
  Catalog, Env, strip_extension, has_stem, with_extension, commit, save_to, save, decoded, load,
}

-- The reversed name of the temporary file ends a name that would have to be longer than itself.
stripped_json_tmp :
    (w s : Text)
    → strip_extension w (reverse (code_points ".json.tmp") ++ s) ≡ code_points "nosj." ++ s
unfolding strip_extension
stripped_json_tmp w s = refl

pub with_extension-ne : (path : Text) → with_extension path (code_points "json.tmp") ≢ path
unfolding with_extension
with_extension-ne path e = absurd (omega (arith, ap length stem))
  where
    rest : Text
    rest = strip_extension (reverse path) (reverse path)

    reversed : reverse path ≡ reverse (code_points ".json.tmp") ++ rest
    reversed =
        ap reverse (sym e)
        ∙ reverse-append (reverse rest) (code_points ".json.tmp")
        ∙ ap (λ t. reverse (code_points ".json.tmp") ++ t) (reverse-reverse rest)

    stem : rest ≡ code_points "nosj." ++ rest
    stem = ap (strip_extension (reverse path)) reversed ∙ stripped_json_tmp (reverse path) rest

-- Where the catalog's file stands, so does its temporary file.
pub with_extension-transfers :
    (root : Text)
    → with_extension (root ++ code_points "transfers.json") (code_points "json.tmp")
      ≡ root ++ code_points "transfers.json.tmp"
unfolding with_extension strip_extension has_stem
with_extension-transfers root =
    ap (λ t. reverse (strip_extension t t) ++ code_points ".json.tmp")
      (reverse-append root (code_points "transfers.json"))
    ∙ ap (λ t. t ++ code_points ".json.tmp")
        (reverse-append (code_points "srefsnart") (reverse root)
          ∙ ap (λ t. t ++ code_points "transfers") (reverse-reverse root))
    ∙ append_assoc root (code_points "transfers") (code_points ".json.tmp")

module _ (env : Env) where
  open env use {Fs, read, write, rename, encode, decode}
  open env use {
    read-write, read-write_ne, read-rename, read-rename_ne, rename_failed, decode-encode,
  }

  commit_atomic :
      (tmp path json : Text) (fs : Fs)
      → tmp ≢ path
      → (read path (commit env tmp path json fs) ≡ read path fs)
        ⊎ (read path (commit env tmp path json fs) ≡ some json)
  unfolding commit
  commit_atomic tmp path json fs d = elim (Bool-cases (write tmp json fs).0) [
    | inl wrote ↦ elim (Bool-cases (rename tmp path (write tmp json fs).1).0) [
      | inl moved ↦
          inr (ground (arith, read-rename tmp path (write tmp json fs).1, read-write tmp json fs))
      | inr kept ↦ inl (
          ground
            (arith, rename_failed tmp path (write tmp json fs).1, read-write_ne tmp path json fs))
    ]
    | inr failed ↦ inl (ground (arith, read-write_ne tmp path json fs))
  ]

  save_to_atomic :
      (path : Text) (j : Option Text) (fs : Fs)
      → (read path (save_to env path j fs) ≡ read path fs)
        ⊎ ((json : Text) × (j ≡ some json) × (read path (save_to env path j fs) ≡ some json))
  unfolding save_to
  save_to_atomic [] j fs = inl refl
  save_to_atomic (c ∷ path) none fs = inl refl
  save_to_atomic (c ∷ path) (some json) fs =
      elim (commit_atomic (with_extension (c ∷ path) (code_points "json.tmp")) (c ∷ path) json fs
        (with_extension-ne (c ∷ path))) [ inl e ↦ inl e | inr e ↦ inr (json, refl, e) ]

  -- Whatever the disk does during a save (a failed or torn write, a failed rename), the history
  -- file afterwards holds either its old contents or the whole new catalog.
  pub save_atomic :
      (cat : Catalog) (fs : Fs)
      → (read cat.path (save env cat fs) ≡ read cat.path fs)
        ⊎ ((json : Text) × (encode cat.entries ≡ some json)
            × (read cat.path (save env cat fs) ≡ some json))
  unfolding save
  save_atomic cat fs = save_to_atomic cat.path (encode cat.entries) fs

  -- Whatever the disk does during a save, loading the file afterwards gives the catalog that it held
  -- before, or the whole saved one.
  pub load-save :
      (cat : Catalog) (fs : Fs)
      → (load env cat.path (save env cat fs) ≡ load env cat.path fs)
        ⊎ (load env cat.path (save env cat fs) ≡ cat)
  unfolding load decoded
  load-save cat fs = elim (save_atomic cat fs) [
    | inl e ↦ inl (rw e refl)
    | inr (json, e, r) ↦ inr (ground (arith, decode-encode cat.entries json e))
  ]

  commit_lem :
      (tmp path json : Text) (fs : Fs)
      → (write tmp json fs).0 ≡ true
      → (rename tmp path (write tmp json fs).1).0 ≡ true
      → read path (commit env tmp path json fs) ≡ some json
  unfolding commit
  commit_lem tmp path json fs wrote moved =
      ground (arith, read-rename tmp path (write tmp json fs).1, read-write tmp json fs)

  save_to_lem :
      (path json : Text) (fs : Fs)
      → path ≢ []
      → let tmp = with_extension path (code_points "json.tmp") in
        (write tmp json fs).0 ≡ true
        → (rename tmp path (write tmp json fs).1).0 ≡ true
        → read path (save_to env path (some json) fs) ≡ some json
  unfolding save_to
  save_to_lem [] json fs d wrote moved = absurd (d refl)
  save_to_lem (c ∷ path) json fs d wrote moved = commit_lem _ (c ∷ path) json fs wrote moved

  -- The round trip through the disk: where the catalog has a path and encodes, and the write and
  -- the rename succeed, loading the file gives the same catalog back.
  pub load-save_ok :
      (cat : Catalog) (fs : Fs) (json : Text)
      → cat.path ≢ []
      → encode cat.entries ≡ some json
      → let tmp = with_extension cat.path (code_points "json.tmp") in
        (write tmp json fs).0 ≡ true
        → (rename tmp cat.path (write tmp json fs).1).0 ≡ true
        → load env cat.path (save env cat fs) ≡ cat
  unfolding load decoded save
  load-save_ok cat fs json d e wrote moved =
      ground (arith, save_to_lem cat.path json fs d wrote moved, decode-encode cat.entries json e)

  commit-read_ne :
      (tmp path json q : Text) (fs : Fs)
      → tmp ≢ q
      → path ≢ q
      → read q (commit env tmp path json fs) ≡ read q fs
  unfolding commit
  commit-read_ne tmp path json q fs d e = elim (Bool-cases (write tmp json fs).0) [
    | inl wrote ↦ rw (wrote) (read-rename_ne tmp path q _ d e ∙ read-write_ne tmp q json fs d)
    | inr failed ↦ rw (failed) (read-write_ne tmp q json fs d)
  ]

  save_to-read_ne :
      (path : Text) (j : Option Text) (q : Text) (fs : Fs)
      → with_extension path (code_points "json.tmp") ≢ q
      → path ≢ q
      → read q (save_to env path j fs) ≡ read q fs
  unfolding save_to
  save_to-read_ne [] j q fs d e = refl
  save_to-read_ne (c ∷ path) none q fs d e = refl
  save_to-read_ne (c ∷ path) (some json) q fs d e = commit-read_ne _ (c ∷ path) json q fs d e

  -- A save leaves every file but its own two.
  pub save-read_ne :
      (cat : Catalog) (q : Text) (fs : Fs)
      → with_extension cat.path (code_points "json.tmp") ≢ q
      → cat.path ≢ q
      → read q (save env cat fs) ≡ read q fs
  unfolding save
  save-read_ne cat q fs d e = save_to-read_ne cat.path (encode cat.entries) q fs d e
