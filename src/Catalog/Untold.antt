-- ===== src/Catalog/Untold.antt =====
-- What the operations of core/src/catalog.rs leave alone: every file but the catalog's two.
use dropwire.Prelude.{
  ◌≡◌, ◌≢◌, refl, ◌∙◌, sym, List, [], ◌∷◌, if_both, Text, code_points, subst, any,
}
use dropwire.Catalog.{
  Catalog, Env, with_extension, save, upsert, set_status, clear_finished, mark_stale_interrupted,
  is_active,
}
use dropwire.Catalog.Saving.{save-read_ne}
use dropwire.Catalog.Records.{Call, upserts, sets_status, clears, marks, step, run}

module _ (env : Env) (q : Text) where
  open env use {Fs, read}

  -- The file `q` is neither the catalog's nor its temporary one.
  pub record IsApart (path : Text) : Type 0 where
    pub tmp : with_extension path (code_points "json.tmp") ≢ q
    pub own_file : path ≢ q

  -- A call keeps the catalog's path and the file `q`.
  record Leaves (cat : Catalog) (fs : Fs) (cat' : Catalog) (fs' : Fs) : Type 0 where
    path : cat'.path ≡ cat.path
    file : read q fs' ≡ read q fs

  saved-Leaves :
      (cat cat' : Catalog) (fs : Fs)
      → cat'.path ≡ cat.path
      → IsApart cat.path
      → Leaves cat fs cat' (save env cat' fs)
  saved-Leaves cat cat' fs e a =
      let a' : IsApart cat'.path = subst IsApart (sym e) a in
      record { path = e; file = save-read_ne env cat' q fs a'.tmp a'.own_file }

  pub mark_stale_interrupted-read :
      (cat : Catalog) (fs : Fs)
      → IsApart cat.path
      → let (cat', fs') = mark_stale_interrupted env cat fs in
        (cat'.path ≡ cat.path) × (read q fs' ≡ read q fs)
  unfolding mark_stale_interrupted
  mark_stale_interrupted-read cat fs a =
      if_both {A = Catalog × Fs} (λ r. (r.0.path ≡ cat.path) × (read q r.1 ≡ read q fs))
        (any (λ e. is_active e.1.status) cat.entries)
        (let l = saved-Leaves cat _ fs refl a in (l.path, l.file)) (refl, refl)

  step-Leaves :
      (cat : Catalog) (fs : Fs) (c : Call env)
      → IsApart cat.path
      → let (cat', fs') = step env cat fs c in Leaves cat fs cat' fs'
  unfolding step upsert set_status clear_finished
  step-Leaves cat fs (upserts now rec) a = saved-Leaves cat _ fs refl a
  step-Leaves cat fs (sets_status now id status transferred) a = saved-Leaves cat _ fs refl a
  step-Leaves cat fs clears a = saved-Leaves cat _ fs refl a
  step-Leaves cat fs marks a =
      let (path, file) = mark_stale_interrupted-read cat fs a in record { path = path; file = file }

  -- However the history is changed, a file apart from its own two stays as it is.
  pub run-read :
      (cat : Catalog) (fs : Fs) (cs : List (Call env))
      → IsApart cat.path
      → read q (run env cat fs cs).1 ≡ read q fs
  unfolding run
  run-read cat fs [] a = refl
  run-read cat fs (c ∷ cs) a =
      let l = step-Leaves cat fs c a in
      run-read (step env cat fs c).0 (step env cat fs c).1 cs (subst IsApart (sym l.path) a)
      ∙ l.file
