-- ===== src/Startup/Restart.antt =====
-- What one start of core/src/lib.rs leaves for the next: the key of the device.
use dropwire.Prelude.{
  ◌≡◌, refl, sym, ap, ◌∙◌, subst, Option, none, some, List, ◌⊎◌, inl, inr, Text, if_both,
  Bool-cases,
}
use dropwire.Catalog
use dropwire.Catalog.{Catalog, mark_stale_interrupted}
use dropwire.Catalog.Records
use dropwire.Catalog.Records.{Call, NoneActive, get-mark_stale_interrupted}
use dropwire.Catalog.Untold.{IsApart, mark_stale_interrupted-read, run-read}
use dropwire.Identity.{load_or_create, load_or_create-Holds, load_or_create_again, Holds, stored}
use dropwire.Endpoint.{CoreError, CoreConfig, Endpoint, build-secret_key}
use dropwire.Startup.{
  Env, Machine, Inner, Started, load_blobs, open_store, inner_of, with_store, with_opened,
  with_endpoint, with_key, with_dir, start,
}
use dropwire.Startup.Layout.{
  key_path, history_path, blobs_path, history-ne, history_tmp-ne, key-outside,
}

module _ (env : Env) (dir : Text) where
  open env use {catalog, keys, create_dir_all, read-create_dir_all, read-load_store}
  open catalog use {Fs, read}
  open keys use {SecretKey}

  -- The key in the data directory.
  abbrev Has : SecretKey → Fs → Type 0
  Has sk fs = Holds catalog.disk keys (key_path dir) sk fs

  kept :
      (sk : SecretKey) (fs fs' : Fs)
      → read (key_path dir) fs' ≡ read (key_path dir) fs
      → Has sk fs
      → Has sk fs'
  kept sk fs fs' e h = ap (stored catalog.disk keys) e ∙ h

  history-IsApart : IsApart catalog (key_path dir) (history_path dir)
  history-IsApart = record { tmp = history_tmp-ne dir; own_file = history-ne dir }

  open_store-read :
      (fs : Fs)
      → read (key_path dir) (open_store env (blobs_path dir) fs).1 ≡ read (key_path dir) fs
  unfolding open_store load_blobs
  open_store-read fs = elim (Bool-cases (create_dir_all (blobs_path dir) fs).0) [
    | inl made ↦ rw (made) (
        read-load_store (blobs_path dir) (key_path dir) _ (key-outside dir)
        ∙ read-create_dir_all (blobs_path dir) (key_path dir) fs)
    | inr failed ↦ rw (failed) (read-create_dir_all (blobs_path dir) (key_path dir) fs)
  ]

  -- What a start leaves: the key in its file, which is the key of the engine that it gives.
  Leaves : SecretKey → CoreError ⊎ Inner SecretKey → Fs → Type 0
  Leaves sk (inl e) fs = Has sk fs
  Leaves sk (inr inner) fs =
      Has sk fs
      × (inner.endpoint.secret_key ≡ sk)
      × (inner.catalog.path ≡ history_path dir)
      × NoneActive inner.catalog.entries

module _ (env : Env) (config : CoreConfig) (m : Machine env.keys.SecretKey) where
  open env use {catalog, keys, create_dir_all, read-create_dir_all}
  open catalog use {Fs, read}
  open keys use {SecretKey}

  abbrev at_dir : Text
  at_dir = config.data_dir

  -- The result of a start whose key is `sk`.
  abbrev Good : SecretKey → Started env → Type 0
  Good sk r = Leaves env at_dir sk r.0 r.1

  with_store-Good :
      (sk : SecretKey) (endpoint : Endpoint SecretKey) (fs : Fs)
      → endpoint.secret_key ≡ sk
      → Has env at_dir sk fs
      → Good sk (with_store env config m endpoint fs)
  unfolding with_store inner_of Leaves Catalog.load
  with_store-Good sk endpoint fs held h =
      let loaded = Catalog.load catalog (history_path at_dir) fs in
      let (path, file) =
        mark_stale_interrupted-read catalog (key_path at_dir) loaded fs
          (history-IsApart env at_dir) in
      (
        kept env at_dir sk fs _ file h,
        held,
        path,
        (get-mark_stale_interrupted catalog loaded fs 0).1,
      )

  with_opened-Good :
      (sk : SecretKey) (endpoint : Endpoint SecretKey) (o : Option CoreError) (fs : Fs)
      → endpoint.secret_key ≡ sk
      → Has env at_dir sk fs
      → Good sk (with_opened env config m endpoint o fs)
  unfolding with_opened Leaves
  with_opened-Good sk endpoint (some e) fs held h = h
  with_opened-Good sk endpoint none fs held h = with_store-Good sk endpoint fs held h

  with_endpoint-Good :
      (sk : SecretKey) (r : CoreError ⊎ Endpoint SecretKey) (fs : Fs)
      → ((endpoint : Endpoint SecretKey) → r ≡ inr endpoint → endpoint.secret_key ≡ sk)
      → Has env at_dir sk fs
      → Good sk (with_endpoint env config m r fs)
  unfolding with_endpoint Leaves
  with_endpoint-Good sk (inl e) fs held h = h
  with_endpoint-Good sk (inr endpoint) fs held h =
      with_opened-Good sk endpoint _ _ (held endpoint refl)
        (kept env at_dir sk fs _ (open_store-read env at_dir fs) h)

  with_key-Good :
      (sk : SecretKey) (fs : Fs)
      → Has env at_dir sk fs
      → Good sk (with_key env config m (some sk) fs)
  unfolding with_key
  with_key-Good sk fs h =
      with_endpoint-Good sk _ fs (build-secret_key m.libraries m.bind sk config.infra) h

  -- With a key in its file, a start uses it, whatever fresh key it could have made.
  start-Good : (sk : SecretKey) (fs : Fs) → Has env at_dir sk fs → Good sk (start env config m fs)
  unfolding start with_dir Leaves
  start-Good sk fs h =
      let h' : Has env at_dir sk (create_dir_all at_dir fs).1 =
        kept env at_dir sk fs _ (read-create_dir_all at_dir (key_path at_dir) fs) h in
      if_both {A = Started env} (Good sk) (create_dir_all at_dir fs).0
        (rw (load_or_create_again catalog.disk keys (key_path at_dir) m.fresh sk _ h')
          (with_key-Good sk _ h'))
        h'

  -- The result of a start that had no key to begin with.
  GoodIf : Started env → Type 0
  unfolding Leaves
  GoodIf (inl e, fs) = Unit
  GoodIf (inr inner, fs) = Leaves env at_dir inner.endpoint.secret_key (inr inner) fs

  Good-If :
      (sk : SecretKey) (r : CoreError ⊎ Inner SecretKey) (fs : Fs)
      → Leaves env at_dir sk r fs
      → GoodIf (r, fs)
  unfolding GoodIf Leaves
  Good-If sk (inl e) fs l = tt
  Good-If sk (inr inner) fs l =
      let (h, held, path, calm) = l in
      (subst (λ k. Has env at_dir k fs) (sym held) h, refl, path, calm)

  with_key-GoodIf :
      (o : Option SecretKey) (fs : Fs)
      → ((sk : SecretKey) → o ≡ some sk → Has env at_dir sk fs)
      → GoodIf (with_key env config m o fs)
  unfolding with_key GoodIf
  with_key-GoodIf none fs h = tt
  with_key-GoodIf (some sk) fs h = Good-If sk _ _ (with_key-Good sk fs (h sk refl))

  start-GoodIf : (fs : Fs) → GoodIf (start env config m fs)
  unfolding start with_dir GoodIf
  start-GoodIf fs =
      let fs' = (create_dir_all at_dir fs).1 in
      let (o, fs'') = load_or_create catalog.disk keys (key_path at_dir) m.fresh fs' in
      if_both {A = Started env} GoodIf (create_dir_all at_dir fs).0
        (with_key-GoodIf o fs'' (λ sk e.
          load_or_create-Holds catalog.disk keys (key_path at_dir) m.fresh sk fs' fs''
            (λ i. (e i, fs''))))
        tt

  -- What a start that succeeded leaves.
  started :
      (fs fs' : Fs) (inner : Inner SecretKey)
      → start env config m fs ≡ (inr inner, fs')
      → Leaves env at_dir inner.endpoint.secret_key (inr inner) fs'
  unfolding GoodIf
  started fs fs' inner e = subst GoodIf e (start-GoodIf fs)

  -- However the history changes after a start, the key is still in its file.
  used :
      (fs fs' : Fs) (inner : Inner SecretKey) (cs : List (Call catalog))
      → start env config m fs ≡ (inr inner, fs')
      → Has env at_dir inner.endpoint.secret_key (Records.run catalog inner.catalog fs' cs).1
  unfolding Leaves
  used fs fs' inner cs e =
      let (h, _, path, _) = started fs fs' inner e in
      kept env at_dir inner.endpoint.secret_key fs' _
        (run-read catalog (key_path at_dir) inner.catalog fs' cs
          (subst (IsApart catalog (key_path at_dir)) (sym path) (history-IsApart env at_dir)))
        h

-- The device keeps its identity: once a start has succeeded, whatever calls then change the history
-- and whatever fresh key the next start could have made, a later start on the same directory that
-- succeeds has the same key. It shows no transfer of before as still running.
pub start_again :
    (env : Env) (config config' : CoreConfig) (m m' : Machine env.keys.SecretKey)
    (fs fs' fs'' : env.catalog.Fs) (inner inner' : Inner env.keys.SecretKey)
    (cs : List (Call env.catalog))
    → config'.data_dir ≡ config.data_dir
    → start env config m fs ≡ (inr inner, fs')
    → start env config' m' (Records.run env.catalog inner.catalog fs' cs).1 ≡ (inr inner', fs'')
    → (inner'.endpoint.secret_key ≡ inner.endpoint.secret_key) × NoneActive inner'.catalog.entries
unfolding Leaves
start_again env config config' m m' fs fs' fs'' inner inner' cs same first second =
    let h = used env config m fs fs' inner cs first in
    let h' =
      subst
        (λ dir.
          Has env dir inner.endpoint.secret_key (Records.run env.catalog inner.catalog fs' cs).1)
        (sym same) h in
    let (_, key, _, calm) =
      subst (λ (r : Started env). Leaves env config'.data_dir inner.endpoint.secret_key r.0 r.1)
        second (start-Good env config' m' inner.endpoint.secret_key _ h') in
    (key, calm)
