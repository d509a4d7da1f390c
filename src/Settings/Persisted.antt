-- ===== src/Settings/Persisted.antt =====
-- `settings.json` after an update: what a later start of the app loads.
use dropwire.Prelude.{◌≡◌, true, some, arith, refl, Text, code_points}
use dropwire.Paths.{join_path, parent}
use dropwire.Settings.{Settings, Store, Env, load, update, persist, loaded}

module _ (env : Env) where
  open env use {Fs, read, write, create_dir_all, encode, decode}
  open env use {read-write, read-create_dir_all, decode-encode}

  pub update_lem :
      (f : Settings → Settings) (store : Store) (fs : Fs)
      → (update env f store fs).0.inner ≡ f store.inner
  unfolding update
  update_lem f store fs = refl

  -- The same for a store of which only the path is known.
  pub load-update_at :
      (data_dir json : Text) (f : Settings → Settings) (store : Store) (fs : Fs)
      → store.path ≡ join_path data_dir (code_points "settings.json")
      → encode (f store.inner) ≡ some json
      → (write store.path json (create_dir_all (parent store.path) fs)).0 ≡ true
      → (load env data_dir (update env f store fs).1).inner ≡ f store.inner
  unfolding load update persist loaded
  load-update_at data_dir json f store fs at e wrote = ground (
    arith,
    at,
    read-write store.path json (create_dir_all (parent store.path) fs),
    decode-encode (f store.inner) json,
  )

  -- Where the settings encode and the write succeeds, the next load from the same data directory
  -- gives the settings as updated, the trusted devices among them.
  pub load-update :
      (data_dir json : Text) (f : Settings → Settings) (before fs : Fs)
      → let store = load env data_dir before in
        encode (f store.inner) ≡ some json
        → (write store.path json (create_dir_all (parent store.path) fs)).0 ≡ true
        → load env data_dir (update env f store fs).1 ≡ (update env f store fs).0
  unfolding load update persist loaded
  load-update data_dir json f before fs e wrote =
      let store = load env data_dir before in
      ground (
        arith,
        read-write store.path json (create_dir_all (parent store.path) fs),
        decode-encode (f store.inner) json,
      )
