-- ===== src/Shell/Renaming.antt =====
-- The name of the device over a restart of src-tauri/src/lib.rs.
use dropwire.Prelude.{
  ℕ, ◌≡◌, ◌≢◌, refl, sym, ap, ◌∙◌, subst, Bool, Option, none, some, [], if◌then◌else◌, ◌==◌,
  text_eq, text_beq_iff, arith, inl, inr, Text, code_points, Bool-cases, Option-cases, ◌⊎◌, false,
}
use dropwire.Paths.{join_path, parent}
use dropwire.Settings
use dropwire.Settings.{Settings, Store, update, load}
use dropwire.Settings.Persisted.{load-update_at, update_lem}
use dropwire.Discover.Session.{World, launch}
use dropwire.Discover.Session.Naming.{rename-device_name}
use dropwire.Shell.{
  AppState, Advertising, trim, advertise, Renamed, keep_name, rename_to, set_device_name, named,
  setup,
}

module _ (env : Settings.Env) where
  open env use {Fs, write, create_dir_all, encode}

  -- The outcome of a renaming of `app` to the name `n`, where it succeeded.
  Takes : Text → AppState → Fs → Renamed env → Type 0
  Takes n app fs (inl e, app', fs') = Unit
  Takes n app fs (inr s, app', fs') =
      let rename_settings = λ (s : Settings). record s { device_name = some n } in
      (n ≢ [])
      × (app'.world.state.device_name ≡ n)
      × (s ≡ rename_settings app.settings.inner)
      × (fs' ≡ (update env rename_settings app.settings fs).1)

  rename_to-Takes :
      (a : Advertising) (n : Text) (app : AppState) (fs : Fs)
      → n ≢ []
      → Takes n app fs (rename_to env a n app fs)
  unfolding rename_to keep_name Takes
  rename_to-Takes a n app fs full = elim (Bool-cases (advertise a n app.world).1) [
    | inl ok ↦ rw (ok) (
      full,
      rename-device_name a.os a.attempt a.is_up n a.port app.world,
      update_lem env _ app.settings fs,
      refl,
    )
    | inr failed ↦ rw (failed) tt
  ]

  named_if :
      (a : Advertising) (o : Option Text) (n : Text) (w : World)
      → o ≡ some n
      → (named env a o w).state.device_name ≡ n
  unfolding named
  named_if a none n w e = absurd (cc e)
  named_if a (some m) n w e =
      rename-device_name a.os a.attempt a.is_up m a.port w ∙ ground (arith, e)

  -- Why the settings may not be kept: they do not encode, or their file is not written.
  pub IsUnwritten : Settings → Text → Fs → Type 0
  IsUnwritten s path fs =
      (encode s ≡ none)
      ⊎ ((json : Text) × (encode s ≡ some json)
          × ((write path json (create_dir_all (parent path) fs)).0 ≡ false))

  -- Where the command succeeds, the name without the space around it is not empty, is at once the
  -- name of the session, and is the one thing that changes in the settings. An app that is set up
  -- again on the same directory then has this name, whatever its host is called and however its
  -- advertisement goes, unless the settings did not encode or their file could not be written.
  pub set_device_name-setup :
      (is_whitespace : ℕ → Bool) (a again : Advertising) (data_dir name eid host : Text)
      (app app' : AppState) (fs fs' : Fs) (s : Settings)
      → app.settings.path ≡ join_path data_dir (code_points "settings.json")
      → set_device_name env is_whitespace a name app fs ≡ (inr s, app', fs')
      → let n = trim is_whitespace name in
        (n ≢ [])
        × (app'.world.state.device_name ≡ n)
        × (s ≡ (record app.settings.inner { device_name = some n }))
        × (((setup env again data_dir (launch eid host) fs').world.state.device_name ≡ n)
            ⊎ IsUnwritten s app.settings.path fs)
  unfolding set_device_name Takes setup IsUnwritten
  set_device_name-setup is_whitespace a again data_dir name eid host app app' fs fs' s at took =
      let n = trim is_whitespace name in
      let (full, named_now, kept, left) = subst (Takes n app fs) took (taken n) in
      (
        full,
        named_now,
        kept,
        elim (Option-cases (encode s)) [
          | inl unencoded ↦ inr (inl unencoded)
          | inr (json, e) ↦
              elim (Bool-cases
                (write app.settings.path json (create_dir_all (parent app.settings.path) fs)).0) [
                  | inr unwritten ↦ inr (inr (json, e, unwritten))
                  | inl wrote ↦
                      let loaded =
                        load-update_at env data_dir json (λ s. record s { device_name = some n })
                          app.settings fs at (ap encode (sym kept) ∙ e) wrote in
                      inl (
                        named_if again _ n (launch eid host) (
                          ap (λ fs. (load env data_dir fs).inner.device_name) left
                          ∙ ap (λ s. s.device_name) loaded))
                ]
        ],
      )
    where
      taken :
          (n : Text)
          → Takes n app fs (
              if n == []
              then (inl (code_points "a device name cannot be empty"), app, fs)
              else rename_to env a n app fs)
      taken n = elim (Bool-cases (n == [])) [
        | inl empty ↦ rw (empty) tt
        | inr full ↦
            rw (full) (rename_to-Takes a n app fs (ground (arith, full, text_beq_iff n [])))
      ]
