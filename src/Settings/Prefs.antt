-- ===== src/Settings/Prefs.antt =====
-- The commands of src-tauri/src/lib.rs over the settings: `set_pref` with the JSON value that the
-- UI passes, `trust_remember` and `trust_forget`.
use dropwire.Prelude.{
  ℕ, ◌≡◌, refl, Bool, true, Option, none, some, [], if◌then◌else◌, if_both, ◌==◌, nat_eq, text_eq,
  Text, code_points, ◌⊎◌, inl, inr,
}
use dropwire.Settings.{Trusted, Settings, Store, Env, update, remember, forget}

-- `serde_json::Value`, as far as `as_bool` and `as_str` tell values apart.
pub data Value : Type 0 where
  bool : (b : Bool) → Value
  string : (s : Text) → Value
  other : Value

pub as_bool : Value → Option Bool
as_bool (bool b) = some b
as_bool _ = none

pub as_str : Value → Option Text
as_str (string s) = some s
as_str _ = none

pub data PrefError : Type 0 where
  expects_bool expects_string unknown_preference : (key : Text) → PrefError
  needs_endpoint_id : PrefError

-- The change that a preference asks for.
abbrev pub Change : Type 0
Change = PrefError ⊎ (Settings → Settings)

bool_change : Text → Option Bool → (Bool → Settings → Settings) → Change
bool_change key none set = inl (expects_bool key)
bool_change key (some v) set = inr (set v)

text_change : Text → Option Text → (Text → Settings → Settings) → Change
text_change key none set = inl (expects_string key)
text_change key (some v) set = inr (set v)

-- The `match` of `set_pref`.
change : Text → Value → Change
unfolding bool_change text_change
change key value =
    if key == code_points "onboarded"
    then inr (λ s. record s { onboarded = true })
    else if key == code_points "nearbyOn"
    then bool_change key (as_bool value) (λ v s. record s { nearby_on = v })
    else if key == code_points "skipCodeForTrusted"
    then bool_change key (as_bool value) (λ v s. record s { skip_code_for_trusted = v })
    else if key == code_points "trayOnClose"
    then bool_change key (as_bool value) (λ v s. record s { tray_on_close = v })
    else if key == code_points "startAtLogin"
    then bool_change key (as_bool value) (λ v s. record s { start_at_login = v })
    else if key == code_points "theme"
    then text_change key (as_str value) (λ v s. record s { theme = v })
    else if key == code_points "destDir"
    then text_change key (as_str value) (λ v s. record s { dest_dir = some v })
    else inl (unknown_preference key)

-- What a change, made or refused, leaves alone.
KeepsIdentity : Change → Type 0
KeepsIdentity (inl e) = Unit
KeepsIdentity (inr f) =
    (s : Settings)
    → ((f s).trusted ≡ s.trusted)
      × ((f s).device_name ≡ s.device_name)
      × (s.onboarded ≡ true → (f s).onboarded ≡ true)

bool_change-KeepsIdentity :
    (key : Text) (v : Option Bool) (set : Bool → Settings → Settings)
    → ((b : Bool) → KeepsIdentity (inr (set b)))
    → KeepsIdentity (bool_change key v set)
unfolding bool_change KeepsIdentity
bool_change-KeepsIdentity key none set h = tt
bool_change-KeepsIdentity key (some b) set h = h b

text_change-KeepsIdentity :
    (key : Text) (v : Option Text) (set : Text → Settings → Settings)
    → ((t : Text) → KeepsIdentity (inr (set t)))
    → KeepsIdentity (text_change key v set)
unfolding text_change KeepsIdentity
text_change-KeepsIdentity key none set h = tt
text_change-KeepsIdentity key (some t) set h = h t

change-KeepsIdentity : (key : Text) (value : Value) → KeepsIdentity (change key value)
unfolding change KeepsIdentity
change-KeepsIdentity key value =
    if_both KeepsIdentity (key == code_points "onboarded") (λ s. (refl, refl, λ h. refl))
      (if_both KeepsIdentity (key == code_points "nearbyOn")
        (bool_change-KeepsIdentity key (as_bool value) _ (λ b s. (refl, refl, λ h. h)))
        (if_both KeepsIdentity (key == code_points "skipCodeForTrusted")
          (bool_change-KeepsIdentity key (as_bool value) _ (λ b s. (refl, refl, λ h. h)))
          (if_both KeepsIdentity (key == code_points "trayOnClose")
            (bool_change-KeepsIdentity key (as_bool value) _ (λ b s. (refl, refl, λ h. h)))
            (if_both KeepsIdentity (key == code_points "startAtLogin")
              (bool_change-KeepsIdentity key (as_bool value) _ (λ b s. (refl, refl, λ h. h)))
              (if_both KeepsIdentity (key == code_points "theme")
                (text_change-KeepsIdentity key (as_str value) _ (λ b s. (refl, refl, λ h. h)))
                (if_both KeepsIdentity (key == code_points "destDir")
                  (text_change-KeepsIdentity key (as_str value) _ (λ b s. (refl, refl, λ h. h)))
                  tt))))))

module _ (env : Env) where
  open env use {Fs}

  -- What a command leaves, and the error it returns.
  abbrev pub Outcome : Type 0
  Outcome = (Store × Fs) × Option PrefError

  make : Change → Store → Fs → Outcome
  make (inl e) store fs = ((store, fs), some e)
  make (inr f) store fs = (update env f store fs, none)

  pub set_pref : Text → Value → Store → Fs → Outcome
  unfolding change make
  set_pref key value store fs = make (change key value) store fs

  pub trust_remember : ℕ → Trusted → Store → Fs → Outcome
  trust_remember now device store fs =
      if device.endpoint_id == []
      then ((store, fs), some needs_endpoint_id)
      else (remember env now device store fs, none)

  pub trust_forget : Text → Store → Fs → Outcome
  trust_forget endpoint_id store fs = (forget env endpoint_id store fs, none)

  make-KeepsIdentity :
      (c : Change) (store : Store) (fs : Fs)
      → KeepsIdentity c
      → let s' = (make c store fs).0.0.inner in
        (s'.trusted ≡ store.inner.trusted)
        × (s'.device_name ≡ store.inner.device_name)
        × (store.inner.onboarded ≡ true → s'.onboarded ≡ true)
  unfolding make KeepsIdentity update
  make-KeepsIdentity (inl e) store fs k = (refl, refl, λ h. h)
  make-KeepsIdentity (inr f) store fs k = k store.inner

  -- Whatever key and value the UI passes to `set_pref`, the trusted devices and the device name
  -- stay as they were, and a finished setup stays finished.
  pub set_pref_keeps :
      (key : Text) (value : Value) (store : Store) (fs : Fs)
      → let s' = (set_pref key value store fs).0.0.inner in
        (s'.trusted ≡ store.inner.trusted)
        × (s'.device_name ≡ store.inner.device_name)
        × (store.inner.onboarded ≡ true → s'.onboarded ≡ true)
  unfolding set_pref
  set_pref_keeps key value store fs =
      make-KeepsIdentity (change key value) store fs (change-KeepsIdentity key value)
