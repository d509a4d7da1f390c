-- ===== src/Shell/Tests.antt =====
-- Renaming the device of src-tauri/src/lib.rs at a concrete input, on a disk that never fails.
use dropwire.Prelude.{
  ℕ, ◌≡◌, ◌≢◌, refl, Bool, true, Option, none, some, [], ◌∷◌, if◌then◌else◌, ◌==◌, nat_eq, text_eq,
  text_beq, text_beq_iff, arith, inr, ◌⊎◌, Text, code_points,
}
use dropwire.Prelude.Map
use dropwire.Prelude.Map.{HashMap}
use dropwire.Prelude.Memory.{memory}
use native.Mathlib.Decide.{ℕ_discrete}
use dropwire.Paths.{join_path, ends_with_slash}
use dropwire.Settings
use dropwire.Settings.{Settings, default_settings, update, persist}
use dropwire.Discover.Session.{launch, registered, rename, is_running}
use dropwire.Shell.{
  AppState, Advertising, trim, trim_start, keep_name, rename_to, set_device_name, setup,
}
use dropwire.Shell.Renaming.{IsUnwritten, set_device_name-setup}

abbrev desk : Settings
desk = record default_settings { device_name = some (code_points "desk") }

settings-discrete : Discrete Settings
settings-discrete = hlevel ℕ_discrete

-- A file format for the one value that the tests write.
encode_desk : Settings → Option Text
encode_desk s = elim (settings-discrete s desk) [ yes e ↦ some (code_points "S") | no e ↦ none ]

decode_desk : Text → Option Settings
decode_desk b = if b == code_points "S" then some desk else none

decode-encode_desk : (s : Settings) (b : Text) → encode_desk s ≡ some b → decode_desk b ≡ some s
unfolding encode_desk decode_desk
decode-encode_desk s b h = ground (arith, text_beq_iff b (code_points "S"))

abbrev env : Settings.Env
env = record {
  disk = memory;
  create_dir_all = λ dir fs. fs;
  encode = encode_desk;
  decode = decode_desk;
  read-create_dir_all = λ dir p fs. refl;
  decode-encode = decode-encode_desk;
}

abbrev advertising : Advertising
advertising = record {
  os = code_points "linux";
  attempt = registered;
  is_up = true;
  port = 4000;
  failure = [];
}

abbrev is_space : ℕ → Bool
is_space c = c == 32

abbrev typed : Text
typed = code_points " desk "

abbrev app_on : Settings → Text → AppState
app_on s name = record {
  world = launch (code_points "ab") name;
  settings = record { path = code_points "d/settings.json"; inner = s };
}

abbrev saved_file : HashMap Text Text
saved_file = (code_points "d/settings.json", code_points "S") ∷ []

taken :
    set_device_name env is_space advertising typed (app_on default_settings (code_points "pc")) []
    ≡ (inr desk, app_on desk (code_points "desk"), saved_file)
unfolding set_device_name rename_to keep_name trim trim_start update persist rename is_running
    launch encode_desk settings-discrete ℕ_discrete Map.insert text_beq
taken = refl

set_device_name-setup_example :
    (trim is_space typed ≢ [])
    × ((app_on desk (code_points "desk")).world.state.device_name ≡ trim is_space typed)
    × (desk ≡ (record default_settings { device_name = some (trim is_space typed) }))
    × (((setup env advertising
            (code_points "d")
            (launch (code_points "ab") (code_points "laptop"))
            saved_file).world.state.device_name
          ≡ trim is_space typed)
        ⊎ IsUnwritten env desk (code_points "d/settings.json") [])
unfolding join_path ends_with_slash
set_device_name-setup_example =
    set_device_name-setup env is_space advertising advertising (code_points "d") typed
      (code_points "ab") (code_points "laptop") (app_on default_settings (code_points "pc"))
      (app_on desk (code_points "desk")) [] saved_file desk refl taken
