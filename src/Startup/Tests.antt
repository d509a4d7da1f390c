-- ===== src/Startup/Tests.antt =====
-- Two starts of core/src/lib.rs on one directory, on a disk that never fails. A key of the tests is
-- its first byte.
use dropwire.Prelude.{
  ℕ, ◌≡◌, refl, true, false, none, some, List, [], ◌∷◌, Text, text_eq, code_points, text_beq, inr,
}
use dropwire.Prelude.Map
use dropwire.Prelude.Map.{HashMap}
use dropwire.Paths.{join_path, ends_with_slash}
use dropwire.Catalog.{mark_stale_interrupted, load, decoded}
use dropwire.Catalog.Filled.{filled}
use dropwire.Catalog.Records
use dropwire.Catalog.Records.{marks, Call, NoneActive}
use dropwire.Identity.{stored, create, load_or, load_or_create}
use dropwire.Endpoint.{local_only_config, CoreConfig, v4, v6, builder_of, bound, build_with, build}
use dropwire.Discover.Session.{launch}
use dropwire.Consent.Session
use dropwire.Startup.{
  Env, Machine, Inner, load_blobs, open_store, inner_of, port_of, with_store, with_opened,
  with_endpoint, with_key, with_dir, start,
}
use dropwire.Startup.Restart.{start_again}

abbrev zeros : Text
zeros = code_points "0123456789012345678901234567890"

abbrev first_byte : Text → ℕ
first_byte [] = 0
first_byte (b ∷ bytes) = b

abbrev env : Env
env = record {
  catalog = filled;
  keys = record {
    SecretKey = ℕ;
    to_bytes = λ sk. sk ∷ zeros;
    from_bytes = first_byte;
    set_permissions = λ p fs. fs;
    from_bytes-to_bytes = λ sk. refl;
    length-to_bytes = λ sk. refl;
    read-set_permissions = λ p q fs. refl;
  };
  create_dir_all = λ dir fs. (true, fs);
  load_store = λ dir fs. (true, fs);
  read-create_dir_all = λ dir p fs. refl;
  read-load_store = λ dir p fs h. refl;
}

abbrev config : CoreConfig
config = local_only_config (code_points "d")

abbrev machine : ℕ → Machine ℕ
machine fresh = record {
  fresh = fresh;
  libraries = record { dht_built = true; parse_relay_url = λ t. some t; parse_url = λ t. some t };
  bind = λ sk b. some (v6 5000 ∷ v4 4000 ∷ []);
  show_id = λ sk. sk ∷ [];
  hostname = none;
}

abbrev inner : ℕ → Inner ℕ
inner sk = record {
  endpoint = record { secret_key = sk; bound_sockets = v6 5000 ∷ v4 4000 ∷ [] };
  config = config;
  catalog = record { entries = []; path = code_points "d/transfers.json" };
  active = [];
  gate = record { serving = []; conns = []; bound = [] };
  nearby = launch (sk ∷ []) (code_points "My device");
  nearby_port = 4000;
  consent = Session.start false;
}

abbrev key_file : HashMap Text Text
key_file = (code_points "d/node.key", 5 ∷ zeros) ∷ []

first_start : start env config (machine 5) [] ≡ (inr (inner 5), key_file)
unfolding start with_dir with_key with_endpoint with_opened with_store open_store load_blobs
    inner_of port_of build build_with bound builder_of load_or_create load_or create stored load
    decoded mark_stale_interrupted launch join_path ends_with_slash Map.get Map.insert text_beq
first_start = refl

abbrev calls : List (Call env.catalog)
calls = marks ∷ []

second_start :
    start env config (machine 9) (Records.run env.catalog (inner 5).catalog key_file calls).1
    ≡ (inr (inner 5), key_file)
unfolding start with_dir with_key with_endpoint with_opened with_store open_store load_blobs
    inner_of port_of build build_with bound builder_of load_or_create load_or create stored load
    decoded mark_stale_interrupted launch join_path ends_with_slash Map.get Map.insert text_beq
    Records.run Records.step
second_start = refl

start_again_example : ((inner 5).endpoint.secret_key ≡ 5) × NoneActive (inner 5).catalog.entries
start_again_example =
    start_again env config config (machine 5) (machine 9) [] key_file key_file (inner 5) (inner 5)
      calls refl first_start second_start
