-- ===== src/Startup.antt =====
-- core/src/lib.rs, the start of the engine: the key, the endpoint, the blob store and the history,
-- in this order, on a disk passed along; with core/src/store.rs, `open`.
pub mod Layout
pub mod Restart
pub mod Shutdown
mod Tests
use dropwire.Prelude.{
  ℕ, ◌≡◌, Bool, true, false, Option, none, some, List, [], ◌∷◌, ◌++◌, if◌then◌else◌, ◌==◌, ◌&&◌,
  nat_eq, ◌⊎◌, inl, inr, Text, code_points,
}
use dropwire.Prelude.Map.{HashMap}
use dropwire.Progress.{TransferId}
use dropwire.Catalog
use dropwire.Catalog.{Catalog, mark_stale_interrupted}
use dropwire.Gate.{Gate}
use dropwire.Paths.{join_path}
use dropwire.Discover.Session.{World, launch, stop}
use dropwire.Consent.Session
use dropwire.Consent.Session.{Session}
use dropwire.Identity.{Keys, load_or_create}
use dropwire.Endpoint.{
  CoreError, io, other, CoreConfig, Libraries, Builder, BoundSocket, v4, v6, Endpoint, build,
}

abbrev pub starts_with : Text → Text → Bool
starts_with [] t = true
starts_with (c ∷ p) [] = false
starts_with (c ∷ p) (d ∷ t) = c == d && starts_with p t

-- What the start takes from outside: the disk with the catalog's codec, iroh's keys, the directory
-- calls of `std::fs`, which leave the files' contents, and the blob store, which changes no file
-- outside its directory.
pub record Env : Type 1 where
  pub catalog : Catalog.Env
  pub keys : Keys catalog.disk
  pub create_dir_all : Text → catalog.Fs → Bool × catalog.Fs
  pub load_store : Text → catalog.Fs → Bool × catalog.Fs
  pub read-create_dir_all :
      (dir p : Text) (fs : catalog.Fs)
      → catalog.read p (create_dir_all dir fs).1 ≡ catalog.read p fs
  pub read-load_store :
      (dir p : Text) (fs : catalog.Fs)
      → starts_with (dir ++ (b'/' ∷ [])) p ≡ false
      → catalog.read p (load_store dir fs).1 ≡ catalog.read p fs

-- What the surroundings of one start answer.
pub record Machine (SecretKey : Type 0) : Type 0 where
  pub fresh : SecretKey
  pub libraries : Libraries
  pub bind : SecretKey → Builder → Option (List BoundSocket)
  pub show_id : SecretKey → Text
  pub hostname : Option Text

abbrev pub default_device_name : Option Text → Text
default_device_name none = code_points "My device"
default_device_name (some h) = h

-- The port of the first IPv4 socket.
pub port_of : List BoundSocket → ℕ
port_of [] = 0
port_of (v4 port ∷ sockets) = port
port_of (v6 port ∷ sockets) = port_of sockets

pub record Inner (SecretKey : Type 0) : Type 0 where
  pub endpoint : Endpoint SecretKey
  pub config : CoreConfig
  pub catalog : Catalog
  pub active : HashMap TransferId Bool
  pub gate : Gate
  pub nearby : World
  pub nearby_port : ℕ
  pub consent : Session

module _ (env : Env) where
  open env use {catalog, keys, create_dir_all, load_store}
  open catalog use {Fs}
  open keys use {SecretKey}

  abbrev pub Started : Type 0
  Started = (CoreError ⊎ Inner SecretKey) × Fs

  load_blobs : Text → Fs → Option CoreError × Fs
  load_blobs blobs_dir fs =
      let (loaded, fs') = load_store blobs_dir fs in
      (if loaded then none else some (other (code_points "open blob store")), fs')

  -- `store::open`.
  open_store : Text → Fs → Option CoreError × Fs
  unfolding load_blobs
  open_store blobs_dir fs =
      let (made, fs') = create_dir_all blobs_dir fs in
      let rest = load_blobs blobs_dir fs' in if made then rest else (some io, fs')

  inner_of : CoreConfig → Machine SecretKey → Endpoint SecretKey → Catalog → Inner SecretKey
  unfolding port_of
  inner_of config m endpoint cat =
      let nearby = launch (m.show_id endpoint.secret_key) (default_device_name m.hostname) in
      record {
        endpoint = endpoint;
        config = config;
        catalog = cat;
        active = [];
        gate = record { serving = []; conns = []; bound = [] };
        nearby = nearby;
        nearby_port = port_of endpoint.bound_sockets;
        consent = Session.start nearby.state.running;
      }

  with_store : CoreConfig → Machine SecretKey → Endpoint SecretKey → Fs → Started
  unfolding inner_of
  with_store config m endpoint fs =
      let loaded =
        Catalog.load catalog (join_path config.data_dir (code_points "transfers.json")) fs in
      let (cat, fs') = mark_stale_interrupted catalog loaded fs in
      (inr (inner_of config m endpoint cat), fs')

  with_opened :
      CoreConfig → Machine SecretKey → Endpoint SecretKey → Option CoreError → Fs → Started
  unfolding with_store
  with_opened config m endpoint (some e) fs = (inl e, fs)
  with_opened config m endpoint none fs = with_store config m endpoint fs

  with_endpoint : CoreConfig → Machine SecretKey → CoreError ⊎ Endpoint SecretKey → Fs → Started
  unfolding with_opened open_store
  with_endpoint config m (inl e) fs = (inl e, fs)
  with_endpoint config m (inr endpoint) fs =
      let (o, fs') = open_store (join_path config.data_dir (code_points "blobs")) fs in
      with_opened config m endpoint o fs'

  with_key : CoreConfig → Machine SecretKey → Option SecretKey → Fs → Started
  unfolding with_endpoint
  with_key config m none fs = (inl io, fs)
  with_key config m (some sk) fs =
      with_endpoint config m (build m.libraries m.bind sk config.infra) fs

  with_dir : CoreConfig → Machine SecretKey → Fs → Started
  unfolding with_key
  with_dir config m fs =
      let key_path = join_path config.data_dir (code_points "node.key") in
      let (o, fs') = load_or_create catalog.disk keys key_path m.fresh fs in with_key config m o fs'

  -- `Core::start`.
  pub start : CoreConfig → Machine SecretKey → Fs → Started
  unfolding with_dir
  start config m fs =
      let (made, fs') = create_dir_all config.data_dir fs in
      let rest = with_dir config m fs' in if made then rest else (inl io, fs')

-- The flag of the nearby session is the one that the consent state reads.
pub with_nearby : {SecretKey : Type 0} → World → Inner SecretKey → Inner SecretKey
with_nearby w i = record i {
  nearby = w;
  consent = record i.consent { ctx = record i.consent.ctx { nearby_running = w.state.running } };
}

-- `Core::shutdown`; the errors of the router and of the store are dropped.
pub shutdown : {SecretKey : Type 0} → Bool → Inner SecretKey → Inner SecretKey
unfolding with_nearby
shutdown is_up i = with_nearby (stop is_up i.nearby) i
