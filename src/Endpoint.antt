-- ===== src/Endpoint.antt =====
-- core/src/endpoint.rs over core/src/config.rs: which relays and lookups the one endpoint of a device
-- is built with. The binding itself is iroh's. The variant `Infra::LocalRelay`, of the tests, is left
-- out.
use dropwire.Prelude.{
  ℕ, ◌≡◌, Bool, Option, none, some, List, [], ◌∷◌, if◌then◌else◌, ◌⊎◌, inl, inr, Text, code_points,
  arith,
}

-- `CoreError`; an `Other` keeps the outermost context.
pub data CoreError : Type 0 where
  io : CoreError
  invalid_ticket unreachable not_found other : (message : Text) → CoreError

pub data Infra : Type 0 where
  decentralized n0_default local_only : Infra
  self_hosted : (relay_url relay_token pkarr_relay origin_domain : Text) → Infra

pub record CoreConfig : Type 0 where
  pub data_dir : Text
  pub infra : Infra

-- `CoreConfig::serverless`, `dev` and `local_only`.
abbrev serverless : Text → CoreConfig
serverless data_dir = record { data_dir = data_dir; infra = decentralized }

abbrev dev : Text → CoreConfig
dev data_dir = record { data_dir = data_dir; infra = n0_default }

abbrev pub local_only_config : Text → CoreConfig
local_only_config data_dir = record { data_dir = data_dir; infra = local_only }

pub data Preset : Type 0 where
  minimal n0 : Preset

pub data RelayMode : Type 0 where
  of_preset disabled default : RelayMode
  custom : (relay relay_token : Text) → RelayMode

pub data AddressLookup : Type 0 where
  dht : AddressLookup
  pkarr : (url : Text) → AddressLookup
  dns : (origin_domain : Text) → AddressLookup

pub record Builder : Type 0 where
  pub preset : Preset
  pub relay_mode : RelayMode
  pub address_lookups : List AddressLookup

-- What the libraries answer: whether the DHT lookup is built, and the parsers of URLs.
pub record Libraries : Type 0 where
  pub dht_built : Bool
  pub parse_relay_url : Text → Option Text
  pub parse_url : Text → Option Text

module _ (l : Libraries) where
  open l use {dht_built, parse_relay_url, parse_url}

  with_pkarr : Text → Text → Text → Option Text → CoreError ⊎ Builder
  with_pkarr relay relay_token origin_domain none =
      inl (other (code_points "parse pkarr relay url"))
  with_pkarr relay relay_token origin_domain (some url) = inr (record {
    preset = minimal;
    relay_mode = custom relay relay_token;
    address_lookups = pkarr url ∷ dns origin_domain ∷ [];
  })

  with_relay : Text → Text → Text → Option Text → CoreError ⊎ Builder
  unfolding with_pkarr
  with_relay relay_token pkarr_relay origin_domain none =
      inl (other (code_points "parse relay url"))
  with_relay relay_token pkarr_relay origin_domain (some relay) =
      with_pkarr relay relay_token origin_domain (parse_url pkarr_relay)

  unfoldable pub builder_of : Infra → CoreError ⊎ Builder
  unfolding with_relay
  builder_of decentralized =
      if dht_built
      then inr (record { preset = minimal; relay_mode = default; address_lookups = dht ∷ [] })
      else inl (other (code_points "build DHT address lookup"))
  builder_of n0_default = inr (record { preset = n0; relay_mode = of_preset; address_lookups = [] })
  builder_of local_only =
      inr (record { preset = minimal; relay_mode = disabled; address_lookups = [] })
  builder_of (self_hosted relay_url relay_token pkarr_relay origin_domain) =
      with_relay relay_token pkarr_relay origin_domain (parse_relay_url relay_url)

-- The context of a binding that fails.
pub bind_context : Infra → Text
bind_context decentralized = code_points "bind endpoint (decentralized: DHT + n0 relay)"
bind_context n0_default = code_points "bind endpoint (n0 default)"
bind_context local_only = code_points "bind endpoint (local only)"
bind_context (self_hosted relay_url relay_token pkarr_relay origin_domain) =
    code_points "bind endpoint (self-hosted)"

-- A UDP port that the endpoint listens on.
pub data BoundSocket : Type 0 where
  v4 v6 : (port : ℕ) → BoundSocket

pub record Endpoint (SecretKey : Type 0) : Type 0 where
  pub secret_key : SecretKey
  pub bound_sockets : List BoundSocket

module _ {SecretKey : Type 0} (l : Libraries)
    (bind : SecretKey → Builder → Option (List BoundSocket)) where
  unfoldable pub bound :
      SecretKey → Infra → Option (List BoundSocket) → CoreError ⊎ Endpoint SecretKey
  bound sk infra none = inl (other (bind_context infra))
  bound sk infra (some sockets) = inr (record { secret_key = sk; bound_sockets = sockets })

  unfoldable pub build_with :
      SecretKey → Infra → CoreError ⊎ Builder → CoreError ⊎ Endpoint SecretKey
  unfolding bound
  build_with sk infra (inl e) = inl e
  build_with sk infra (inr b) = bound sk infra (bind sk b)

  unfoldable pub build : SecretKey → Infra → CoreError ⊎ Endpoint SecretKey
  unfolding build_with
  build sk infra = build_with sk infra (builder_of l infra)

  bound-secret_key :
      (sk : SecretKey) (infra : Infra) (o : Option (List BoundSocket)) (ep : Endpoint SecretKey)
      → bound sk infra o ≡ inr ep
      → ep.secret_key ≡ sk
  unfolding bound
  bound-secret_key sk infra none ep e = absurd (cc e)
  bound-secret_key sk infra (some sockets) ep e = ground (arith, e)

  build_with-secret_key :
      (sk : SecretKey) (infra : Infra) (r : CoreError ⊎ Builder) (ep : Endpoint SecretKey)
      → build_with sk infra r ≡ inr ep
      → ep.secret_key ≡ sk
  unfolding build_with
  build_with-secret_key sk infra (inl x) ep e = absurd (cc e)
  build_with-secret_key sk infra (inr b) ep e = bound-secret_key sk infra (bind sk b) ep e

  -- An endpoint that is built has the key it was given.
  pub build-secret_key :
      (sk : SecretKey) (infra : Infra) (ep : Endpoint SecretKey)
      → build sk infra ≡ inr ep
      → ep.secret_key ≡ sk
  unfolding build
  build-secret_key sk infra ep e = build_with-secret_key sk infra (builder_of l infra) ep e
