-- ===== src/Registry/Service.antt =====
-- The services that the gateway knows, `ServiceRegistry` of
-- prism/internal/features/discovery/service_registry.go, with the configurations of
-- prism/internal/config/config.go. `url.Parse` is a parameter; so is the type of its results.
use abraxis.Base.{
  ℕ, ◌+◌, Text, Bool, Option, none, some, List, [], ◌∷◌, map, lookup, insert, erase, has_key,
  if◌then◌else◌,
}

pub record RouteConfig : Type 0 where
  pub path : Text
  pub method : Text
  pub public : Bool
  pub required_scopes : List Text
  pub priority : ℕ

pub record ServiceConfig : Type 0 where
  pub name : Text
  pub url : Text
  pub health_check_path : Text
  pub requires_auth : Bool
  pub timeout : ℕ
  pub retry_count : ℕ
  pub allowed_roles : List Text
  pub allowed_methods : List Text
  pub routes : List RouteConfig

-- What `Register` sets of the reverse proxy; times are in nanoseconds.
pub record Proxy (U : Type 0) : Type 0 where
  pub target : U
  pub response_header_timeout : ℕ
  pub expect_continue_timeout : ℕ
  pub max_idle_conns : ℕ
  pub idle_conn_timeout : ℕ

pub record ServiceEntry (U : Type 0) : Type 0 where
  pub config : ServiceConfig
  pub proxy : Proxy U

-- `persists` counts the goroutines started to run `persistServices` that have not listed yet.
pub record Registry (U : Type 0) : Type 0 where
  pub services : List (Text × ServiceEntry U)
  pub has_repository : Bool
  pub persists : ℕ

pub data RegistryError : Type 0 where
  already_registered invalid_url not_found load_failed : RegistryError

abbrev pub new_proxy : {U : Type 0} → ServiceConfig → U → Proxy U
new_proxy c url = record {
  target = url;
  response_header_timeout = c.timeout;
  expect_continue_timeout = 1000000000;
  max_idle_conns = 100;
  idle_conn_timeout = 90000000000;
}

-- `if sr.repository != nil { go sr.persistServices() }`
abbrev pub start_persist : {U : Type 0} → Registry U → Registry U
start_persist r = record r { persists = if r.has_repository then r.persists + 1 else r.persists }

-- `NewServiceRegistry`
unfoldable pub new_service_registry : {U : Type 0} → Bool → Registry U
new_service_registry has_repository = record {
  services = [];
  has_repository = has_repository;
  persists = 0;
}

-- `if err != nil { return err }`
abbrev pub and_then :
    {U : Type 0}
    → Registry U × Option RegistryError
    → (Registry U → Registry U × Option RegistryError)
    → Registry U × Option RegistryError
and_then (r, none) next = next r
and_then (r, some e) next = (r, some e)

module _ {U : Type 0} (parse : Text → Option U) where
  abbrev pub add_entry : ServiceConfig → U → Registry U → Registry U
  add_entry c url r = start_persist (record r {
    services = insert c.name (record { config = c; proxy = new_proxy c url }) r.services;
  })

  -- `Register`; without an error it returns `none`.
  unfoldable pub register : ServiceConfig → Registry U → Registry U × Option RegistryError
  register c r =
      if has_key c.name r.services then (r, some already_registered) else elim (parse c.url) [
        | none ↦ (r, some invalid_url)
        | some url ↦ (add_entry c url r, none)
      ]

  -- The loops of `LoadFromConfig` and `LoadFromRepository`.
  unfoldable pub register_all : List ServiceConfig → Registry U → Registry U × Option RegistryError
  register_all [] r = (r, none)
  register_all (c ∷ cs) r = and_then (register c r) (register_all cs)

  -- `LoadFromRepository`; `loaded` is what the repository's `Load` gives.
  unfoldable pub load_from_repository :
      Option (List ServiceConfig) → Registry U → Registry U × Option RegistryError
  load_from_repository loaded r =
      if r.has_repository
      then elim loaded [ none ↦ (r, some load_failed) | some cs ↦ register_all cs r ]
      else (r, none)

module _ {U : Type 0} where
  -- `Deregister`
  unfoldable pub deregister : Text → Registry U → Registry U × Option RegistryError
  deregister name r =
      if has_key name r.services
      then (start_persist (record r { services = erase name r.services }), none)
      else (r, some not_found)

  -- `Get`
  unfoldable pub get : Text → Registry U → Option (ServiceEntry U)
  get name r = lookup name r.services

  -- `List`
  unfoldable pub list : Registry U → List ServiceConfig
  list r = map (λ e. e.1.config) r.services

-- `Update`: two calls, each under its own lock.
unfoldable pub update :
    {U : Type 0}
    → (Text → Option U)
    → ServiceConfig
    → Registry U
    → Registry U × Option RegistryError
update parse c r = and_then (deregister c.name r) (register parse c)
