-- ===== src/Registry/Tests.antt =====
-- Concrete services in the registry, and the theorems on them at concrete inputs. A URL parses here
-- if it is not empty.
use abraxis.Base.{
  ◌≡◌, refl, Text, bytes, true, false, Option, none, some, [], ◌∷◌, is_empty, text_eq, lookup,
  insert, erase, has_key, if◌then◌else◌,
}
use abraxis.Registry.Service.{
  ServiceConfig, Registry, invalid_url, already_registered, new_service_registry, register,
  register_all, load_from_repository, deregister, get, list, update,
}
use abraxis.Registry.Loading.{entry_of, IsValid, register_all-IsValid}
use abraxis.Registry.Persistence.{World, Reach, AllSaved, IsSettled, settled, stale_save}

program : Unit {0}
unfolding text_eq lookup insert erase has_key new_service_registry register register_all
    load_from_repository deregister get list update
program = tt

abbrev parse : Text → Option Text
parse url = if is_empty url then none else some url

abbrev service : Text → Text → ServiceConfig
service name url = record {
  name = name;
  url = url;
  health_check_path = bytes "/health";
  requires_auth = true;
  timeout = 5000;
  retry_count = 3;
  allowed_roles = [];
  allowed_methods = [];
  routes = [];
}

abbrev users : ServiceConfig
users = service (bytes "users") (bytes "http://u")

abbrev orders : ServiceConfig
orders = service (bytes "orders") (bytes "http://o")

abbrev no_url : ServiceConfig
no_url = service (bytes "users") []

abbrev empty_registry : Registry Text
empty_registry = new_service_registry true

abbrev loaded : Registry Text
loaded = (register_all parse (users ∷ orders ∷ []) empty_registry).0

empty-IsValid : IsValid parse empty_registry
unfolding program
empty-IsValid = (tt, tt)

loaded-IsValid : IsValid parse loaded
loaded-IsValid = register_all-IsValid parse (users ∷ orders ∷ []) empty_registry empty-IsValid

both_found : get (bytes "orders") loaded ≡ some (entry_of parse orders (bytes "http://o"))
unfolding program
both_found = refl

-- A second service of a name is refused, and the rest of the list is not loaded.
twice :
    (register_all parse (users ∷ users ∷ orders ∷ []) empty_registry).1 ≡ some already_registered
unfolding program
twice = refl

-- The update is refused, and the service is gone.
refused_update : (update parse no_url loaded).1 ≡ some invalid_url
unfolding program
refused_update = refl

service_lost : get (bytes "users") (update parse no_url loaded).0 ≡ none
unfolding program
service_lost = refl

orders_new : has_key orders.name empty_registry.services ≡ false
unfolding program
orders_new = refl

repository_there : empty_registry.has_repository ≡ true
unfolding program
repository_there = refl

nothing_to_save : empty_registry.persists ≡ 0
unfolding program
nothing_to_save = refl

stale_save_example :
    (t : World Text) × (run : Reach parse (settled parse empty_registry []) t) × AllSaved parse run
    × IsSettled parse t
    × (has_key orders.name t.registry.services ≡ false)
    × (t.stored ≡ list (register parse orders empty_registry).0)
stale_save_example =
    stale_save parse empty_registry [] orders (bytes "http://o") repository_there nothing_to_save
      orders_new refl

abbrev first_world : World Text
first_world = settled parse empty_registry []

abbrev second_world : World Text
second_world = record first_world { registry = (register parse users empty_registry).0 }
