-- ===== src/Discovery/Tests.antt =====
-- Concrete instances of services, and the theorems on them at concrete inputs.
use abraxis.Base.{
  ℕ, List, ◌≡◌, refl, Text, bytes, true, false, none, some, [], ◌∷◌, inl, text_eq, lookup, insert,
  erase, has_key, arith,
}
use abraxis.Discovery.Local.{
  Instance, Local, Config, active, write, registered, instances_of, register_instance, remove_from,
  remove_entry, deregister_instance, update_instance_status, heartbeat, active_of, list_instances,
  get_instance, count_version, count_versions, list_services_of, list_services, is_late, is_gone,
  sweep, remove_all, check_expired_instances,
}
use abraxis.Discovery.Watch.{
  Watchers, channels_of, watch_each, watch_services, notified, has_channel, is_among, drop_channel,
  remove_watch_channel, close_watchers,
}
use abraxis.Discovery.Index.{IsConsistent}
use abraxis.Discovery.Expiry.{silent-get_instance}
use abraxis.Discovery.Operations.{registers, expires, operate, operate-IsConsistent, is_listed}

program : Unit {0}
unfolding text_eq lookup insert erase has_key write instances_of register_instance remove_from
    remove_entry deregister_instance update_instance_status heartbeat active_of list_instances
    get_instance count_version count_versions list_services_of list_services is_late is_gone sweep
    remove_all check_expired_instances operate is_listed channels_of watch_each watch_services
    notified has_channel is_among drop_channel remove_watch_channel close_watchers
program = tt

abbrev users_at : Text → Instance
users_at service = record {
  id = bytes "i1";
  service_name = service;
  version = bytes "v1";
  address = bytes "10.0.0.1";
  port = 80;
  status = [];
  tags = [];
  metadata = [];
  registered_at = 0;
  last_heartbeat = 0;
}

abbrev users : Text
users = bytes "users"

abbrev empty_local : Local
empty_local = record { heap = λ p. users_at users; next = 0; instances = []; service_map = [] }

empty-IsConsistent : IsConsistent empty_local
unfolding program
empty-IsConsistent = record {
  once = tt;
  once_in = λ n. tt;
  held = λ id p h. cc;
  mapped = λ n id p h. cc;
}

abbrev one_registered : Local
one_registered = operate (registers 5 (users_at users)) empty_local

nothing_there : lookup (bytes "i1") empty_local.instances ≡ none
unfolding program
nothing_there = refl

abbrev timeouts : Config
timeouts = record { heartbeat_timeout = 10; deregister_timeout = 30 }

one-IsConsistent : IsConsistent one_registered
one-IsConsistent =
    operate-IsConsistent (registers 5 (users_at users)) empty_local (λ p h. cc) empty-IsConsistent

operate-IsConsistent_example : IsConsistent (operate (expires timeouts 20) one_registered)
operate-IsConsistent_example =
    operate-IsConsistent (expires timeouts 20) one_registered tt one-IsConsistent

listed : list_instances users one_registered ≡ some (registered 5 (users_at users) ∷ [])
unfolding program
listed = refl

counted :
    list_services one_registered ≡ record { name = users; version = bytes "v1"; count = 1 } ∷ []
unfolding program
counted = refl

found : get_instance (bytes "i1") one_registered ≡ some (registered 5 (users_at users))
unfolding program
found = refl

is_active : text_eq active active ≡ true
unfolding program
is_active = refl

silent-get_instance_example :
    get_instance
      (bytes "i1")
      (check_expired_instances timeouts 40 (check_expired_instances timeouts 20 one_registered).0).0
    ≡ none
silent-get_instance_example =
    silent-get_instance timeouts 20 40 one_registered (bytes "i1") (registered 5 (users_at users))
      one-IsConsistent found (inl is_active) (omega arith) (omega arith)

-- Registered again for another service, the instance stays listed for the first, and no round removes
-- it from there.
abbrev moved : Local
moved = operate (registers 6 (users_at (bytes "orders"))) one_registered

ghost_listed :
    list_instances users (operate (expires timeouts 90) (operate (expires timeouts 40) moved))
    ≡ some (registered 5 (users_at users) ∷ [])
unfolding program
ghost_listed = refl

-- An instance with another status, however old, is never removed.
abbrev draining : Local
draining = (update_instance_status (bytes "i1") (bytes "DRAINING") one_registered).0

never_removed :
    get_instance
      (bytes "i1")
      (operate (expires timeouts 99999) (operate (expires timeouts 9999) draining))
    ≡ some (record (registered 5 (users_at users)) { status = bytes "DRAINING" })
unfolding program
never_removed = refl

revived :
    let late = operate (expires timeouts 20) one_registered in
    (heartbeat 21 (bytes "i1") late).2
    ≡ record (registered 5 (users_at users)) { last_heartbeat = 21 } ∷ []
unfolding program
revived = refl

abbrev no_watchers : Watchers
no_watchers = record { watch_channels = []; next_channel = 0 }

no_channel : (n : Text) → has_channel 0 (channels_of n no_watchers.watch_channels) ≡ false
unfolding program
no_channel n = refl

-- A watcher of all services does not hear of a service that is registered later.
not_heard : notified (bytes "orders") (watch_services [] one_registered no_watchers).0 ≡ []
unfolding program
not_heard = refl

abbrev two_watched : List (Text × List ℕ)
two_watched = (users, 3 ∷ 4 ∷ []) ∷ (bytes "orders", 4 ∷ []) ∷ []

-- A channel is taken out of every list, and a list that is empty goes.
taken_out : remove_watch_channel 4 two_watched ≡ ((users, 3 ∷ []) ∷ [], true)
unfolding program
taken_out = refl

not_there : remove_watch_channel 5 two_watched ≡ (two_watched, false)
unfolding program
not_there = refl

-- A channel that watches two services is closed twice, and the second panic is recovered.
all_closed :
    (close_watchers (record { watch_channels = two_watched; next_channel = 5 })).1 ≡ 3 ∷ 4 ∷ 4 ∷ []
unfolding program
all_closed = refl
