-- ===== src/Discovery/Local.antt =====
-- The instances of services that `LocalDiscovery` of
-- prism/internal/features/discovery/adapters/provider/local.go keeps. Both maps hold pointers: a pointer
-- is a number, the heap says what it points to, and `next` is the first that is free. Times are ℕ with
-- 0 for the zero time. An operation returns what it sends to the watchers after it.
use abraxis.Base.{
  ℕ, ◌+◌, ◌-◌, Text, bytes, Bool, true, false, ◌&&◌, Option, none, some, List, [], ◌∷◌, ◌++◌, map,
  text_eq, is_empty, lookup, insert, erase, ltb, ◌==◌, if◌then◌else◌,
}

abbrev pub active : Text
active = bytes "ACTIVE"

abbrev pub inactive : Text
inactive = bytes "INACTIVE"

abbrev pub deregistered : Text
deregistered = bytes "DEREGISTERED"

-- `ServiceInstance`
pub record Instance : Type 0 where
  pub id : Text
  pub service_name : Text
  pub version : Text
  pub address : Text
  pub port : ℕ
  pub status : Text
  pub tags : List Text
  pub metadata : List (Text × Text)
  pub registered_at : ℕ
  pub last_heartbeat : ℕ

abbrev pub ServiceMap : Type 0
ServiceMap = List (Text × List (Text × ℕ))

pub record Local : Type 0 where
  pub heap : ℕ → Instance
  pub next : ℕ
  pub instances : List (Text × ℕ)
  pub service_map : ServiceMap

pub record Config : Type 0 where
  pub heartbeat_timeout : ℕ
  pub deregister_timeout : ℕ

pub data LocalError : Type 0 where
  instance_not_found service_not_found : LocalError

-- `*p = i`
unfoldable pub write : ℕ → Instance → (ℕ → Instance) → ℕ → Instance
write p i heap q = if p == q then i else heap q

-- The copy that `RegisterInstance` keeps.
abbrev pub registered : ℕ → Instance → Instance
registered now i = record i {
  registered_at = if i.registered_at == 0 then now else i.registered_at;
  last_heartbeat = now;
  status = if is_empty i.status then active else i.status;
}

-- `serviceMap[name]`, empty if there is none.
unfoldable pub instances_of : Text → ServiceMap → List (Text × ℕ)
instances_of name m = elim (lookup name m) [ none ↦ [] | some is ↦ is ]

-- `RegisterInstance`
unfoldable pub register_instance : ℕ → Instance → Local → Local × List Instance
register_instance now i d =
    let copy = registered now i in
    (
      record d {
        heap = write d.next copy d.heap;
        next = d.next + 1;
        instances = insert copy.id d.next d.instances;
        service_map =
            insert copy.service_name
              (insert copy.id d.next (instances_of copy.service_name d.service_map)) d.service_map;
      },
      copy ∷ [],
    )

abbrev pub is_nil : List (Text × ℕ) → Bool
is_nil [] = true
is_nil (e ∷ m) = false

-- `delete(serviceMap[name], id)`, and of the map itself once it is empty.
unfoldable pub remove_from : Text → Text → ServiceMap → ServiceMap
remove_from name id m =
    let rest = erase id (instances_of name m) in
    if is_nil rest then erase name m else insert name rest m

-- The removal of an instance from both maps.
unfoldable pub remove_entry : Text → Text → Local → Local
remove_entry name id d = record d {
  instances = erase id d.instances;
  service_map = remove_from name id d.service_map;
}

-- `DeregisterInstance`
unfoldable pub deregister_instance : Text → Local → Local × Option LocalError × List Instance
deregister_instance id d = elim (lookup id d.instances) [
  | none ↦ (d, some instance_not_found, [])
  | some p ↦ (
    remove_entry (d.heap p).service_name id d,
    none,
    record (d.heap p) { status = deregistered } ∷ [],
  )
]

abbrev pub set_status : Text → Instance → Instance
set_status status i = record i { status = status }

-- `UpdateInstanceStatus`
unfoldable pub update_instance_status :
    Text → Text → Local → Local × Option LocalError × List Instance
update_instance_status id status d = elim (lookup id d.instances) [
  | none ↦ (d, some instance_not_found, [])
  | some p ↦ (
    record d { heap = write p (set_status status (d.heap p)) d.heap },
    none,
    set_status status (d.heap p) ∷ [],
  )
]

-- The instance after a heartbeat, and whether its status changed.
abbrev pub beat : ℕ → Instance → Instance
beat now i =
    let seen = record i { last_heartbeat = now } in
    if text_eq seen.status inactive then set_status active seen else seen

-- `Heartbeat`
unfoldable pub heartbeat : ℕ → Text → Local → Local × Option LocalError × List Instance
heartbeat now id d = elim (lookup id d.instances) [
  | none ↦ (d, some instance_not_found, [])
  | some p ↦ (
    record d { heap = write p (beat now (d.heap p)) d.heap },
    none,
    if text_eq (d.heap p).status inactive then beat now (d.heap p) ∷ [] else [],
  )
]

-- The instances with the status ACTIVE that a range over a map visits.
unfoldable pub active_of : (ℕ → Instance) → List (Text × ℕ) → List Instance
active_of heap [] = []
active_of heap ((id, p) ∷ m) =
    let rest = active_of heap m in if text_eq (heap p).status active then heap p ∷ rest else rest

-- `ListInstances`; the name is empty for all services, and `none` is the error.
unfoldable pub list_instances : Text → Local → Option (List Instance)
list_instances name d =
    if is_empty name
    then some (active_of d.heap d.instances)
    else elim (lookup name d.service_map) [ none ↦ none | some is ↦ some (active_of d.heap is) ]

-- `GetInstance`
unfoldable pub get_instance : Text → Local → Option Instance
get_instance id d = elim (lookup id d.instances) [ none ↦ none | some p ↦ some (d.heap p) ]

-- `versions[version]++`
unfoldable pub count_version : Text → List (Text × ℕ) → List (Text × ℕ)
count_version version m = elim (lookup version m) [
  | none ↦ insert version 1 m
  | some n ↦ insert version (n + 1) m
]

unfoldable pub count_versions : List Instance → List (Text × ℕ) → List (Text × ℕ)
count_versions [] m = m
count_versions (i ∷ is) m = count_versions is (count_version i.version m)

-- `ServiceInfo` without its metadata, which is not set.
pub record ServiceInfo : Type 0 where
  pub name : Text
  pub version : Text
  pub count : ℕ

-- `ListServices`
unfoldable pub list_services_of : (ℕ → Instance) → ServiceMap → List ServiceInfo
list_services_of heap [] = []
list_services_of heap ((name, is) ∷ m) =
    map (λ e. record { name = name; version = e.0; count = e.1 })
      (count_versions (active_of heap is) [])
    ++ list_services_of heap m

unfoldable pub list_services : Local → List ServiceInfo
list_services d = list_services_of d.heap d.service_map

-- What the loop of `checkExpiredInstances` has done: the instances it wrote to, and the ids to remove.
pub record Sweep : Type 0 where
  pub heap : ℕ → Instance
  pub inactive_instances : List Instance
  pub deregistered_instances : List Instance
  pub to_remove : List Text

abbrev pub elapsed : ℕ → Instance → ℕ
elapsed now i = now - i.last_heartbeat

-- The tests of the loop: whether to mark the instance inactive, and whether to deregister it.
unfoldable pub is_late : Config → ℕ → Instance → Bool
is_late c now i = ltb c.heartbeat_timeout (elapsed now i) && text_eq i.status active

unfoldable pub is_gone : Config → ℕ → Instance → Bool
is_gone c now i = ltb c.deregister_timeout (elapsed now i) && text_eq i.status inactive

-- The loop; an instance that is DEREGISTERED meets neither test.
unfoldable pub sweep : Config → ℕ → List (Text × ℕ) → (ℕ → Instance) → Sweep
sweep c now [] heap = record {
  heap = heap;
  inactive_instances = [];
  deregistered_instances = [];
  to_remove = [];
}
sweep c now ((id, p) ∷ m) heap =
    let late = set_status inactive (heap p) in
    let gone = set_status deregistered (heap p) in
    let rest_late = sweep c now m (write p late heap) in
    let rest_gone = sweep c now m (write p gone heap) in
    let rest = sweep c now m heap in
    if is_late c now (heap p)
    then record rest_late { inactive_instances = late ∷ rest_late.inactive_instances }
    else (if is_gone c now (heap p)
        then record rest_gone {
          deregistered_instances = gone ∷ rest_gone.deregistered_instances;
          to_remove = id ∷ rest_gone.to_remove;
        }
        else rest)

-- The second loop of `checkExpiredInstances`; every id in it is one of `instances`.
unfoldable pub remove_all : List Text → Local → Local
remove_all [] d = d
remove_all (id ∷ ids) d = elim (lookup id d.instances) [
  | none ↦ remove_all ids d
  | some p ↦ remove_all ids (remove_entry (d.heap p).service_name id d)
]

-- `checkExpiredInstances`
unfoldable pub check_expired_instances : Config → ℕ → Local → Local × List Instance
check_expired_instances c now d =
    let s = sweep c now d.instances d.heap in
    (
      remove_all s.to_remove (record d { heap = s.heap }),
      s.inactive_instances ++ s.deregistered_instances,
    )
