-- ===== src/Discovery/Operations.antt =====
-- The operations of LocalDiscovery together, and what ListInstances lists:
-- prism/internal/features/discovery/adapters/provider/local.go.

use abraxis.Base.{
  ℕ, ◌≡◌, ◌≢◌, inl, inr, refl, sym, ap, ◌∙◌, Text, Bool, true, false, ◌&&◌, ◌||◌, Option, none,
  some, List, [], ◌∷◌, text_eq, text_eq_iff, eq_of_text_eq, is_empty, lookup, has_key, IsDict, All,
  if◌then◌else◌, arith, Bool-cases, Option-cases,
}
use abraxis.Discovery.Local.{
  Instance, Local, Config, active, register_instance, deregister_instance, update_instance_status,
  heartbeat, check_expired_instances, active_of, instances_of, list_instances, get_instance,
}
use abraxis.Discovery.Index.{
  IsConsistent, pointer_of, deregister-IsConsistent, update_status-IsConsistent,
  heartbeat-IsConsistent,
}
use abraxis.Discovery.Registration.{KeepsService, register-IsConsistent}
use abraxis.Discovery.Entries.{ids_of}
use abraxis.Discovery.Expiry.{check_expired-IsConsistent}

-- The calls that change the state, with the clock.
pub data Operation : Type 0 where
  registers : ℕ → Instance → Operation
  deregisters : Text → Operation
  updates : Text → Text → Operation
  beats : ℕ → Text → Operation
  expires : Config → ℕ → Operation

unfoldable pub operate : Operation → Local → Local
operate (registers now i) d = (register_instance now i d).0
operate (deregisters id) d = (deregister_instance id d).0
operate (updates id status) d = (update_instance_status id status d).0
operate (beats now id) d = (heartbeat now id d).0
operate (expires c now) d = (check_expired_instances c now d).0

-- A registration under an id that is there has the same service.
abbrev pub IsSteady : Operation → Local → Type 0
IsSteady (registers now i) d = KeepsService i d
IsSteady o d = Unit

-- Every operation keeps the two maps consistent, if no registration moves an id to another service:
-- each map has a key once, and both hold the same pointers, each under the id of the instance and the
-- name of its service.
pub operate-IsConsistent :
    (o : Operation) (d : Local) → IsSteady o d → IsConsistent d → IsConsistent (operate o d)
unfolding operate
operate-IsConsistent (registers now i) d h k = register-IsConsistent now i d h k
operate-IsConsistent (deregisters id) d h k = deregister-IsConsistent id d k
operate-IsConsistent (updates id status) d h k = update_status-IsConsistent id status d k
operate-IsConsistent (beats now id) d h k = heartbeat-IsConsistent now id d k
operate-IsConsistent (expires c now) d h k = check_expired-IsConsistent c now d k

-- Whether an instance of an id is in a list.
unfoldable pub is_listed : Text → List Instance → Bool
is_listed id [] = false
is_listed id (i ∷ is) = if text_eq i.id id then true else is_listed id is

active_at : (ℕ → Instance) → Option ℕ → Bool
active_at heap none = false
active_at heap (some p) = text_eq (heap p).status active

absent-is_listed :
    (heap : ℕ → Instance) (id : Text) (m : List (Text × ℕ))
    → All (λ e. (heap e.1).id ≡ e.0) m
    → has_key id m ≡ false
    → is_listed id (active_of heap m) ≡ false
unfolding is_listed active_of has_key
absent-is_listed heap id [] a n = refl
absent-is_listed heap id ((k, p) ∷ m) a n = ground (arith, absent-is_listed heap id m a.1, a.0)

is_listed-active_of :
    (heap : ℕ → Instance) (id : Text) (m : List (Text × ℕ))
    → IsDict m
    → All (λ e. (heap e.1).id ≡ e.0) m
    → is_listed id (active_of heap m) ≡ active_at heap (lookup id m)
unfolding is_listed active_of lookup active_at
is_listed-active_of heap id [] d a = refl
is_listed-active_of heap id ((k, p) ∷ m) d a =
    let its_id : text_eq (heap p).id id ≡ text_eq k id = ap (λ t. text_eq t id) a.0 in
    elim (Bool-cases (text_eq k id)) [
      | inl e ↦
          let new : has_key id m ≡ false =
            ap (λ t. has_key t m) (sym (eq_of_text_eq k id e)) ∙ d.0 in
          ground (arith, e, its_id, absent-is_listed heap id m a.1 new)
      | inr e ↦ ground (arith, e, its_id, is_listed-active_of heap id m d.1 a.1)
    ]

-- Whether an instance is to be listed for a service, or for all of them.
abbrev pub serves : Text → Option Instance → Bool
serves name none = false
serves name (some i) = text_eq i.status active && (is_empty name || text_eq i.service_name name)

list_all :
    (id : Text) (d : Local)
    → IsConsistent d
    → is_listed id (active_of d.heap d.instances) ≡ serves [] (get_instance id d)
unfolding get_instance active_at
list_all id d k =
    let ids = ids_of d.heap d.instances k.once (λ j q at_q. (k.held j q at_q).1) in
    is_listed-active_of d.heap id d.instances k.once ids
    ∙ elim (Option-cases (lookup id d.instances)) [
      | inl q ↦ rw (q, get_instance, active_at) refl
      | inr (p, q) ↦ rw (q, get_instance, active_at) (ground arith)
    ]

none-ne-some : (p : ℕ) → none ≢ some p
none-ne-some p = λ h. cc

other_service :
    (name id : Text) (p : ℕ) (d : Local)
    → IsConsistent d
    → pointer_of name id d.service_map ≡ none
    → lookup id d.instances ≡ some p
    → text_eq (d.heap p).service_name name ≡ false
other_service name id p d k q r = elim (Bool-cases (text_eq (d.heap p).service_name name)) [
  | inr e ↦ e
  | inl e ↦
      let same = eq_of_text_eq (d.heap p).service_name name e in
      let placed = (k.held id p r).2 in
      absurd (none-ne-some p (sym q ∙ ap (λ n. pointer_of n id d.service_map) (sym same) ∙ placed))
]

list_service :
    (name id : Text) (d : Local)
    → is_empty name ≡ false
    → IsConsistent d
    → is_listed id (active_of d.heap (instances_of name d.service_map))
      ≡ serves name (get_instance id d)
unfolding get_instance active_at
list_service name id d given k =
    let is = instances_of name d.service_map in
    let ids =
      ids_of d.heap is (k.once_in name) (λ j q at_q. (k.held j q (k.mapped name j q at_q).0).1) in
    is_listed-active_of d.heap id is (k.once_in name) ids ∙ elim (Option-cases (lookup id is)) [
      | inr (p, q) ↦
          let (at_p, its_name) = k.mapped name id p q in
          rw (q, at_p, get_instance, active_at)
            (ground (arith, given, text_eq_iff (d.heap p).service_name name, its_name))
      | inl q ↦ elim (Option-cases (lookup id d.instances)) [
        | inl r ↦ rw (q, r, get_instance, active_at) refl
        | inr (p, r) ↦
            let other = other_service name id p d k q r in
            rw (q, r, get_instance, active_at) (ground (arith, given, other))
      ]
    ]

-- Whether an id is in the answer of `ListInstances`, in which an error lists nothing.
abbrev pub lists : Text → Option (List Instance) → Bool
lists id none = false
lists id (some is) = is_listed id is

-- On consistent maps ListInstances lists, for a service and for all of them, exactly the instances
-- that GetInstance finds with the status ACTIVE and, for a service, with its name; for a service that
-- it refuses with an error there is none.
pub list_instances-get_instance :
    (name id : Text) (d : Local)
    → IsConsistent d
    → lists id (list_instances name d) ≡ serves name (get_instance id d)
unfolding list_instances instances_of active_of is_listed
list_instances-get_instance [] id d k = list_all id d k
list_instances-get_instance (b ∷ bs) id d k =
    let name : Text = b ∷ bs in
    let all = list_service name id d refl k in
    elim (Option-cases (lookup name d.service_map)) [
      | inl q ↦ rw (q, list_instances) (rw (q, instances_of) at all)
      | inr (is, q) ↦ rw (q, list_instances) (rw (q, instances_of) at all)
    ]
