-- ===== src/Discovery/Index.antt =====
-- The two maps of LocalDiscovery hold the same instances:
-- prism/internal/features/discovery/adapters/provider/local.go.
use mathlib.Core.Path.{subst}
use mathlib.Core.Option.{some-injective}
use abraxis.Base.{
  ℕ, ◌<◌, ◌≡◌, ◌≢◌, inl, inr, refl, sym, ap, ◌∙◌, Text, Bool, true, false, Option, none, some, List,
  [], ◌∷◌, text_eq, text_eq_iff, eq_of_text_eq, lookup, insert, erase, lookup-insert, lookup-erase,
  IsDict, erase-IsDict, if◌then◌else◌, arith, Bool-cases, Option-cases,
}
use abraxis.Discovery.Local.{
  Instance, ServiceMap, Local, write, instances_of, is_nil, remove_from, remove_entry,
  deregister_instance, set_status, update_instance_status, beat, heartbeat,
}

-- `d.serviceMap[name][id]`
abbrev pub pointer_of : Text → Text → ServiceMap → Option ℕ
pointer_of name id m = lookup id (instances_of name m)

-- An id in the first map is that of the instance, which the second map has under the name of its
-- service; and every pointer in the second map is of an instance of that name and is in the first.
pub record IsConsistent (d : Local) : Type 0 where
  pub once : IsDict d.instances
  pub once_in : (name : Text) → IsDict (instances_of name d.service_map)
  pub held :
      (id : Text) (p : ℕ)
      → lookup id d.instances ≡ some p
      → (p < d.next)
        × ((d.heap p).id ≡ id)
        × (pointer_of (d.heap p).service_name id d.service_map ≡ some p)
  pub mapped :
      (name id : Text) (p : ℕ)
      → pointer_of name id d.service_map ≡ some p
      → (lookup id d.instances ≡ some p) × ((d.heap p).service_name ≡ name)

pub true-ne-false : true ≢ false
true-ne-false = λ h. cc

pub text_eq_of : (a b : Text) → a ≡ b → text_eq a b ≡ true
text_eq_of a b h = ground (arith, text_eq_iff a b)

erased :
    (k j : Text) (p : ℕ) (m : List (Text × ℕ))
    → lookup j (erase k m) ≡ some p
    → (text_eq k j ≡ false) × (lookup j m ≡ some p)
erased k j p m h = ground (arith, lookup-erase k j m)

pub instances_of-insert :
    (k j : Text) (is : List (Text × ℕ)) (m : ServiceMap)
    → instances_of j (insert k is m) ≡ (if text_eq k j then is else instances_of j m)
unfolding instances_of
instances_of-insert k j is m = ground (arith, lookup-insert k j is m)

instances_of-erase :
    (k j : Text) (m : ServiceMap)
    → instances_of j (erase k m) ≡ (if text_eq k j then [] else instances_of j m)
unfolding instances_of
instances_of-erase k j m = ground (arith, lookup-erase k j m)

nil_of : (m : List (Text × ℕ)) → is_nil m ≡ true → [] ≡ m
nil_of [] h = refl
nil_of (e ∷ m) h = cc

instances_of-remove_from :
    (name id j : Text) (m : ServiceMap)
    → instances_of j (remove_from name id m)
      ≡ (if text_eq name j then erase id (instances_of name m) else instances_of j m)
unfolding remove_from
instances_of-remove_from name id j m = elim (Bool-cases (is_nil (erase id (instances_of name m)))) [
  | inl nil ↦
      rw (nil, remove_from)
        (instances_of-erase name j m
          ∙ ap (λ is. if text_eq name j then is else instances_of j m)
              (nil_of (erase id (instances_of name m)) nil))
  | inr more ↦
      rw (more, remove_from) (instances_of-insert name j (erase id (instances_of name m)) m)
]

pointer_of-remove_from :
    (name id j k : Text) (m : ServiceMap)
    → pointer_of j k (remove_from name id m) ≡ (
        if text_eq name j
        then (if text_eq id k then none else pointer_of j k m)
        else pointer_of j k m)
pointer_of-remove_from name id j k m = ground (
  arith,
  instances_of-remove_from name id j m,
  lookup-erase id k (instances_of name m),
  text_eq_iff name j,
)

placed :
    (name id j k : Text) (q : ℕ) (m : ServiceMap)
    → pointer_of j k (remove_from name id m) ≡ some q
    → (pointer_of j k m ≡ some q) × (text_eq id k ≡ true → text_eq name j ≡ false)
placed name id j k q m h = ground (arith, pointer_of-remove_from name id j k m)

pub if-IsDict :
    (b : Bool) (m n : List (Text × ℕ)) → IsDict m → IsDict n → IsDict (if b then m else n)
if-IsDict true m n h k = h
if-IsDict false m n h k = k

remove_from-IsDict :
    (name id j : Text) (m : ServiceMap)
    → ((n : Text) → IsDict (instances_of n m))
    → IsDict (instances_of j (remove_from name id m))
remove_from-IsDict name id j m h = subst IsDict (sym (instances_of-remove_from name id j m)) (
    if-IsDict (text_eq name j) (erase id (instances_of name m)) (instances_of j m)
      (erase-IsDict id (instances_of name m) (h name)) (h j))

pub write-id :
    (p q : ℕ) (i : Instance) (h : ℕ → Instance) → i.id ≡ (h p).id → (write p i h q).id ≡ (h q).id
unfolding write
write-id p q i h e = ground (arith, e)

pub write-service_name :
    (p q : ℕ) (i : Instance) (h : ℕ → Instance)
    → i.service_name ≡ (h p).service_name
    → (write p i h q).service_name ≡ (h q).service_name
unfolding write
write-service_name p q i h e = ground (arith, e)

-- Writes to instances that keep their ids and the names of their services.
pub reheap-IsConsistent :
    (heap : ℕ → Instance) (d : Local)
    → ((q : ℕ) → (heap q).id ≡ (d.heap q).id)
    → ((q : ℕ) → (heap q).service_name ≡ (d.heap q).service_name)
    → IsConsistent d
    → IsConsistent (record d { heap = heap })
reheap-IsConsistent heap d same_id same_name c = record {
  once = c.once;
  once_in = c.once_in;
  held = λ id q at_id.
      let (below, its_id, its_place) = c.held id q at_id in
      (
        below,
        same_id q ∙ its_id,
        ap (λ n. pointer_of n id d.service_map) (same_name q) ∙ its_place,
      );
  mapped = λ name id q at_place.
      let (at_id, its_name) = c.mapped name id q at_place in (at_id, same_name q ∙ its_name);
}

write-IsConsistent :
    (p : ℕ) (i : Instance) (d : Local)
    → i.id ≡ (d.heap p).id
    → i.service_name ≡ (d.heap p).service_name
    → IsConsistent d
    → IsConsistent (record d { heap = write p i d.heap })
write-IsConsistent p i d same_id same_name c =
    reheap-IsConsistent (write p i d.heap) d (λ q. write-id p q i d.heap same_id)
      (λ q. write-service_name p q i d.heap same_name) c

-- The removal of an instance from both maps, under the name of its service.
pub remove_entry-IsConsistent :
    (id : Text) (p : ℕ) (d : Local)
    → lookup id d.instances ≡ some p
    → IsConsistent d
    → IsConsistent (remove_entry (d.heap p).service_name id d)
unfolding remove_entry
remove_entry-IsConsistent id p d at_p c =
    let name = (d.heap p).service_name in
    record {
      once = erase-IsDict id d.instances c.once;
      once_in = λ n. remove_from-IsDict name id n d.service_map c.once_in;
      held = λ j q at_j.
          let (kept, was) = erased id j q d.instances at_j in
          let (below, its_id, its_place) = c.held j q was in
          (
            below,
            its_id,
            ground (arith, pointer_of-remove_from name id (d.heap q).service_name j d.service_map),
          );
      mapped = λ n j q at_place.
          let (was, other) = placed name id n j q d.service_map at_place in
          let (at_q, its_name) = c.mapped n j q was in
          (
            elim (Bool-cases (text_eq id j)) [
              | inr e ↦ ground (arith, lookup-erase id j d.instances)
              | inl e ↦
                  let q_is : p ≡ q =
                    some-injective p q
                      (sym at_p ∙ ap (λ k. lookup k d.instances) (eq_of_text_eq id j e) ∙ at_q) in
                  let same : name ≡ n = ap (λ r. (d.heap r).service_name) q_is ∙ its_name in
                  absurd (true-ne-false (sym (text_eq_of name n same) ∙ other e))
            ],
            its_name,
          );
    }

-- An operation that finds no instance, or one.
pub deregister-IsConsistent :
    (id : Text) (d : Local) → IsConsistent d → IsConsistent (deregister_instance id d).0
unfolding deregister_instance
deregister-IsConsistent id d c = elim (Option-cases (lookup id d.instances)) [
  | inl q ↦ rw (q, deregister_instance) c
  | inr (p, q) ↦ rw (q, deregister_instance) (remove_entry-IsConsistent id p d q c)
]

pub update_status-IsConsistent :
    (id status : Text) (d : Local)
    → IsConsistent d
    → IsConsistent (update_instance_status id status d).0
unfolding update_instance_status
update_status-IsConsistent id status d c = elim (Option-cases (lookup id d.instances)) [
  | inl q ↦ rw (q, update_instance_status) c
  | inr (p, q) ↦
      rw (q, update_instance_status)
        (write-IsConsistent p (set_status status (d.heap p)) d refl refl c)
]

beat-id : (now : ℕ) (i : Instance) → (beat now i).id ≡ i.id
beat-id now i = ground arith

beat-service_name : (now : ℕ) (i : Instance) → (beat now i).service_name ≡ i.service_name
beat-service_name now i = ground arith

pub heartbeat-IsConsistent :
    (now : ℕ) (id : Text) (d : Local) → IsConsistent d → IsConsistent (heartbeat now id d).0
unfolding heartbeat
heartbeat-IsConsistent now id d c = elim (Option-cases (lookup id d.instances)) [
  | inl q ↦ rw (q, heartbeat) c
  | inr (p, q) ↦
      rw (q, heartbeat)
        (write-IsConsistent p (beat now (d.heap p)) d (beat-id now (d.heap p))
          (beat-service_name now (d.heap p)) c)
]
