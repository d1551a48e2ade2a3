-- ===== src/Discovery/Registration.antt =====
-- RegisterInstance and the two maps of LocalDiscovery:
-- prism/internal/features/discovery/adapters/provider/local.go.
use mathlib.Core.Path.{subst}
use mathlib.Core.Option.{some-injective}
use abraxis.Base.{
  ℕ, ◌+◌, ◌<◌, ◌≡◌, inl, inr, sym, ap, ◌∙◌, Text, true, false, ◌&&◌, some, text_eq, text_eq_iff,
  eq_of_text_eq, lookup, insert, lookup-insert, lookup-insert_self, lookup-insert_ne, IsDict,
  insert-IsDict, if◌then◌else◌, arith, Bool-cases,
}
use abraxis.Discovery.Local.{
  Instance, ServiceMap, Local, write, registered, instances_of, register_instance,
}
use abraxis.Discovery.Index.{
  pointer_of, IsConsistent, instances_of-insert, true-ne-false, text_eq_of, if-IsDict,
}

-- An instance is registered under an id that is new, or that has the same service.
abbrev pub KeepsService : Instance → Local → Type 0
KeepsService i d =
    (p : ℕ) → lookup i.id d.instances ≡ some p → (d.heap p).service_name ≡ i.service_name

write_self : (p : ℕ) (i : Instance) (h : ℕ → Instance) → write p i h p ≡ i
unfolding write
write_self p i h = ground arith

write_old : (p q : ℕ) (i : Instance) (h : ℕ → Instance) → q < p → write p i h q ≡ h q
unfolding write
write_old p q i h b = ground arith

abbrev place : Instance → ℕ → ServiceMap → ServiceMap
place i p m = insert i.service_name (insert i.id p (instances_of i.service_name m)) m

place-IsDict :
    (i : Instance) (j : Text) (p : ℕ) (m : ServiceMap)
    → ((n : Text) → IsDict (instances_of n m))
    → IsDict (instances_of j (place i p m))
place-IsDict i j p m h =
    subst IsDict
      (sym (instances_of-insert i.service_name j (insert i.id p (instances_of i.service_name m)) m))
      (if-IsDict (text_eq i.service_name j) (insert i.id p (instances_of i.service_name m))
        (instances_of j m) (insert-IsDict i.id p (instances_of i.service_name m) (h i.service_name))
        (h j))

pointer_of-place :
    (i : Instance) (n id : Text) (p : ℕ) (m : ServiceMap)
    → pointer_of n id (place i p m)
      ≡ (if text_eq i.service_name n && text_eq i.id id then some p else pointer_of n id m)
pointer_of-place i n id p m = ground (
  arith,
  instances_of-insert i.service_name n (insert i.id p (instances_of i.service_name m)) m,
  lookup-insert i.id id p (instances_of i.service_name m),
  text_eq_iff i.service_name n,
)

placed_other :
    (i : Instance) (id n : Text) (p : ℕ) (m : ServiceMap)
    → text_eq i.id id ≡ false
    → pointer_of n id (place i p m) ≡ pointer_of n id m
placed_other i id n p m e = ground (arith, pointer_of-place i n id p m)

register-held_new :
    (now : ℕ) (i : Instance) (d : Local) (id : Text) (q : ℕ)
    → text_eq i.id id ≡ true
    → lookup id (insert i.id d.next d.instances) ≡ some q
    → (q < d.next + 1)
      × ((write d.next (registered now i) d.heap q).id ≡ id)
      × (pointer_of
            (write d.next (registered now i) d.heap q).service_name
            id
            (place i d.next d.service_map)
          ≡ some q)
register-held_new now i d id q e at_q =
    let same = eq_of_text_eq i.id id e in
    let q_is : d.next ≡ q = some-injective d.next q (
      sym (lookup-insert_self i.id d.next d.instances)
      ∙ ap (λ k. lookup k (insert i.id d.next d.instances)) same
      ∙ at_q) in
    let new : write d.next (registered now i) d.heap q ≡ registered now i =
      ap (λ r. write d.next (registered now i) d.heap r) (sym q_is)
      ∙ write_self d.next (registered now i) d.heap in
    (
      omega arith,
      ap (λ x. x.id) new ∙ same,
      ap (λ x. pointer_of x.service_name id (place i d.next d.service_map)) new
          ∙ ground (
            arith,
            pointer_of-place i i.service_name id d.next d.service_map,
            text_eq_iff i.service_name i.service_name,
          ),
    )

register-mapped_new :
    (now : ℕ) (i : Instance) (d : Local) (n id : Text) (q : ℕ)
    → (text_eq i.service_name n && text_eq i.id id) ≡ true
    → pointer_of n id (place i d.next d.service_map) ≡ some q
    → (lookup id (insert i.id d.next d.instances) ≡ some q)
      × ((write d.next (registered now i) d.heap q).service_name ≡ n)
register-mapped_new now i d n id q e at_q =
    let q_is : d.next ≡ q =
      some-injective d.next q
        (rw e at (sym (pointer_of-place i n id d.next d.service_map) ∙ at_q)) in
    let new : write d.next (registered now i) d.heap q ≡ registered now i =
      ap (λ r. write d.next (registered now i) d.heap r) (sym q_is)
      ∙ write_self d.next (registered now i) d.heap in
    (
      ground (arith, lookup-insert i.id id d.next d.instances),
      ap (λ x. x.service_name) new ∙ eq_of_text_eq i.service_name n (ground arith),
    )

kept_at :
    (i : Instance) (d : Local) (n id : Text) (q : ℕ)
    → KeepsService i d
    → lookup id d.instances ≡ some q
    → (d.heap q).service_name ≡ n
    → (text_eq i.service_name n && text_eq i.id id) ≡ false
    → lookup id (insert i.id d.next d.instances) ≡ some q
kept_at i d n id q keeps at_id its_name e = elim (Bool-cases (text_eq i.id id)) [
  | inr f ↦ lookup-insert_ne i.id id d.next d.instances f ∙ at_id
  | inl f ↦
      let here = ap (λ k. lookup k d.instances) (eq_of_text_eq i.id id f) ∙ at_id in
      let same = sym (keeps q here) ∙ its_name in
      absurd (true-ne-false (sym (text_eq_of i.service_name n same) ∙ ground arith))
]

pub register-IsConsistent :
    (now : ℕ) (i : Instance) (d : Local)
    → KeepsService i d
    → IsConsistent d
    → IsConsistent (register_instance now i d).0
unfolding register_instance
register-IsConsistent now i d keeps c = record {
  once = insert-IsDict i.id d.next d.instances c.once;
  once_in = λ n. place-IsDict i n d.next d.service_map c.once_in;
  held = λ id q at_q. elim (Bool-cases (text_eq i.id id)) [
    | inl e ↦ register-held_new now i d id q e at_q
    | inr e ↦
        let was = sym (lookup-insert_ne i.id id d.next d.instances e) ∙ at_q in
        let (below, its_id, its_place) = c.held id q was in
        let same = write_old d.next q (registered now i) d.heap below in
        (
          omega arith,
          ap (λ x. x.id) same ∙ its_id,
          ap (λ x. pointer_of x.service_name id (place i d.next d.service_map)) same
              ∙ placed_other i id (d.heap q).service_name d.next d.service_map e
              ∙ its_place,
        )
  ];
  mapped = λ n id q at_q. elim (Bool-cases (text_eq i.service_name n && text_eq i.id id)) [
    | inl e ↦ register-mapped_new now i d n id q e at_q
    | inr e ↦
        let was = sym (pointer_of-place i n id d.next d.service_map) ∙ at_q in
        let (at_id, its_name) = c.mapped n id q (rw e at was) in
        let (below, its_id, its_place) = c.held id q at_id in
        (
          kept_at i d n id q keeps at_id its_name e,
          ap (λ x. x.service_name) (write_old d.next q (registered now i) d.heap below) ∙ its_name,
        )
  ];
}
