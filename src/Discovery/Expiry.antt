-- ===== src/Discovery/Expiry.antt =====
-- Which instances checkExpiredInstances marks and removes:
-- prism/internal/features/discovery/adapters/provider/local.go.

use mathlib.Core.Option.{some-injective}
use abraxis.Base.{
  ℕ, ◌<◌, ◌-◌, ◌≡◌, ◌⊎◌, inl, inr, refl, sym, ap, ◌∙◌, Text, Bool, true, false, none, some, List,
  [], ◌∷◌, text_eq, text_eq_iff, eq_of_text_eq, lookup, has_key, IsDict, lookup-erase,
  if◌then◌else◌, arith, Option-cases, All,
}
use abraxis.Discovery.Local.{
  Instance, Local, Config, active, inactive, remove_entry, is_late, is_gone, sweep, remove_all,
  check_expired_instances, get_instance,
}
use abraxis.Discovery.Index.{IsConsistent, reheap-IsConsistent, remove_entry-IsConsistent}
use abraxis.Discovery.Sweep.{
  sweep-id, sweep-service_name, judged, NotAt, IsUnique, among, sweep_at, removed_at,
}
use abraxis.Discovery.Entries.{ids_of}

module _ (c : Config) (now : ℕ) where
  removed-lookup :
      (ids : List Text) (id : Text) (d : Local)
      → lookup id (remove_all ids d).instances
        ≡ (if among c now id ids then none else lookup id d.instances)
  unfolding remove_all among remove_entry
  removed-lookup [] id d = refl
  removed-lookup (j ∷ ids) id d = elim (Option-cases (lookup j d.instances)) [
    | inl q ↦ rw (q, remove_all) (ground (arith, removed-lookup ids id d, text_eq_iff j id, q))
    | inr (p, q) ↦
        rw (q, remove_all)
          (ground (
            arith,
            removed-lookup ids id (remove_entry (d.heap p).service_name j d),
            lookup-erase j id d.instances,
          ))
  ]

  remove_all-heap : (ids : List Text) (d : Local) → (remove_all ids d).heap ≡ d.heap
  unfolding remove_all remove_entry
  remove_all-heap [] d = refl
  remove_all-heap (j ∷ ids) d = elim (Option-cases (lookup j d.instances)) [
    | inl q ↦ rw (q, remove_all) (remove_all-heap ids d)
    | inr (p, q) ↦
        rw (q, remove_all) (remove_all-heap ids (remove_entry (d.heap p).service_name j d))
  ]

  remove_all-IsConsistent :
      (ids : List Text) (d : Local) → IsConsistent d → IsConsistent (remove_all ids d)
  unfolding remove_all
  remove_all-IsConsistent [] d k = k
  remove_all-IsConsistent (j ∷ ids) d k = elim (Option-cases (lookup j d.instances)) [
    | inl q ↦ rw (q, remove_all) (remove_all-IsConsistent ids d k)
    | inr (p, q) ↦
        rw (q, remove_all)
          (remove_all-IsConsistent ids (remove_entry (d.heap p).service_name j d)
            (remove_entry-IsConsistent j p d q k))
  ]

  pub check_expired-IsConsistent :
      (d : Local) → IsConsistent d → IsConsistent (check_expired_instances c now d).0
  unfolding check_expired_instances
  check_expired-IsConsistent d k =
      let s = sweep c now d.instances d.heap in
      remove_all-IsConsistent s.to_remove (record d { heap = s.heap })
        (reheap-IsConsistent s.heap d (sweep-id c now d.instances d.heap)
          (sweep-service_name c now d.instances d.heap) k)

  apart :
      (heap : ℕ → Instance) (k : Text) (p : ℕ) (m : List (Text × ℕ))
      → (heap p).id ≡ k
      → has_key k m ≡ false
      → All (λ e. (heap e.1).id ≡ e.0) m
      → NotAt c now p m
  unfolding has_key
  apart heap k p [] e n a = tt
  apart heap k p ((j, q) ∷ m) e n a =
      (ground (arith, text_eq_iff j k, a.0, e, n), apart heap k p m e (ground arith) a.1)

  entries-IsUnique :
      (heap : ℕ → Instance) (m : List (Text × ℕ))
      → IsDict m
      → All (λ e. (heap e.1).id ≡ e.0) m
      → IsUnique c now m
  entries-IsUnique heap [] d a = tt
  entries-IsUnique heap ((k, p) ∷ m) d a =
      (apart heap k p m a.0 d.0 a.1, entries-IsUnique heap m d.1 a.1)

  -- One round: a consistent registration is removed exactly if its instance is INACTIVE and past the
  -- deregistration timeout; if it is ACTIVE and past the heartbeat timeout, it becomes INACTIVE; every
  -- other one stays as it is, so one of any other status stays for ever.
  check_expired-judged :
      (d : Local) (id : Text) (p : ℕ)
      → IsConsistent d
      → lookup id d.instances ≡ some p
      → (lookup id (check_expired_instances c now d).0.instances ≡ (
          if (if is_late c now (d.heap p) then false else is_gone c now (d.heap p))
          then none
          else some p))
        × ((check_expired_instances c now d).0.heap p ≡ judged c now (d.heap p))
  unfolding check_expired_instances
  check_expired-judged d id p k e =
      let s = sweep c now d.instances d.heap in
      let unique =
        entries-IsUnique d.heap d.instances k.once
          (ids_of d.heap d.instances k.once (λ j q at_q. (k.held j q at_q).1)) in
      (
        removed-lookup s.to_remove id (record d { heap = s.heap })
            ∙ ap (λ b. if b then none else lookup id d.instances)
                (removed_at c now id p d.instances d.heap k.once unique e)
            ∙ ap
                (λ o.
                  if (if is_late c now (d.heap p) then false else is_gone c now (d.heap p))
                  then none
                  else o)
                e,
        ap (λ h. h p) (remove_all-heap s.to_remove (record d { heap = s.heap }))
            ∙ sweep_at c now id p d.instances d.heap unique e,
      )

  check_expired-none :
      (d : Local) (id : Text)
      → lookup id d.instances ≡ none
      → lookup id (check_expired_instances c now d).0.instances ≡ none
  unfolding check_expired_instances
  check_expired-none d id e =
      let s = sweep c now d.instances d.heap in
      ground (arith, removed-lookup s.to_remove id (record d { heap = s.heap }), e)

get_instance-lookup :
    (id : Text) (d : Local) → lookup id d.instances ≡ none → get_instance id d ≡ none
unfolding get_instance
get_instance-lookup id d e = rw (e, get_instance) refl

get_instance_at :
    (id : Text) (d : Local) (i : Instance)
    → get_instance id d ≡ some i
    → (p : ℕ) × (lookup id d.instances ≡ some p) × (d.heap p ≡ i)
unfolding get_instance
get_instance_at id d i e = elim (Option-cases (lookup id d.instances)) [
  | inl q ↦ cc (rw (q, get_instance) at e)
  | inr (p, q) ↦ (p, q, some-injective (d.heap p) i (rw (q, get_instance) at e))
]

inactive-active :
    (i : Instance) → text_eq i.status inactive ≡ true → text_eq i.status active ≡ false
unfolding text_eq
inactive-active i e = ap (λ t. text_eq t active) (eq_of_text_eq i.status inactive e)

abbrev is_removed : (c : Config) (now : ℕ) → Instance → Bool
is_removed c now i = if is_late c now i then false else is_gone c now i

removed_inactive :
    (c : Config) (now : ℕ) (i : Instance)
    → text_eq i.status inactive ≡ true
    → c.deregister_timeout < now - i.last_heartbeat
    → is_removed c now i ≡ true
unfolding is_late is_gone
removed_inactive c now i e gone = ground (arith, inactive-active i e)

kept_at : (b : Bool) (p r : ℕ) → (if b then none else some p) ≡ some r → (b ≡ false) × (p ≡ r)
kept_at true p r e = cc
kept_at false p r e = (refl, some-injective p r e)

-- What the first round leaves of a silent instance, if it does not remove it.
judged_silent :
    (c : Config) (now : ℕ) (i : Instance)
    → (text_eq i.status active ≡ true) ⊎ (text_eq i.status inactive ≡ true)
    → c.heartbeat_timeout < now - i.last_heartbeat
    → is_removed c now i ≡ false
    → (text_eq (judged c now i).status inactive ≡ true)
      × ((judged c now i).last_heartbeat ≡ i.last_heartbeat)
unfolding is_late is_gone text_eq
judged_silent c now i (inl on) late stays = ground (arith, on)
judged_silent c now i (inr off) late stays = ground (arith, off, inactive-active i off)

-- An instance that is ACTIVE or INACTIVE and sends no heartbeat goes: after a round that is past its
-- heartbeat timeout and a later one that is past its deregistration timeout it is not found.
pub silent-get_instance :
    (c : Config) (first second : ℕ) (d : Local) (id : Text) (i : Instance)
    → IsConsistent d
    → get_instance id d ≡ some i
    → (text_eq i.status active ≡ true) ⊎ (text_eq i.status inactive ≡ true)
    → c.heartbeat_timeout < first - i.last_heartbeat
    → c.deregister_timeout < second - i.last_heartbeat
    → get_instance id (check_expired_instances c second (check_expired_instances c first d).0).0
      ≡ none
silent-get_instance c first second d id i k found status late gone =
    let (p, at_p, is_i) = get_instance_at id d i found in
    let after = (check_expired_instances c first d).0 in
    let (kept, marked) = check_expired-judged c first d id p k at_p in
    get_instance-lookup id (check_expired_instances c second after).0
      (elim (Option-cases (lookup id after.instances)) [
        | inl q ↦ check_expired-none c second after id q
        | inr (r, q) ↦
            let (stays, same) = kept_at (is_removed c first (d.heap p)) p r (sym kept ∙ q) in
            let stays_i : is_removed c first i ≡ false =
              ap (is_removed c first) (sym is_i) ∙ stays in
            let (off, beat) = judged_silent c first i status late stays_i in
            let now_i : after.heap r ≡ judged c first i =
              ap after.heap (sym same) ∙ marked ∙ ap (judged c first) is_i in
            let gone_r = ap (λ t. second - t) (ap (λ x. x.last_heartbeat) now_i ∙ beat) in
            (check_expired-judged c second after id r (check_expired-IsConsistent c first d k) q).0
            ∙ ap (λ b. if b then none else some r)
                (removed_inactive c second (after.heap r)
                  (ap (λ x. text_eq x.status inactive) now_i ∙ off) (rw gone_r gone))
      ])
