-- ===== src/Limits/Index.antt =====
-- The two maps of RateLimitService, under what creates, updates and deletes a limit:
-- prism/internal/features/ratelimit/service_rate_limit.go.
use mathlib.Core.Path.{subst}
use mathlib.Core.Option.{some-injective}
use abraxis.Base.{
  ℕ, ◌≡◌, ◌⊎◌, inl, inr, refl, sym, ap, ◌∙◌, Text, Bool, true, false, none, some, List, ◌≢◌,
  lookup-insert_self, lookup-insert_ne, text_eq, text_eq_iff, eq_of_text_eq, lookup, insert, erase,
  lookup-erase, arith, Bool-cases, Option-cases,
}
use abraxis.Limits.Service.{
  algorithm_adaptive, Limit, Service, LimitError, Result, ok, err, make_cache_key, CreateParams,
  check_create, made, index, new_rate_limit_service, create_rate_limit, delete_rate_limit,
}
use abraxis.Limits.Update.{signal_if, UpdateParams, write_update, update_rate_limit}
use abraxis.Limits.Creation.{check_create-IsSound}
use abraxis.Limits.Changes.{HasNames, HasBurst, write_update-HasNames, write_update-HasBurst}

abbrev pub key_of : {F : Type 0} → Limit F → Text
key_of c = make_cache_key c.type c.target

-- Every key points to a limit that is held, under its own key and id, and whose burst is positive.
pub record IsIndexed {F : Type 0} (s : Service F) : Type 0 where
  pub pointed :
      (key id : Text)
      → lookup key s.configs ≡ some id
      → (c : Limit F) × (lookup id s.configs_by_id ≡ some c) × (key_of c ≡ key)
  pub held :
      (id : Text) (c : Limit F) → lookup id s.configs_by_id ≡ some c → (c.id ≡ id) × HasBurst c

erased :
    {A : Type 0}
    → (k j : Text) (a : A) (m : List (Text × A)) → lookup j (erase k m) ≡ some a
    → (text_eq k j ≡ false) × (lookup j m ≡ some a)
erased k j a m h = ground (arith, lookup-erase k j m)

pub none-ne-some : {A : Type 0} → (a : A) → none ≢ some a
none-ne-some a = λ h. cc

true-ne-false : true ≢ false
true-ne-false = λ h. cc

text_eq_of : (a b : Text) → a ≡ b → text_eq a b ≡ true
text_eq_of a b h = ground (arith, text_eq_iff a b)

-- A limit that is held is replaced by one of the same names with a positive burst.
pub rewrite-IsIndexed :
    {F : Type 0}
    → (id : Text) (c c' : Limit F) (s : Service F) → IsIndexed s
    → lookup id s.configs_by_id ≡ some c
    → HasNames c c'
    → HasBurst c'
    → IsIndexed (record s { configs_by_id = insert id c' s.configs_by_id })
rewrite-IsIndexed id c c' s ix h n r = record {
  pointed = λ key j at_key.
      let (d, d_held, d_key) = ix.pointed key j at_key in
      elim (Bool-cases (text_eq id j)) [
        | inl e ↦
            let same = eq_of_text_eq id j e in
            let d_is : c ≡ d =
              some-injective c d (sym h ∙ ap (λ k. lookup k s.configs_by_id) same ∙ d_held) in
            (
              c',
              ap (λ k. lookup k (insert id c' s.configs_by_id)) (sym same)
                  ∙ lookup-insert_self id c' s.configs_by_id,
              cc (n.1, n.2, ap key_of d_is, d_key),
            )
        | inr e ↦ (d, lookup-insert_ne id j c' s.configs_by_id e ∙ d_held, d_key)
      ];
  held = λ j d d_held. elim (Bool-cases (text_eq id j)) [
    | inl e ↦
        let same = eq_of_text_eq id j e in
        let d_is : c' ≡ d = some-injective c' d (
          sym (lookup-insert_self id c' s.configs_by_id)
          ∙ ap (λ k. lookup k (insert id c' s.configs_by_id)) same
          ∙ d_held) in
        (sym (ap (λ x. x.id) d_is) ∙ n.0 ∙ (ix.held id c h).0 ∙ same, subst HasBurst d_is r)
    | inr e ↦ ix.held j d (sym (lookup-insert_ne id j c' s.configs_by_id e) ∙ d_held)
  ];
}

-- A limit under a new id.
add-IsIndexed :
    {F : Type 0}
    → (c : Limit F) (s : Service F) → IsIndexed s
    → lookup c.id s.configs_by_id ≡ none
    → HasBurst c
    → IsIndexed (record s { configs_by_id = insert c.id c s.configs_by_id })
add-IsIndexed c s ix fresh r = record {
  pointed = λ key j at_key.
      let (d, d_held, d_key) = ix.pointed key j at_key in
      elim (Bool-cases (text_eq c.id j)) [
        | inl e ↦ absurd (
            none-ne-some d
              (sym fresh ∙ ap (λ k. lookup k s.configs_by_id) (eq_of_text_eq c.id j e) ∙ d_held))
        | inr e ↦ (d, lookup-insert_ne c.id j c s.configs_by_id e ∙ d_held, d_key)
      ];
  held = λ j d d_held. elim (Bool-cases (text_eq c.id j)) [
    | inl e ↦
        let same = eq_of_text_eq c.id j e in
        let d_is : c ≡ d = some-injective c d (
          sym (lookup-insert_self c.id c s.configs_by_id)
          ∙ ap (λ k. lookup k (insert c.id c s.configs_by_id)) same
          ∙ d_held) in
        (sym (ap (λ x. x.id) d_is) ∙ same, subst HasBurst d_is r)
    | inr e ↦ ix.held j d (sym (lookup-insert_ne c.id j c s.configs_by_id e) ∙ d_held)
  ];
}

-- The key of a limit that is held is pointed to it.
point-IsIndexed :
    {F : Type 0}
    → (c : Limit F) (s : Service F) → IsIndexed s
    → lookup c.id s.configs_by_id ≡ some c
    → IsIndexed (record s { configs = insert (key_of c) c.id s.configs })
point-IsIndexed c s ix h = record {
  pointed = λ key j at_key. elim (Bool-cases (text_eq (key_of c) key)) [
    | inl e ↦
        let same = eq_of_text_eq (key_of c) key e in
        let id_is : c.id ≡ j = some-injective c.id j (
          sym (lookup-insert_self (key_of c) c.id s.configs)
          ∙ ap (λ k. lookup k (insert (key_of c) c.id s.configs)) same
          ∙ at_key) in
        (c, ap (λ k. lookup k s.configs_by_id) (sym id_is) ∙ h, same)
    | inr e ↦ ix.pointed key j (sym (lookup-insert_ne (key_of c) key c.id s.configs e) ∙ at_key)
  ];
  held = ix.held;
}

erase-IsIndexed :
    {F : Type 0}
    → (id : Text) (c : Limit F) (s : Service F) → IsIndexed s
    → lookup id s.configs_by_id ≡ some c
    → IsIndexed (record s {
      configs = erase (key_of c) s.configs;
      configs_by_id = erase id s.configs_by_id;
    })
erase-IsIndexed id c s ix h = record {
  pointed = λ key j at_key.
      let kept = erased (key_of c) key j s.configs at_key in
      let (d, d_held, d_key) = ix.pointed key j kept.1 in
      elim (Bool-cases (text_eq id j)) [
        | inl e ↦
            let d_is : c ≡ d =
              some-injective c d
                (sym h ∙ ap (λ k. lookup k s.configs_by_id) (eq_of_text_eq id j e) ∙ d_held) in
            absurd
              (true-ne-false (sym (text_eq_of (key_of c) key (ap key_of d_is ∙ d_key)) ∙ kept.0))
        | inr e ↦ (d, ground (arith, lookup-erase id j s.configs_by_id), d_key)
      ];
  held = λ j d d_held. ix.held j d (erased id j d s.configs_by_id d_held).1;
}

-- An update that is accepted.
accept-IsIndexed :
    {F : Type 0}
    → (id : Text) (c c' : Limit F) (s : Service F) → IsIndexed s
    → lookup id s.configs_by_id ≡ some c
    → HasNames c c'
    → HasBurst c'
    → IsIndexed (index c' s)
accept-IsIndexed id c c' s ix h n r =
    let same : c'.id ≡ id = n.0 ∙ (ix.held id c h).0 in
    let here = ap (λ k. lookup k s.configs_by_id) same ∙ h in
    point-IsIndexed c' _ (rewrite-IsIndexed c'.id c c' s ix here n r)
      (lookup-insert_self c'.id c' s.configs_by_id)

pub signal_if-IsIndexed :
    {F : Type 0}
    → (adaptive : Bool) (s : Service F) → IsIndexed s
    → IsIndexed (signal_if adaptive s)
signal_if-IsIndexed adaptive s ix = record { pointed = ix.pointed; held = ix.held }

Result-cases :
    {A : Type 0} → (r : Result A) → ((e : LimitError) × (r ≡ err e)) ⊎ ((a : A) × (r ≡ ok a))
Result-cases (err e) = inl (e, refl)
Result-cases (ok a) = inr (a, refl)

pub create-IsIndexed :
    {F : Type 0}
    → (id : Text) (now : ℕ) (middle : F) (p : CreateParams) (s : Service F)
    → lookup id s.configs_by_id ≡ none
    → IsIndexed s
    → IsIndexed (create_rate_limit id now middle p s).0
unfolding create_rate_limit
create-IsIndexed id now middle p s fresh ix = elim (Result-cases (check_create p)) [
  | inl (e, q) ↦ rw (q, create_rate_limit) ix
  | inr (a, q) ↦
      let c = made id now middle a in
      let sound = check_create-IsSound id now middle p a q in
      rw (q, create_rate_limit)
        (point-IsIndexed c _ (add-IsIndexed c s ix fresh sound.1)
          (lookup-insert_self id c s.configs_by_id))
]

pub update-IsIndexed :
    {F : Type 0}
    → (id : Text) (now : ℕ) (p : UpdateParams) (s : Service F) → IsIndexed s
    → IsIndexed (update_rate_limit id now p s).0
unfolding update_rate_limit
update-IsIndexed id now p s ix = elim (Option-cases (lookup id s.configs_by_id)) [
  | inl q ↦ rw (q, update_rate_limit) ix
  | inr (c, q) ↦
      let written = (write_update p c).0 in
      let names = write_update-HasNames p c in
      let burst = write_update-HasBurst p c (ix.held id c q).1 in
      elim (Option-cases (write_update p c).1) [
        | inl done ↦
            rw (q, done, update_rate_limit)
              (signal_if-IsIndexed (text_eq written.strategy algorithm_adaptive) _
                (accept-IsIndexed id c (record written { updated_at = now }) s ix q names burst))
        | inr (e, failed) ↦
            rw (q, failed, update_rate_limit) (rewrite-IsIndexed id c written s ix q names burst)
      ]
]

pub delete-IsIndexed :
    {F : Type 0} → (id : Text) (s : Service F) → IsIndexed s → IsIndexed (delete_rate_limit id s).0
unfolding delete_rate_limit
delete-IsIndexed id s ix = elim (Option-cases (lookup id s.configs_by_id)) [
  | inl q ↦ rw (q, delete_rate_limit) ix
  | inr (c, q) ↦ rw (q, delete_rate_limit) (erase-IsIndexed id c s ix q)
]

pub new_rate_limit_service-IsIndexed : {F : Type 0} → IsIndexed {F = F} new_rate_limit_service
unfolding new_rate_limit_service lookup
new_rate_limit_service-IsIndexed = record {
  pointed = λ key id h. absurd (none-ne-some id h);
  held = λ id c h. absurd (none-ne-some c h);
}
