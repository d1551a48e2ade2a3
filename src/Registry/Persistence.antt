-- ===== src/Registry/Persistence.antt =====
-- The goroutines that run `persistServices` of
-- prism/internal/features/discovery/service_registry.go: each lists the services under the lock and
-- saves the list after it, with no lock held in between.
use mathlib.Core.Path.{subst}
use abraxis.Base.{
  ℕ, ◌+◌, ◌≡◌, refl, sym, ap, Text, true, false, Option, some, List, [], ◌∷◌, ◌++◌, has_key,
  has_key-insert, has_key-erase, text_eq_iff, arith, All, ◌⊎◌, inl, inr,
}
use abraxis.Registry.Service.{
  ServiceConfig, Registry, register, deregister, list, start_persist, add_entry,
}
use abraxis.Registry.Loading.{entry_of, without, register-done, deregister-done}

-- The registry, the lists that goroutines have taken and not yet saved, and what the repository holds.
pub record World (U : Type 0) : Type 0 where
  pub registry : Registry U
  pub taken : List (List ServiceConfig)
  pub stored : List ServiceConfig

All-middle :
    {A : Type 0}
    → (P : A → Type 0) (before : List A) (x : A) (after : List A) → All P (before ++ x ∷ after)
    → P x × All P (before ++ after)
All-middle P [] x after h = h
All-middle P (y ∷ ys) x after h = let (px, rest) = All-middle P ys x after h.1 in (px, (h.0, rest))

module _ {U : Type 0} (parse : Text → Option U) where
  -- A step of a caller or of a goroutine.
  pub data Step (s t : World U) : Type 0 where
    registers :
        (c : ServiceConfig) → t ≡ record s { registry = (register parse c s.registry).0 } → Step s t
    deregisters :
        (name : Text) → t ≡ record s { registry = (deregister name s.registry).0 } → Step s t
    -- `services := sr.List()`
    lists :
        (n : ℕ)
        → s.registry.persists ≡ n + 1
        → t ≡ record s {
          registry = record s.registry { persists = n };
          taken = list s.registry ∷ s.taken;
        }
        → Step s t
    -- `sr.repository.Save(services)`
    saves :
        (before after : List (List ServiceConfig)) (services : List ServiceConfig)
        → s.taken ≡ before ++ services ∷ after
        → t ≡ record s { taken = before ++ after; stored = services }
        → Step s t
    -- an error of `Save` is printed
    fails :
        (before after : List (List ServiceConfig)) (services : List ServiceConfig)
        → s.taken ≡ before ++ services ∷ after
        → t ≡ record s { taken = before ++ after }
        → Step s t

  pub data Reach (s : World U) : World U → Type 0 where
    here : Reach s s
    next : {t u : World U} → Reach s t → Step t u → Reach s u

  abbrev pub IsSaved : {s t : World U} → Step s t → Type 0
  IsSaved (fails before after services held e) = ⊥
  IsSaved (registers c e) = Unit
  IsSaved (deregisters name e) = Unit
  IsSaved (lists n pending e) = Unit
  IsSaved (saves before after services held e) = Unit

  -- No save fails on the way.
  abbrev pub AllSaved : {s t : World U} → Reach s t → Type 0
  AllSaved here = Unit
  AllSaved (next r step) = AllSaved r × IsSaved step

  -- No goroutine has anything left to do.
  abbrev pub IsSettled : World U → Type 0
  IsSettled s = (s.registry.persists ≡ 0) × (s.taken ≡ [])

  abbrev pub settled : Registry U → List ServiceConfig → World U
  settled r stored = record { registry = r; taken = []; stored = stored }

  abbrev listed : Registry U → List (List ServiceConfig) → List ServiceConfig → World U
  listed r taken stored = record {
    registry = record r { persists = 0 };
    taken = list r ∷ taken;
    stored = stored;
  }

  persists-start :
      (r : Registry U)
      → r.has_repository ≡ true
      → r.persists ≡ 0
      → (start_persist r).persists ≡ 0 + 1
  persists-start r has idle = rw (has, idle) refl

  -- A list that is saved last can be an older one: from every registry with a repository and nothing left
  -- to save, a service can be registered and deregistered again so that, when all goroutines have ended and
  -- none of their saves has failed, the registry does not have it and the repository does. The
  -- name is new and the URL parses.
  pub stale_save :
      (r : Registry U) (stored : List ServiceConfig) (c : ServiceConfig) (url : U)
      → r.has_repository ≡ true
      → r.persists ≡ 0
      → has_key c.name r.services ≡ false
      → parse c.url ≡ some url
      → (t : World U) × (run : Reach (settled r stored) t) × AllSaved run
        × IsSettled t
        × (has_key c.name t.registry.services ≡ false)
        × (t.stored ≡ list (register parse c r).0)
  stale_save r stored c url has idle new good =
      let r1 = add_entry parse c url r in
      let r2 = record r1 { persists = 0 } in
      let r3 = without parse c.name r2 in
      let r4 = record r3 { persists = 0 } in
      let w0 = settled r stored in
      let w1 = settled r1 stored in
      let w2 = listed r1 [] stored in
      let w3 : World U = record { registry = r3; taken = list r1 ∷ []; stored = stored } in
      let w4 = listed r3 (list r1 ∷ []) stored in
      let w5 : World U = record { registry = r4; taken = list r1 ∷ []; stored = list r3 } in
      let w6 : World U = record { registry = r4; taken = []; stored = list r1 } in
      let done = register-done parse c url r new good in
      let found : has_key c.name r2.services ≡ true = ground (
        arith,
        has_key-insert c.name c.name (entry_of parse c url) r.services,
        text_eq_iff c.name c.name,
      ) in
      let s1 : Step w0 w1 = registers c (ap (λ w. settled w.0 stored) (sym done)) in
      let s2 : Step w1 w2 =
        lists 0 (persists-start (record r { services = r1.services }) has idle) refl in
      let s3 : Step w2 w3 =
        deregisters c.name
          (ap (λ w. record w2 { registry = w.0 }) (sym (deregister-done parse c.name r2 found))) in
      let s4 : Step w3 w4 =
        lists 0 (persists-start (record r2 { services = r3.services }) has refl) refl in
      let s5 : Step w4 w5 = saves [] (list r1 ∷ []) (list r3) refl refl in
      let s6 : Step w5 w6 = saves [] [] (list r1) refl refl in
      (
        w6,
        next (next (next (next (next (next here s1) s2) s3) s4) s5) s6,
        ((((((tt, tt), tt), tt), tt), tt), tt),
        (refl, refl),
        ground (arith, has_key-erase c.name c.name r2.services, text_eq_iff c.name c.name),
        ap (λ w. list w.0) (sym done),
      )

  -- The repository's first contents, or what the registry listed in some state on the way.
  abbrev IsListed : World U → List ServiceConfig → Type 0
  IsListed s services =
      (services ≡ s.stored) ⊎ ((u : World U) × Reach s u × (services ≡ list u.registry))

  abbrev IsKept : World U → World U → Type 0
  IsKept s t = IsListed s t.stored × All (IsListed s) t.taken

  step-IsKept : (s t u : World U) → Reach s t → IsKept s t → Step t u → IsKept s u
  step-IsKept s t u r k (registers c e) = subst (IsKept s) (sym e) k
  step-IsKept s t u r k (deregisters name e) = subst (IsKept s) (sym e) k
  step-IsKept s t u r k (lists n pending e) =
      subst (IsKept s) (sym e) (k.0, (inr (t, r, refl), k.1))
  step-IsKept s t u r k (saves before after services split e) =
      let rest =
        All-middle (IsListed s) before services after (subst (All (IsListed s)) split k.1) in
      subst (IsKept s) (sym e) rest
  step-IsKept s t u r k (fails before after services split e) =
      let rest =
        All-middle (IsListed s) before services after (subst (All (IsListed s)) split k.1) in
      subst (IsKept s) (sym e) (k.0, rest.1)

  reach-IsKept : (s t : World U) → s.taken ≡ [] → Reach s t → IsKept s t
  reach-IsKept s t nothing here = (inl refl, subst (All (IsListed s)) (sym nothing) tt)
  reach-IsKept s t nothing (next {t = u} r step) =
      step-IsKept s u t r (reach-IsKept s u nothing r) step

  -- However the callers and the goroutines interleave, and whichever saves fail, the repository holds
  -- its first contents or a list of the services as they were in one state that was passed through.
  stored-IsListed : (s t : World U) → s.taken ≡ [] → Reach s t → IsListed s t.stored
  stored-IsListed s t nothing r = (reach-IsKept s t nothing r).0
