-- ===== src/Registry/Loading.antt =====
-- What the registry of services holds after its operations, and after it was loaded:
-- prism/internal/features/discovery/service_registry.go.
use mathlib.Core.List.{append_assoc, append-nil}
use mathlib.Core.Option
use mathlib.Core.Path.{subst}
use abraxis.Base.{
  ◌≡◌, inl, inr, refl, sym, ap, ◌∙◌, Text, true, false, Option, none, some, List, [], ◌∷◌, ◌++◌,
  map, All, text_eq, text_eq_iff, lookup, insert, erase, has_key, IsDict, insert-IsDict,
  erase-IsDict, All-insert, All-erase, lookup-insert, lookup-erase, lookup-has_key, has_key-erase,
  if◌then◌else◌, arith, Bool-cases, Option-cases,
}
use abraxis.Registry.Service.{
  ServiceConfig, ServiceEntry, Registry, RegistryError, invalid_url, not_found, new_proxy,
  start_persist, and_then, add_entry, new_service_registry, register, register_all,
  load_from_repository, deregister, get, list, update,
}

module _ {U : Type 0} (parse : Text → Option U) where
  abbrev pub entry_of : ServiceConfig → U → ServiceEntry U
  entry_of c url = record { config = c; proxy = new_proxy c url }

  -- An entry stands under the name of its configuration, with the proxy made for it.
  abbrev IsEntry : Text × ServiceEntry U → Type 0
  IsEntry e =
      (e.0 ≡ e.1.config.name)
      × ((url : U) × (parse e.1.config.url ≡ some url) × (e.1 ≡ entry_of e.1.config url))

  abbrev pub IsValid : Registry U → Type 0
  IsValid r = IsDict r.services × All IsEntry r.services

  register-IsValid :
      (c : ServiceConfig) (r : Registry U) → IsValid r → IsValid (register parse c r).0
  unfolding register
  register-IsValid c r v = elim (Bool-cases (has_key c.name r.services)) [
    | inl known ↦ rw (known, register) v
    | inr new ↦ elim (Option-cases (parse c.url)) [
      | inl bad ↦ rw (new, bad, register) v
      | inr (url, good) ↦
          rw (new, good, register)
            (
              insert-IsDict c.name (entry_of c url) r.services v.0,
              All-insert IsEntry c.name (entry_of c url) r.services (refl, (url, good, refl)) v.1,
            )
    ]
  ]

  deregister-IsValid : (name : Text) (r : Registry U) → IsValid r → IsValid (deregister name r).0
  unfolding deregister
  deregister-IsValid name r v = elim (Bool-cases (has_key name r.services)) [
    | inl known ↦
        rw (known, deregister)
          (erase-IsDict name r.services v.0, All-erase IsEntry name r.services v.1)
    | inr new ↦ rw (new, deregister) v
  ]

  and_then-IsValid :
      (w : Registry U × Option RegistryError)
      (next : Registry U → Registry U × Option RegistryError)
      → IsValid w.0
      → ((r : Registry U) → IsValid r → IsValid (next r).0)
      → IsValid (and_then w next).0
  and_then-IsValid (r, none) next v h = h r v
  and_then-IsValid (r, some e) next v h = v

  -- Update is two calls, and each keeps every name unique and every entry under the name of its
  -- configuration with the proxy made for it.
  update-IsValid : (c : ServiceConfig) (r : Registry U) → IsValid r → IsValid (update parse c r).0
  unfolding update
  update-IsValid c r v =
      and_then-IsValid (deregister c.name r) (register parse c) (deregister-IsValid c.name r v)
        (register-IsValid c)

  -- Whatever is loaded, also where a service is refused and the rest is left out, every name is unique
  -- and every entry stands under the name of its configuration with the proxy made for it.
  pub register_all-IsValid :
      (cs : List ServiceConfig) (r : Registry U) → IsValid r → IsValid (register_all parse cs r).0
  unfolding register_all
  register_all-IsValid [] r v = v
  register_all-IsValid (c ∷ cs) r v =
      and_then-IsValid (register parse c r) (register_all parse cs) (register-IsValid c r v)
        (register_all-IsValid cs)

  pub register-done :
      (c : ServiceConfig) (url : U) (r : Registry U)
      → has_key c.name r.services ≡ false
      → parse c.url ≡ some url
      → register parse c r ≡ (add_entry parse c url r, none)
  unfolding register
  register-done c url r new good = rw (new, good, register) refl

  register-bad :
      (c : ServiceConfig) (r : Registry U)
      → has_key c.name r.services ≡ false
      → parse c.url ≡ none
      → register parse c r ≡ (r, some invalid_url)
  unfolding register
  register-bad c r new bad = rw (new, bad, register) refl

  abbrev pub without : Text → Registry U → Registry U
  without name r = start_persist (record r { services = erase name r.services })

  pub deregister-done :
      (name : Text) (r : Registry U)
      → has_key name r.services ≡ true
      → deregister name r ≡ (without name r, none)
  unfolding deregister
  deregister-done name r known = rw (known, deregister) refl

  deregister-unknown :
      (name : Text) (r : Registry U)
      → has_key name r.services ≡ false
      → deregister name r ≡ (r, some not_found)
  unfolding deregister
  deregister-unknown name r new = rw (new, deregister) refl

  update-known :
      (c : ServiceConfig) (r : Registry U)
      → has_key c.name r.services ≡ true
      → update parse c r ≡ register parse c (without c.name r)
  unfolding update
  update-known c r known = ap (λ w. and_then w (register parse c)) (deregister-done c.name r known)

  update-unknown :
      (c : ServiceConfig) (r : Registry U)
      → has_key c.name r.services ≡ false
      → update parse c r ≡ (r, some not_found)
  unfolding update
  update-unknown c r new = ap (λ w. and_then w (register parse c)) (deregister-unknown c.name r new)

  -- What Get finds under each name after Update: under another name what was there; under its own the
  -- new configuration with its proxy, if the name was registered and the URL parses, and else nothing.
  -- So an update with a URL that does not parse removes the service.
  pub get-update :
      (c : ServiceConfig) (r : Registry U) (j : Text)
      → get j (update parse c r).0 ≡ (
          if text_eq c.name j
          then (if has_key c.name r.services then Option.map (entry_of c) (parse c.url) else none)
          else get j r)
  unfolding get
  get-update c r j = elim (Bool-cases (has_key c.name r.services)) [
    | inl known ↦
        let gone : has_key c.name (erase c.name r.services) ≡ false =
          ground (arith, has_key-erase c.name c.name r.services, text_eq_iff c.name c.name) in
        elim (Option-cases (parse c.url)) [
          | inl bad ↦
              let same = update-known c r known ∙ register-bad c (without c.name r) gone bad in
              ap (λ w. lookup j w.0.services) same
              ∙ rw (known, bad) (lookup-erase c.name j r.services)
          | inr (url, good) ↦
              let same =
                update-known c r known ∙ register-done c url (without c.name r) gone good in
              ap (λ w. lookup j w.0.services) same
              ∙ rw (known, good)
                  (ground (
                    arith,
                    lookup-insert c.name j (entry_of c url) (erase c.name r.services),
                    lookup-erase c.name j r.services,
                  ))
        ]
    | inr new ↦
        ap (λ w. lookup j w.0.services) (update-unknown c r new)
        ∙ rw new (ground (arith, text_eq_iff c.name j, lookup-has_key c.name r.services new))
  ]

  insert_absent :
      (k : Text) (v : ServiceEntry U) (m : List (Text × ServiceEntry U))
      → has_key k m ≡ false
      → insert k v m ≡ m ++ (k, v) ∷ []
  unfolding insert has_key
  insert_absent k v [] h = refl
  insert_absent k v ((i, w) ∷ m) h = ground (arith, insert_absent k v m)

  has_key-append :
      (k : Text) (m n : List (Text × ServiceEntry U))
      → has_key k (m ++ n) ≡ (if has_key k m then true else has_key k n)
  unfolding has_key
  has_key-append k [] n = refl
  has_key-append k ((i, w) ∷ m) n = ground (arith, has_key-append k m n)

  has_key-middle :
      (done : List (Text × ServiceEntry U)) (k : Text) (v : ServiceEntry U)
      (todo : List (Text × ServiceEntry U))
      → IsDict (done ++ (k, v) ∷ todo)
      → has_key k done ≡ false
  unfolding has_key
  has_key-middle [] k v todo d = refl
  has_key-middle ((i, w) ∷ done) k v todo d = ground (
    arith,
    has_key-append i done ((k, v) ∷ todo),
    d.0,
    has_key-middle done k v todo d.1,
    text_eq_iff i k,
    text_eq_iff k i,
  )

  insert_entry :
      (done : List (Text × ServiceEntry U)) (k : Text) (v : ServiceEntry U) (url : U)
      (r : Registry U)
      → r.services ≡ done
      → has_key k done ≡ false
      → k ≡ v.config.name
      → v ≡ entry_of v.config url
      → (add_entry parse v.config url r).services ≡ done ++ (k, v) ∷ []
  insert_entry done k v url r same absent named is_entry =
      ap (λ m. insert v.config.name (entry_of v.config url) m) same
      ∙ ap (λ n. insert n (entry_of v.config url) done) (sym named)
      ∙ ap (λ w. insert k w done) (sym is_entry)
      ∙ insert_absent k v done absent

  load_rest :
      (done todo : List (Text × ServiceEntry U)) (r : Registry U)
      → r.services ≡ done
      → IsDict (done ++ todo)
      → All IsEntry todo
      → ((register_all parse (map (λ e. e.1.config) todo) r).0.services ≡ done ++ todo)
        × ((register_all parse (map (λ e. e.1.config) todo) r).1 ≡ none)
  unfolding register_all
  load_rest done [] r same d good = (same ∙ sym (append-nil done), refl)
  load_rest done ((k, v) ∷ todo) r same d good =
      let (named, made) = good.0 in
      let (url, parsed, is_entry) = made in
      let absent = has_key-middle done k v todo d in
      let new : has_key v.config.name r.services ≡ false =
        ap (λ n. has_key n r.services) (sym named) ∙ ap (has_key k) same ∙ absent in
      let step =
        ap (λ w. and_then w (register_all parse (map (λ e. e.1.config) todo)))
          (register-done v.config url r new parsed) in
      let moved = append_assoc done ((k, v) ∷ []) todo in
      let (all, ok) =
        load_rest (done ++ (k, v) ∷ []) todo (add_entry parse v.config url r)
          (insert_entry done k v url r same absent named is_entry) (subst IsDict (sym moved) d)
          good.1 in
      (ap (λ w. w.0.services) step ∙ all ∙ moved, ap (λ w. w.1) step ∙ ok)

  -- What persistServices saves, LoadFromRepository brings back: from the list of a valid registry a
  -- new registry gets the same services, with the same proxies, and no error.
  pub load_from_repository-list :
      (r : Registry U)
      → IsValid r
      → ((load_from_repository parse (some (list r)) (new_service_registry true)).0.services
          ≡ r.services)
        × ((load_from_repository parse (some (list r)) (new_service_registry true)).1 ≡ none)
  unfolding load_from_repository new_service_registry list
  load_from_repository-list r v = load_rest [] r.services (new_service_registry true) refl v.0 v.1
