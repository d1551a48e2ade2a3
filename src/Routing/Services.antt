-- ===== src/Routing/Services.antt =====
-- `RemoveServiceRoutes` and the listings of routes of routing.go.
use mathlib.Core.List.{Perm, perm_middle, perm_append_comm, append_assoc}
use mathlib.Core.List.Perm
use abraxis.Base.{
  List-cases, Text, text_eq, eq_of_text_eq, Bool, true, false, not, ◌≡◌, refl, ap, inl, inr, List,
  [], ◌∷◌, ◌++◌, map, keep_if, lookup, has_key, lookup-has_key, IsDict, Bool-cases, if◌then◌else◌,
  arith,
}
use abraxis.Routing.Table.{
  RouteEntry, RoutingTable, routes_of, collect, get_routes, get_public_routes, get_protected_routes,
  remove_service, remove_service_routes, is_service,
}

has_key-cons {ℓ} :
    {V : Type ℓ} (j k : Text) (v : V) (m : List (Text × V))
    → has_key k ((j, v) ∷ m) ≡ false
    → (text_eq j k ≡ false) × (has_key k m ≡ false)
unfolding has_key
has_key-cons j k v m h = ground arith

no_service :
    (service_id : Text) (m : List (Text × List RouteEntry)) (k : Text)
    → has_key k m ≡ false
    → has_key k (remove_service service_id m) ≡ false
unfolding has_key remove_service
no_service service_id [] k h = refl
no_service service_id ((j, es) ∷ m) k h =
    let (ne, rest) = has_key-cons j k es m h in
    elim (List-cases (keep_if (λ e. not (is_service service_id e)) es)) [
      | inl e ↦ rw (e, remove_service) (no_service service_id m k rest)
      | inr (x, xs, e) ↦ rw (e, remove_service, ne) (no_service service_id m k rest)
    ]

entries : Text → List (Text × List RouteEntry) → List RouteEntry
entries m r = routes_of m (record { routes = r })

entries-cons :
    (m j : Text) (es : List RouteEntry) (r : List (Text × List RouteEntry))
    → entries m ((j, es) ∷ r) ≡ (if text_eq j m then es else entries m r)
unfolding entries routes_of lookup
entries-cons m j es r = ground arith

entries-missing :
    (m : Text) (r : List (Text × List RouteEntry)) → has_key m r ≡ false → entries m r ≡ []
unfolding entries routes_of
entries-missing m r h = rw (lookup-has_key m r h, routes_of)

entries-remove_service :
    (service_id m : Text) (r : List (Text × List RouteEntry))
    → IsDict r
    → entries m (remove_service service_id r)
      ≡ keep_if (λ e. not (is_service service_id e)) (entries m r)
unfolding remove_service
entries-remove_service service_id m [] d = unfold entries routes_of lookup in refl
entries-remove_service service_id m ((j, es) ∷ r) d =
    elim (List-cases (keep_if (λ e. not (is_service service_id e)) es)) [
      | inl e ↦
          rw (e, remove_service, entries-cons)
            (elim (Bool-cases (text_eq j m)) [
              | inl h ↦
                  rw (h, e)
                    (entries-missing m _
                      (no_service service_id r m (rw (eq_of_text_eq j m h) at d.0)))
              | inr h ↦ rw h (entries-remove_service service_id m r d.1)
            ])
      | inr (x, xs, e) ↦
          rw (e, remove_service, entries-cons m j es r, entries-cons)
            (elim (Bool-cases (text_eq j m)) [
              | inl h ↦ rw (h, e) refl
              | inr h ↦ rw h (entries-remove_service service_id m r d.1)
            ])
    ]

-- `RemoveServiceRoutes` leaves of every method exactly the entries of the other services, in order.
-- The table has each method once, as every Go map does.
routes_of-remove_service_routes :
    (service_id : Text) (rt : RoutingTable) (m : Text)
    → IsDict rt.routes
    → routes_of m (remove_service_routes service_id rt)
      ≡ keep_if (λ e. not (is_service service_id e)) (routes_of m rt)
unfolding remove_service_routes entries
routes_of-remove_service_routes service_id rt m d = entries-remove_service service_id m rt.routes d

interleave {ℓ} :
    {A : Type ℓ} (a b c d : List A) → Perm ((a ++ b) ++ (c ++ d)) ((a ++ c) ++ (b ++ d))
interleave a b c d =
    rw (append_assoc a b (c ++ d), append_assoc a c (b ++ d))
      (Perm.append (Perm.refl a) (
        rw (← append_assoc b c d, ← append_assoc c b d)
          (Perm.append (perm_append_comm b c) (Perm.refl d))))

split-perm {ℓ κ} :
    {A : Type ℓ} {B : Type κ} (f : A → B) (p : A → Bool) (es : List A)
    → Perm (map f (keep_if p es) ++ map f (keep_if (λ e. not (p e)) es)) (map f es)
split-perm f p [] = Perm.refl _
split-perm f p (e ∷ es) = elim (Bool-cases (p e)) [
  | inl h ↦ rw h (Perm.cons (f e) (split-perm f p es))
  | inr h ↦ rw h (
      Perm.trans (perm_middle (map f (keep_if p es)) (map f (keep_if (λ e'. not (p e')) es)))
        (Perm.cons (f e) (split-perm f p es)))
]

keep_if-true {ℓ} : {A : Type ℓ} (es : List A) → keep_if (λ _. true) es ≡ es
keep_if-true [] = refl
keep_if-true (e ∷ es) = ap (◌∷◌ e) (keep_if-true es)

collect-perm :
    (p : RouteEntry → Bool) (m : List (Text × List RouteEntry))
    → Perm (collect p m ++ collect (λ e. not (p e)) m) (collect (λ _. true) m)
unfolding collect
collect-perm p [] = Perm.refl _
collect-perm p ((k, es) ∷ m) = rw (keep_if-true es) (
    Perm.trans
      (interleave (map (λ e. e.metadata) (keep_if p es)) (collect p m)
        (map (λ e. e.metadata) (keep_if (λ e. not (p e)) es)) (collect (λ e. not (p e)) m))
      (Perm.append (split-perm (λ e. e.metadata) p es) (collect-perm p m)))

-- Every route that the table lists is listed as public or as protected, once and never as both.
get_routes-perm :
    (rt : RoutingTable) → Perm (get_public_routes rt ++ get_protected_routes rt) (get_routes rt)
unfolding get_public_routes get_protected_routes get_routes
get_routes-perm rt = collect-perm (λ e. e.metadata.is_public) rt.routes
