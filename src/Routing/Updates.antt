-- ===== src/Routing/Updates.antt =====
-- `AddRoute`, `RemoveRoute` and `RemoveServiceRoutes` of routing.go, and the order of the entries, which
-- `LookupRoute` relies on.
use mathlib.Core.List.{Perm, perm_append_singleton}
use mathlib.Core.List.Perm
use abraxis.Base.{
  Text, text_eq, text_eq_refl, text_eq_ne, eq_of_text_eq, ◌≢◌, true, false, not, ◌≡◌, refl, ◌⊎◌,
  inl, inr, none, some, List, [], ◌∷◌, ◌++◌, keep_if, is_empty, lookup, insert, lookup-insert,
  Bool-cases, Option-cases, if◌then◌else◌, arith,
}
use abraxis.Routing.Pattern.{parse_pattern}
use abraxis.Routing.Order.{IsSorted, sort_stable-IsSorted, sort_stable-perm, keep_if-IsSorted}
use abraxis.Routing.Table.{
  RouteMetadata, RouteEntry, RoutingTable, sort_stable, routes_of, sort_routes, add_route,
  remove_route, is_route,
}

-- The entries of every method are sorted.
abbrev pub IsSortedTable : RoutingTable → Type 0
IsSortedTable rt = (m : Text) → IsSorted (routes_of m rt)

routes_of-insert :
    (k m : Text) (es : List RouteEntry) (r : List (Text × List RouteEntry))
    → routes_of m (record { routes = insert k es r })
      ≡ (if text_eq k m then es else routes_of m (record { routes = r }))
unfolding routes_of
routes_of-insert k m es r = ground (arith, lookup-insert k m es r)

-- What `AddRoute` asks of a route.
pub record IsComplete (route : RouteMetadata) : Type 0 where
  pub path : is_empty route.path ≡ false
  pub method : is_empty route.method ≡ false
  pub service_id : is_empty route.service_id ≡ false

abbrev pub entry_of : RouteMetadata → RouteEntry
entry_of route = record { metadata = route; pattern = parse_pattern route.path }

routes_of-sort_routes :
    (k m : Text) (es : List RouteEntry) (r : List (Text × List RouteEntry))
    → routes_of m (sort_routes k (record { routes = insert k es r }))
      ≡ (if text_eq k m then sort_stable es else routes_of m (record { routes = r }))
unfolding routes_of sort_routes
routes_of-sort_routes k m es r = ground (
  arith,
  lookup-insert k k es r,
  lookup-insert k m es r,
  lookup-insert k m (sort_stable es) (insert k es r),
  text_eq_refl k,
)

routes_of-add_route :
    (route : RouteMetadata) (rt : RoutingTable) (m : Text)
    → IsComplete route
    → routes_of m (add_route route rt).0 ≡ (
        if text_eq route.method m
        then sort_stable (routes_of route.method rt ++ entry_of route ∷ [])
        else routes_of m rt)
unfolding add_route
routes_of-add_route route rt m c =
    rw (c.path, c.method, c.service_id)
      (routes_of-sort_routes route.method m (routes_of route.method rt ++ entry_of route ∷ [])
        rt.routes)

-- An incomplete route is refused with an error, and the table stays as it was.
add_route-refuses :
    (route : RouteMetadata) (rt : RoutingTable)
    → (is_empty route.path ≡ true)
      ⊎ (is_empty route.method ≡ true)
      ⊎ (is_empty route.service_id ≡ true)
    → ((add_route route rt).0 ≡ rt) × ((add_route route rt).1 ≢ none)
unfolding add_route
add_route-refuses route rt h = ground arith

IsComplete-cases :
    (route : RouteMetadata)
    → IsComplete route
      ⊎ ((is_empty route.path ≡ true)
          ⊎ (is_empty route.method ≡ true)
          ⊎ (is_empty route.service_id ≡ true))
IsComplete-cases route = elim (Bool-cases (is_empty route.path)) [
  | inl a ↦ inr (inl a)
  | inr a ↦ elim (Bool-cases (is_empty route.method)) [
    | inl b ↦ inr (inr (inl b))
    | inr b ↦ elim (Bool-cases (is_empty route.service_id)) [
      | inl d ↦ inr (inr (inr d))
      | inr d ↦ inl (record { path = a; method = b; service_id = d })
    ]
  ]
]

-- `AddRoute` keeps the entries of every method sorted, whatever route it is given.
pub add_route-IsSortedTable :
    (route : RouteMetadata) (rt : RoutingTable)
    → IsSortedTable rt
    → IsSortedTable (add_route route rt).0
add_route-IsSortedTable route rt s m = elim (IsComplete-cases route) [
  | inl c ↦ rw (routes_of-add_route route rt m c) (elim (Bool-cases (text_eq route.method m)) [
    | inl e ↦ rw e (sort_stable-IsSorted _)
    | inr e ↦ rw e (s m)
  ])
  | inr bad ↦ rw (add_route-refuses route rt bad).0 (s m)
]

-- `AddRoute` of a complete route adds exactly one entry to the route's method, and leaves the
-- entries of every other method as they were.
pub add_route-perm :
    (route : RouteMetadata) (rt : RoutingTable)
    → IsComplete route
    → Perm
        (routes_of route.method (add_route route rt).0)
        (entry_of route ∷ routes_of route.method rt)
      × ((m : Text) → route.method ≢ m → routes_of m (add_route route rt).0 ≡ routes_of m rt)
add_route-perm route rt c = (
  rw (routes_of-add_route route rt route.method c, text_eq_refl route.method)
      (Perm.trans (sort_stable-perm (routes_of route.method rt ++ entry_of route ∷ []))
        (perm_append_singleton (entry_of route) (routes_of route.method rt))),
  λ m ne. rw (routes_of-add_route route rt m c, text_eq_ne route.method m ne) refl,
)

routes_of-missing : (m : Text) (rt : RoutingTable) → lookup m rt.routes ≡ none → routes_of m rt ≡ []
unfolding routes_of
routes_of-missing m rt h = rw (h, routes_of)

routes_of-present :
    (m : Text) (rt : RoutingTable) (es : List RouteEntry)
    → lookup m rt.routes ≡ some es
    → routes_of m rt ≡ es
unfolding routes_of
routes_of-present m rt es h = rw (h, routes_of)

-- `RemoveRoute` drops the entries of the service and path from the method, and nothing else.
routes_of-remove_route :
    (service_id method path : Text) (rt : RoutingTable) (m : Text)
    → routes_of m (remove_route service_id method path rt) ≡ (
        if text_eq method m
        then keep_if (λ e. not (is_route service_id path e)) (routes_of m rt)
        else routes_of m rt)
unfolding remove_route
routes_of-remove_route service_id method path rt m = elim (Option-cases (lookup method rt.routes)) [
  | inl e ↦
      rw (e, remove_route)
        (elim (Bool-cases (text_eq method m)) [
          | inl h ↦ rw (h, routes_of-missing m rt (rw (eq_of_text_eq method m h) at e)) refl
          | inr h ↦ rw h refl
        ])
  | inr (es, e) ↦
      rw (e, remove_route, routes_of-insert)
        (elim (Bool-cases (text_eq method m)) [
          | inl h ↦ rw (h, routes_of-present m rt es (rw (eq_of_text_eq method m h) at e)) refl
          | inr h ↦ rw h refl
        ])
]

-- `RemoveRoute` keeps the entries of every method sorted.
remove_route-IsSortedTable :
    (service_id method path : Text) (rt : RoutingTable)
    → IsSortedTable rt
    → IsSortedTable (remove_route service_id method path rt)
remove_route-IsSortedTable service_id method path rt s m =
    rw (routes_of-remove_route service_id method path rt m) (elim (Bool-cases (text_eq method m)) [
      | inl h ↦ rw h (keep_if-IsSorted _ (routes_of m rt) (s m))
      | inr h ↦ rw h (s m)
    ])
