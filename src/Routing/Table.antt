-- ===== src/Routing/Table.antt =====
-- The table of routes by method: `RoutingTable` of routing.go.
use abraxis.Base.{
  ℤ, Text, Bool, true, false, not, ◌&&◌, Option, none, some, List, [], ◌∷◌, ◌++◌, map, length,
  keep_if, ltb, ◌==◌, ltb_ℤ, eqb_ℤ, is_empty, text_eq, lookup, insert, bytes, if◌then◌else◌,
}
use abraxis.Routing.Pattern
use abraxis.Routing.Pattern.{RoutePattern, Params, parse_pattern}

pub record RouteMetadata : Type 0 where
  pub path : Text
  pub method : Text
  pub service_id : Text
  pub service_name : Text
  pub service_url : Text
  pub is_public : Bool
  pub required_scopes : List Text
  pub priority : ℤ
  pub tags : List (Text × Text)

pub record RouteEntry : Type 0 where
  pub metadata : RouteMetadata
  pub pattern : RoutePattern

-- The entries by method.
pub record RoutingTable : Type 0 where
  pub routes : List (Text × List RouteEntry)

pub data AddError : Type 0 where
  empty_path empty_method empty_service_id : AddError

abbrev pub bool_eq : Bool → Bool → Bool
bool_eq true b = b
bool_eq false b = not b

-- The comparison of `sortRoutes`.
unfoldable pub less : RouteEntry → RouteEntry → Bool
less ri rj =
    if not (eqb_ℤ ri.metadata.priority rj.metadata.priority)
    then ltb_ℤ rj.metadata.priority ri.metadata.priority
    else (if not (bool_eq ri.pattern.has_wildcard rj.pattern.has_wildcard)
        then not ri.pattern.has_wildcard
        else (if not (ri.pattern.num_params == rj.pattern.num_params)
            then ltb ri.pattern.num_params rj.pattern.num_params
            else ltb (length rj.pattern.segments) (length ri.pattern.segments)))

-- `sort.SliceStable`: an entry goes before the first one that is not less than it.
unfoldable pub insert_sorted : RouteEntry → List RouteEntry → List RouteEntry
insert_sorted x [] = x ∷ []
insert_sorted x (y ∷ ys) = if less y x then y ∷ insert_sorted x ys else x ∷ y ∷ ys

unfoldable pub sort_stable : List RouteEntry → List RouteEntry
sort_stable [] = []
sort_stable (x ∷ xs) = insert_sorted x (sort_stable xs)

-- `NewRoutingTable`
unfoldable pub new_routing_table : RoutingTable
new_routing_table = record { routes = [] }

-- `rt.routes[method]`: a missing method reads as the nil slice.
unfoldable pub routes_of : Text → RoutingTable → List RouteEntry
routes_of method rt = elim (lookup method rt.routes) [ some es ↦ es | none ↦ [] ]

-- `sortRoutes`
unfoldable pub sort_routes : Text → RoutingTable → RoutingTable
sort_routes method rt = elim (lookup method rt.routes) [
  | some es ↦ record { routes = insert method (sort_stable es) rt.routes }
  | none ↦ rt
]

-- `AddRoute`
unfoldable pub add_route : RouteMetadata → RoutingTable → RoutingTable × Option AddError
add_route route rt =
    if is_empty route.path
    then (rt, some empty_path)
    else (if is_empty route.method
        then (rt, some empty_method)
        else (if is_empty route.service_id
            then (rt, some empty_service_id)
            else (let entry : RouteEntry = record {
              metadata = route;
              pattern = parse_pattern route.path;
            } in
                let appended = routes_of route.method rt ++ entry ∷ [] in
                let grown : RoutingTable = record {
                  routes = insert route.method appended rt.routes;
                } in
                (sort_routes route.method grown, none))))

abbrev pub is_route : Text → Text → RouteEntry → Bool
is_route service_id path e =
    text_eq e.metadata.service_id service_id && text_eq e.metadata.path path

-- `RemoveRoute`
unfoldable pub remove_route : Text → Text → Text → RoutingTable → RoutingTable
remove_route service_id method path rt = elim (lookup method rt.routes) [
  | some es ↦ record {
    routes = insert method (keep_if (λ e. not (is_route service_id path e)) es) rt.routes;
  }
  | none ↦ rt
]

abbrev pub is_service : Text → RouteEntry → Bool
is_service service_id e = text_eq e.metadata.service_id service_id

-- The loop of `RemoveServiceRoutes`: a method that is left with no route is deleted.
unfoldable pub remove_service : Text → List (Text × List RouteEntry) → List (Text × List RouteEntry)
remove_service service_id [] = []
remove_service service_id ((method, es) ∷ m) =
    let rest = remove_service service_id m in
    elim (keep_if (λ e. not (is_service service_id e)) es) [
      | [] ↦ rest
      | x ∷ xs ↦ (method, x ∷ xs) ∷ rest
    ]

-- `RemoveServiceRoutes`
unfoldable pub remove_service_routes : Text → RoutingTable → RoutingTable
remove_service_routes service_id rt = record { routes = remove_service service_id rt.routes }

-- The loop over the entries of one method.
unfoldable pub first_match : List RouteEntry → Text → Option (RouteMetadata × Params)
first_match [] path = none
first_match (e ∷ es) path = elim (Pattern.match e.pattern path) [
  | some params ↦ some (e.metadata, params)
  | none ↦ first_match es path
]

-- `LookupRoute`
unfoldable pub lookup_route : Text → Text → RoutingTable → Option (RouteMetadata × Params)
lookup_route method path rt = elim (first_match (routes_of method rt) path) [
  | some found ↦ some found
  | none ↦ first_match (routes_of (bytes "*") rt) path
]

-- The double loops of `GetRoutes`, `GetPublicRoutes`, `GetProtectedRoutes` and `GetServiceRoutes`.
unfoldable pub collect : (RouteEntry → Bool) → List (Text × List RouteEntry) → List RouteMetadata
collect p [] = []
collect p ((method, es) ∷ m) = map (λ e. e.metadata) (keep_if p es) ++ collect p m

unfoldable pub get_routes : RoutingTable → List RouteMetadata
unfolding collect
get_routes rt = collect (λ e. true) rt.routes

unfoldable pub get_public_routes : RoutingTable → List RouteMetadata
unfolding collect
get_public_routes rt = collect (λ e. e.metadata.is_public) rt.routes

unfoldable pub get_protected_routes : RoutingTable → List RouteMetadata
unfolding collect
get_protected_routes rt = collect (λ e. not e.metadata.is_public) rt.routes

unfoldable pub get_service_routes : Text → RoutingTable → List RouteMetadata
unfolding collect
get_service_routes service_id rt = collect (is_service service_id) rt.routes
