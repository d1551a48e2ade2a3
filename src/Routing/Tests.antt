-- ===== src/Routing/Tests.antt =====
-- Runs of the routing table on concrete routes, and the theorems at concrete inputs.

use abraxis.Base.{
  pos, text_eq, bytes, true, false, ◌≡◌, ◌↔◌, ◌⊎◌, refl, none, some, [], ◌∷◌, lookup, insert,
  split_on, join_with, trim, has_prefix, has_key,
}
use abraxis.Routing.Pattern.{
  parse_pattern, path_segments, parse_segments, values_equal, match_segments, counts_fit, match,
}
use abraxis.Routing.Matching.{Matches, match_iff_Matches}
use abraxis.Routing.Table.{
  RouteMetadata, RouteEntry, RoutingTable, less, insert_sorted, sort_stable, new_routing_table,
  routes_of, sort_routes, add_route, remove_route, remove_service, remove_service_routes,
  first_match, lookup_route,
}
use abraxis.Routing.Updates.{IsSortedTable, IsComplete, add_route-IsSortedTable}
use abraxis.Routing.Lookup.{IsBest, NoneMatches, any_method, lookup_route-IsBest}

program : Unit {0}
unfolding parse_pattern path_segments parse_segments values_equal match_segments counts_fit match
    split_on join_with trim has_prefix text_eq lookup insert less insert_sorted sort_stable
    new_routing_table routes_of sort_routes add_route remove_route remove_service_routes
    remove_service first_match lookup_route has_key
program = tt

abbrev item_route : RouteMetadata
item_route = record {
  path = bytes "/items/:id";
  method = bytes "GET";
  service_id = bytes "s1";
  service_name = bytes "items";
  service_url = bytes "http://items";
  is_public = false;
  required_scopes = [];
  priority = pos 0;
  tags = [];
}

abbrev new_route : RouteMetadata
new_route = record item_route {
  path = bytes "/items/new";
  service_id = bytes "s2";
  is_public = true;
}

abbrev one : RoutingTable
one = (add_route item_route new_routing_table).0

abbrev both : RoutingTable
both = (add_route new_route one).0

-- The static route wins over the parameter, though it was added later.
static_first : lookup_route (bytes "GET") (bytes "/items/new/") both ≡ some (new_route, [])
unfolding program
static_first = refl

param_bound :
    lookup_route (bytes "GET") (bytes "/items/42") both
    ≡ some (item_route, (bytes "id", bytes "42") ∷ [])
unfolding program
param_bound = refl

wrong_method : lookup_route (bytes "PUT") (bytes "/items/42") both ≡ none
unfolding program
wrong_method = refl

wildcard_rest :
    match (parse_pattern (bytes "/api/*")) (bytes "/api/a/b") ≡ some ((bytes "*", bytes "a/b") ∷ [])
unfolding program
wildcard_rest = refl

match_iff_Matches_example :
    (match (parse_pattern (bytes "/items/:id")) (bytes "/items/42")
      ≡ some ((bytes "id", bytes "42") ∷ []))
    ↔ Matches
        (parse_pattern (bytes "/items/:id")).segments
        (path_segments (bytes "/items/42"))
        []
        ((bytes "id", bytes "42") ∷ [])
match_iff_Matches_example =
    match_iff_Matches (bytes "/items/:id") (bytes "/items/42") ((bytes "id", bytes "42") ∷ [])

empty-IsSortedTable : IsSortedTable new_routing_table
unfolding program
empty-IsSortedTable m = tt

one-IsSortedTable : IsSortedTable one
one-IsSortedTable = add_route-IsSortedTable item_route new_routing_table empty-IsSortedTable

add_route-IsSortedTable_example : IsSortedTable one
add_route-IsSortedTable_example =
    add_route-IsSortedTable item_route new_routing_table empty-IsSortedTable

both-IsSortedTable : IsSortedTable both
both-IsSortedTable = add_route-IsSortedTable new_route one one-IsSortedTable

new-IsComplete : IsComplete new_route
new-IsComplete = record { path = refl; method = refl; service_id = refl }

lookup_route-IsBest_example :
    ((e : RouteEntry) × IsBest (routes_of (bytes "GET") both) (bytes "/items/new/") new_route [] e)
    ⊎ (NoneMatches (routes_of (bytes "GET") both) (bytes "/items/new/")
        × ((e : RouteEntry) × IsBest
              (routes_of any_method both)
              (bytes "/items/new/")
              new_route
              []
              e))
lookup_route-IsBest_example =
    lookup_route-IsBest (bytes "GET") (bytes "/items/new/") both new_route [] both-IsSortedTable
      static_first
