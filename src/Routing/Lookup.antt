-- ===== src/Routing/Lookup.antt =====
-- `LookupRoute` of routing.go.
use mathlib.Core.Option.{some-injective}
use abraxis.Base.{
  ℕ, Text, bytes, false, ◌≡◌, ◌≢◌, refl, ap, ◌∙◌, ◌⊎◌, inl, inr, none, some, List, [], ◌∷◌, All,
  Any, Option-cases, arith, split_on, trim,
}
use abraxis.Routing.Pattern
use abraxis.Routing.Pattern.{
  Params, RoutePattern, parse_pattern, path_segments, slash, values_equal,
}
use abraxis.Routing.Matching.{Matches, done, match_iff_Matches}
use abraxis.Routing.Order.{less_irrefl, IsSorted}
use abraxis.Routing.Updates.{IsSortedTable}
use abraxis.Routing.Table.{
  RouteMetadata, RouteEntry, RoutingTable, less, routes_of, first_match, lookup_route,
}

-- An entry of the list that matches the path with these parameters, and before which no matching
-- entry of the list goes.
pub record IsBest (es : List RouteEntry) (path : Text) (found : RouteMetadata) (q : Params)
    (e : RouteEntry) : Type 0 where
  pub listed : Any (λ e'. e' ≡ e) es
  pub metadata : e.metadata ≡ found
  pub matches : Pattern.match e.pattern path ≡ some q
  pub first : All (λ e'. Pattern.match e'.pattern path ≢ none → less e' e ≡ false) es

All-first :
    (e : RouteEntry) (path : Text) (es : List RouteEntry)
    → All (λ y. less y e ≡ false) es
    → All (λ e'. Pattern.match e'.pattern path ≢ none → less e' e ≡ false) es
All-first e path [] a = tt
All-first e path (x ∷ xs) a = (λ _. a.0, All-first e path xs a.1)

first_match-IsBest :
    (es : List RouteEntry) (path : Text) (found : RouteMetadata) (q : Params)
    → IsSorted es
    → first_match es path ≡ some (found, q)
    → (e : RouteEntry) × IsBest es path found q e
unfolding first_match
first_match-IsBest [] path found q s h = cc
first_match-IsBest (x ∷ xs) path found q s h = elim (Option-cases (Pattern.match x.pattern path)) [
  | inl miss ↦
      let (e, best) = first_match-IsBest xs path found q s.1 (rw (miss, first_match) at h) in
      (
        e,
        record {
          listed = inr best.listed;
          metadata = best.metadata;
          matches = best.matches;
          first = (λ hit. absurd (hit miss), best.first);
        },
      )
  | inr (p, hit) ↦
      let found_here = some-injective (x.metadata, p) (found, q) (rw (hit, first_match) at h) in
      (
        x,
        record {
          listed = inl refl;
          metadata = ap (λ r. r.0) found_here;
          matches = hit ∙ ap (λ r. some r.1) found_here;
          first = (λ _. less_irrefl x, All-first x path xs s.0);
        },
      )
]

first_match-none :
    (es : List RouteEntry) (path : Text)
    → first_match es path ≡ none
    → All (λ e. Pattern.match e.pattern path ≡ none) es
unfolding first_match
first_match-none [] path h = tt
first_match-none (x ∷ xs) path h = elim (Option-cases (Pattern.match x.pattern path)) [
  | inl miss ↦ (miss, first_match-none xs path (rw (miss, first_match) at h))
  | inr (p, hit) ↦ cc (rw (hit, first_match) at h)
]

abbrev pub NoneMatches : List RouteEntry → Text → Type 0
NoneMatches es path = All (λ e. Pattern.match e.pattern path ≡ none) es

abbrev pub any_method : Text
any_method = bytes "*"

-- On a sorted table `LookupRoute` answers with a best entry of the request's method; only if no
-- entry of the method matches does it answer with a best entry of the method `*`.
pub lookup_route-IsBest :
    (method path : Text) (rt : RoutingTable) (found : RouteMetadata) (q : Params)
    → IsSortedTable rt
    → lookup_route method path rt ≡ some (found, q)
    → ((e : RouteEntry) × IsBest (routes_of method rt) path found q e)
      ⊎ (NoneMatches (routes_of method rt) path
          × ((e : RouteEntry) × IsBest (routes_of any_method rt) path found q e))
unfolding lookup_route
lookup_route-IsBest method path rt found q s h =
    elim (Option-cases (first_match (routes_of method rt) path)) [
      | inl miss ↦ inr (
        first_match-none (routes_of method rt) path miss,
        first_match-IsBest (routes_of any_method rt) path found q (s any_method)
            (rw (miss, lookup_route) at h),
      )
      | inr (r, hit) ↦ inl (
          first_match-IsBest (routes_of method rt) path found q (s method)
            (hit ∙ rw (hit, lookup_route) at h))
    ]

-- `LookupRoute` fails only if no entry of the method and none of the method `*` matches.
lookup_route-none :
    (method path : Text) (rt : RoutingTable)
    → lookup_route method path rt ≡ none
    → NoneMatches (routes_of method rt) path × NoneMatches (routes_of any_method rt) path
unfolding lookup_route
lookup_route-none method path rt h = elim (Option-cases (first_match (routes_of method rt) path)) [
  | inl miss ↦ (
    first_match-none (routes_of method rt) path miss,
    first_match-none (routes_of any_method rt) path (rw (miss, lookup_route) at h),
  )
  | inr (r, hit) ↦ cc (rw (hit, lookup_route) at h)
]

split_on-ne-nil : (c : ℕ) (s : Text) → split_on c s ≢ []
unfolding split_on
split_on-ne-nil c [] = λ e. cc
split_on-ne-nil c (a ∷ s) = ground arith

path_segments-ne-nil : (path : Text) → path_segments path ≢ []
unfolding path_segments trim
path_segments-ne-nil path = split_on-ne-nil slash (trim slash path)

Matches-nil : {ts : List Text} {p q : Params} → Matches [] ts p q → ts ≡ []
Matches-nil done = refl

-- A pattern without segments, such as `/`, matches no path, `/` among them: `strings.Split` never
-- gives the empty list that `Match` would have to compare it with.
match_no_segments :
    (pattern path : Text)
    → (parse_pattern pattern).segments ≡ []
    → Pattern.match (parse_pattern pattern) path ≡ none
match_no_segments pattern path h =
    elim (Option-cases (Pattern.match (parse_pattern pattern) path)) [
      | inl miss ↦ miss
      | inr (q, hit) ↦
          let m = (match_iff_Matches pattern path q).0 hit in
          absurd (path_segments-ne-nil path (Matches-nil (rw h at m)))
    ]
