-- ===== src/Routing/Pattern.antt =====
-- Path patterns: `ParsePattern` and `RoutePattern.Match` of routing.go.
use abraxis.Base.{
  ℕ, suc, ◌-◌, Text, Bool, true, false, not, ◌&&◌, Option, none, some, List, [], ◌∷◌, length, drop,
  ltb, ◌==◌, is_empty, text_eq, has_prefix, split_on, join_with, trim, insert, bytes, if◌then◌else◌,
}

-- `SegmentType`
pub data SegmentType : Type 0 where
  static_segment param_segment wildcard_segment : SegmentType

pub record PathSegment : Type 0 where
  pub type : SegmentType
  pub value : Text

pub record RoutePattern : Type 0 where
  pub original : Text
  pub segments : List PathSegment
  pub has_wildcard : Bool
  pub num_params : ℕ

abbrev pub slash : ℕ
slash = b'/'

-- `strings.Split(strings.Trim(path, "/"), "/")`
unfoldable pub path_segments : Text → List Text
unfolding trim
path_segments path = split_on slash (trim slash path)

-- What the loop of `ParsePattern` collects.
pub record Parsed : Type 0 where
  pub segments : List PathSegment
  pub has_wildcard : Bool
  pub num_params : ℕ

abbrev pub add_static : Text → Parsed → Parsed
add_static seg p = record p {
  segments = record { type = SegmentType.static_segment; value = seg } ∷ p.segments;
}

abbrev pub add_param : Text → Parsed → Parsed
add_param name p = record p {
  segments = record { type = SegmentType.param_segment; value = name } ∷ p.segments;
  num_params = suc p.num_params;
}

abbrev pub just_wildcard : Parsed
just_wildcard = record {
  segments = record { type = SegmentType.wildcard_segment; value = [] } ∷ [];
  has_wildcard = true;
  num_params = 0;
}

-- The loop, from the segment at hand on: empty segments are skipped, and `*` ends the loop.
unfoldable pub parse_segments : List Text → Parsed
parse_segments [] = record { segments = []; has_wildcard = false; num_params = 0 }
parse_segments (seg ∷ rest) =
    let p = parse_segments rest in
    if is_empty seg
    then p
    else (if text_eq seg (bytes "*")
        then just_wildcard
        else (if has_prefix seg (bytes ":") then add_param (drop 1 seg) p else add_static seg p))

-- `ParsePattern`
unfoldable pub parse_pattern : Text → RoutePattern
parse_pattern pattern =
    let p = parse_segments (path_segments pattern) in
    record {
      original = pattern;
      segments = p.segments;
      has_wildcard = p.has_wildcard;
      num_params = p.num_params;
    }

abbrev pub Params : Type 0
Params = List (Text × Text)

-- The loop of the fast path: every segment's value is compared.
unfoldable pub values_equal : List PathSegment → List Text → Bool
values_equal [] _ = true
values_equal (s ∷ ss) [] = false
values_equal (s ∷ ss) (t ∷ ts) = text_eq s.value t && values_equal ss ts

-- The main loop, with the path segments from the current index on.
unfoldable pub match_segments : List PathSegment → List Text → Params → Option Params
match_segments [] _ params = some params
match_segments (s ∷ ss) ts params = elim s.type [
  | wildcard_segment ↦ some (insert (bytes "*") (join_with slash ts) params)
  | static_segment ↦ elim ts [
    | [] ↦ none
    | t ∷ rest ↦ if text_eq s.value t then match_segments ss rest params else none
  ]
  | param_segment ↦ elim ts [
    | [] ↦ none
    | t ∷ rest ↦ match_segments ss rest (insert s.value t params)
  ]
]

-- The checks before the main loop.
unfoldable pub counts_fit : RoutePattern → ℕ → Bool
counts_fit rp n =
    if rp.has_wildcard then not (ltb n (length rp.segments - 1)) else n == length rp.segments

-- `RoutePattern.Match`
unfoldable pub match : RoutePattern → Text → Option Params
match rp path =
    let ts = path_segments path in
    if rp.num_params == 0 && not rp.has_wildcard
    then (if length ts == length rp.segments
        then (if values_equal rp.segments ts then some [] else none)
        else none)
    else (if counts_fit rp (length ts) then match_segments rp.segments ts [] else none)
