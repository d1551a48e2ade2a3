-- ===== src/Routing/Matching.antt =====
-- The relation between paths and patterns, and `Match` of routing.go.
use abraxis.Base.{
  ℕ, suc, ◌+◌, ◌≤◌, ◌≡◌, refl, sym, ◌∙◌, ◌↔◌, ◌⊎◌, inl, inr, Bool, true, false, ◌||◌, none, some,
  List, [], ◌∷◌, length, Text, text_eq, eq_of_text_eq, text_eq_refl, bytes, insert, join_with,
  Bool-cases, arith, if◌then◌else◌,
}
use mathlib.Core.Option.{some-injective}
use abraxis.Routing.Pattern.{
  SegmentType, PathSegment, RoutePattern, Params, slash, path_segments, parse_segments,
  parse_pattern, values_equal, match_segments, counts_fit, match,
}

-- The path segments match the pattern segments from the left; parameters are bound on the way, and
-- a wildcard takes the rest of the path, an empty rest too.
pub data Matches : List PathSegment → List Text → Params → Params → Type 0 where
  done : {p : Params} → Matches [] [] p p
  static :
      {s : PathSegment} {ss : List PathSegment} {t : Text} {ts : List Text} {p q : Params}
      → s.type ≡ SegmentType.static_segment
      → s.value ≡ t
      → Matches ss ts p q
      → Matches (s ∷ ss) (t ∷ ts) p q
  param :
      {s : PathSegment} {ss : List PathSegment} {t : Text} {ts : List Text} {p q : Params}
      → s.type ≡ SegmentType.param_segment
      → Matches ss ts (insert s.value t p) q
      → Matches (s ∷ ss) (t ∷ ts) p q
  wildcard :
      {s : PathSegment} {ss : List PathSegment} {ts : List Text} {p q : Params}
      → s.type ≡ SegmentType.wildcard_segment
      → q ≡ insert (bytes "*") (join_with slash ts) p
      → Matches (s ∷ ss) ts p q

abbrev pub is_wildcard : SegmentType → Bool
is_wildcard SegmentType.wildcard_segment = true
is_wildcard _ = false

abbrev pub is_param : SegmentType → Bool
is_param SegmentType.param_segment = true
is_param _ = false

pub any_wildcard : List PathSegment → Bool
any_wildcard [] = false
any_wildcard (s ∷ ss) = is_wildcard s.type || any_wildcard ss

pub count_params : List PathSegment → ℕ
count_params [] = 0
count_params (s ∷ ss) = let n = count_params ss in if is_param s.type then suc n else n

-- A wildcard stands last.
abbrev pub WildcardLast : List PathSegment → Type 0
WildcardLast [] = Unit
WildcardLast (s ∷ ss) = (is_wildcard s.type ≡ true → length ss ≡ 0) × WildcardLast ss

-- A wildcard stands last, and the summary fields say what the segments hold.
pub record WellFormed (segments : List PathSegment) (has_wildcard : Bool) (num_params : ℕ)
    : Type 0 where
  pub wildcard_known : has_wildcard ≡ any_wildcard segments
  pub params_known : num_params ≡ count_params segments
  pub wildcard_last : WildcardLast segments

parse_segments-WellFormed :
    (ts : List Text)
    → WellFormed
        (parse_segments ts).segments
        (parse_segments ts).has_wildcard
        (parse_segments ts).num_params
unfolding parse_segments any_wildcard count_params
parse_segments-WellFormed [] = record {
  wildcard_known = refl;
  params_known = refl;
  wildcard_last = tt;
}
parse_segments-WellFormed (t ∷ ts) = ground (arith, parse_segments-WellFormed ts)

SegmentType-cases :
    (t : SegmentType)
    → (t ≡ SegmentType.static_segment)
      ⊎ (t ≡ SegmentType.param_segment)
      ⊎ (t ≡ SegmentType.wildcard_segment)
SegmentType-cases SegmentType.static_segment = inl refl
SegmentType-cases SegmentType.param_segment = inr (inl refl)
SegmentType-cases SegmentType.wildcard_segment = inr (inr refl)

-- The main loop finds what the relation allows.
match_segments_complete :
    {ss : List PathSegment} {ts : List Text} {p q : Params}
    → Matches ss ts p q
    → match_segments ss ts p ≡ some q
unfolding match_segments
match_segments_complete done = refl
match_segments_complete (static {t = t} e v m) =
    rw (e, match_segments, v, text_eq_refl) (match_segments_complete m)
match_segments_complete (param e m) = rw (e, match_segments) (match_segments_complete m)
match_segments_complete (wildcard e v) = rw (e, match_segments, v)

-- Without a wildcard the pattern has as many segments as the path.
abbrev Fits : List PathSegment → List Text → Type 0
Fits ss ts = any_wildcard ss ≡ false → length ts ≡ length ss

Fits-tail :
    (s : PathSegment) (t : Text) (ss : List PathSegment) (ts : List Text)
    → is_wildcard s.type ≡ false
    → Fits (s ∷ ss) (t ∷ ts)
    → Fits ss ts
unfolding any_wildcard
Fits-tail s t ss ts w fits = λ none_left. ground (arith, fits (ground arith))

-- What the main loop finds the relation allows.
match_segments_sound :
    (ss : List PathSegment) (ts : List Text) (p q : Params)
    → Fits ss ts
    → match_segments ss ts p ≡ some q
    → Matches ss ts p q
unfolding match_segments any_wildcard
match_segments_sound [] [] p q fits h = rw (some-injective p q h) done
match_segments_sound [] (t ∷ ts) p q fits h = absurd (omega (arith, fits refl))
match_segments_sound (s ∷ ss) [] p q fits h = elim (SegmentType-cases s.type) [
  | inl e ↦ cc (rw (e, match_segments) at h)
  | inr (inl e) ↦ cc (rw (e, match_segments) at h)
  | inr (inr e) ↦ wildcard e (sym (some-injective _ q (rw (e, match_segments) at h)))
]
match_segments_sound (s ∷ ss) (t ∷ ts) p q fits h = elim (SegmentType-cases s.type) [
  | inl e ↦ elim (Bool-cases (text_eq s.value t)) [
    | inl v ↦ static e (eq_of_text_eq s.value t v) (
        match_segments_sound ss ts p q (Fits-tail s t ss ts (rw e) fits)
          (rw (e, match_segments, v) at h))
    | inr v ↦ cc (rw (e, match_segments, v) at h)
  ]
  | inr (inl e) ↦ param e (
      match_segments_sound ss ts (insert s.value t p) q (Fits-tail s t ss ts (rw e) fits)
        (rw (e, match_segments) at h))
  | inr (inr e) ↦ wildcard e (sym (some-injective _ q (rw (e, match_segments) at h)))
]

values_equal-match_segments :
    (ss : List PathSegment) (ts : List Text) (p : Params)
    → any_wildcard ss ≡ false
    → count_params ss ≡ 0
    → length ts ≡ length ss
    → match_segments ss ts p ≡ (if values_equal ss ts then some p else none)
unfolding match_segments values_equal any_wildcard count_params
values_equal-match_segments [] [] p w n h = refl
values_equal-match_segments [] (t ∷ ts) p w n h = refl
values_equal-match_segments (s ∷ ss) [] p w n h = absurd (omega arith)
values_equal-match_segments (s ∷ ss) (t ∷ ts) p w n h =
    ground (arith, values_equal-match_segments ss ts p)

-- A path that matches passes the checks that stand before the main loop.
Matches-counts :
    {ss : List PathSegment} {ts : List Text} {p q : Params}
    → Matches ss ts p q
    → WildcardLast ss
    → (length ss ≤ length ts + 1) × Fits ss ts
unfolding any_wildcard
Matches-counts done w = (omega arith, λ e. refl)
Matches-counts (static e v m) w =
    let h = Matches-counts m w.1 in (omega arith, λ f. ground (arith, h.1 (ground arith)))
Matches-counts (param e m) w =
    let h = Matches-counts m w.1 in (omega arith, λ f. ground (arith, h.1 (ground arith)))
Matches-counts (wildcard {s = s} e v) w = (omega (arith, w.0 (rw e)), λ f. cc (rw e at f))

counts_fit-Fits :
    (pattern : Text) (ts : List Text)
    → counts_fit (parse_pattern pattern) (length ts) ≡ true
    → Fits (parse_pattern pattern).segments ts
unfolding parse_pattern counts_fit
counts_fit-Fits pattern ts h =
    let parsed = parse_segments-WellFormed (path_segments pattern) in λ w. ground (arith, parsed)

Fits-counts_fit :
    (pattern : Text) (ts : List Text) {p q : Params}
    → Matches (parse_pattern pattern).segments ts p q
    → counts_fit (parse_pattern pattern) (length ts) ≡ true
unfolding parse_pattern counts_fit
Fits-counts_fit pattern ts m =
    let parsed = parse_segments-WellFormed (path_segments pattern) in
    let (room, fits) = Matches-counts m parsed.wildcard_last in
    elim (Bool-cases (any_wildcard (parse_segments (path_segments pattern)).segments)) [
      | inl w ↦ ground (arith, parsed)
      | inr w ↦ ground (arith, parsed, fits w)
    ]

module _ (pattern path : Text) where
  -- The fast path for patterns of static segments is no more than a fast path: on every pattern
  -- that `ParsePattern` builds, `Match` finds what the main loop behind its checks would find.
  match-match_segments : match (parse_pattern pattern) path ≡ (
      if counts_fit (parse_pattern pattern) (length (path_segments path))
      then match_segments (parse_pattern pattern).segments (path_segments path) []
      else none)
  unfolding match parse_pattern counts_fit
  match-match_segments =
      let parsed = parse_segments-WellFormed (path_segments pattern) in
      ground (
        arith,
        parsed,
        values_equal-match_segments (parse_segments (path_segments pattern)).segments
            (path_segments path) [],
      )

  -- `Match` on a parsed pattern finds the parameters `q` exactly when the segments of the path match
  -- those of the pattern with the parameters `q`: it misses no match and invents none.
  pub match_iff_Matches :
      (q : Params)
      → (match (parse_pattern pattern) path ≡ some q)
        ↔ Matches (parse_pattern pattern).segments (path_segments path) [] q
  match_iff_Matches q = (
    λ h. elim (Bool-cases fit) [
      | inl e ↦
          match_segments_sound rp.segments ts [] q (counts_fit-Fits pattern ts e)
            (sym (rw e at match-match_segments) ∙ h)
      | inr e ↦ cc (sym (rw e at match-match_segments) ∙ h)
    ],
    λ m. rw (match-match_segments, Fits-counts_fit pattern ts m) (match_segments_complete m),
  )
    where
      rp : RoutePattern
      rp = parse_pattern pattern

      ts : List Text
      ts = path_segments path

      fit : Bool
      fit = counts_fit rp (length ts)
