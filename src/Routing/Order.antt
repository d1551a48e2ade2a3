-- ===== src/Routing/Order.antt =====
-- The order of the entries: the comparison of `sortRoutes` and the stable sort.
use mathlib.Core.List.{Perm}
use mathlib.Core.List.Perm
use abraxis.Base.{
  ℤ, Bool, true, false, not, ◌≡◌, inl, inr, List, [], ◌∷◌, length, keep_if, ltb, ◌==◌, ltb_ℤ, eqb_ℤ,
  All, All-keep_if, Bool-cases, if◌then◌else◌, arith,
}
use abraxis.Routing.Table.{RouteEntry, bool_eq, less, insert_sorted, sort_stable}

pub less_irrefl : (x : RouteEntry) → less x x ≡ false
unfolding less
less_irrefl x = ground arith

less_asym : (x y : RouteEntry) → less x y ≡ true → less y x ≡ false
unfolding less
less_asym x y h = ground arith

-- The comparison after the priorities, and after the wildcards.
less_shape : RouteEntry → RouteEntry → Bool
less_shape ri rj =
    if not (ri.pattern.num_params == rj.pattern.num_params)
    then ltb ri.pattern.num_params rj.pattern.num_params
    else ltb (length rj.pattern.segments) (length ri.pattern.segments)

less_pattern : RouteEntry → RouteEntry → Bool
less_pattern ri rj =
    if not (bool_eq ri.pattern.has_wildcard rj.pattern.has_wildcard)
    then not ri.pattern.has_wildcard
    else less_shape ri rj

shape_negtrans :
    (x y z : RouteEntry) → less_shape y x ≡ false → less_shape z y ≡ false → less_shape z x ≡ false
unfolding less_shape
shape_negtrans x y z h k = ground arith

pattern_negtrans :
    (x y z : RouteEntry)
    → less_pattern y x ≡ false
    → less_pattern z y ≡ false
    → less_pattern z x ≡ false
unfolding less_pattern
pattern_negtrans x y z h k = ground (arith, shape_negtrans x y z)

lex_less : ℤ → ℤ → Bool → Bool
lex_less p q rest = if not (eqb_ℤ p q) then ltb_ℤ q p else rest

lex_negtrans :
    (p q r : ℤ) (a b c : Bool)
    → lex_less q p a ≡ false
    → lex_less r q b ≡ false
    → (a ≡ false → b ≡ false → c ≡ false)
    → lex_less r p c ≡ false
unfolding lex_less
lex_negtrans p q r a b c h k t = ground arith

less_negtrans : (x y z : RouteEntry) → less y x ≡ false → less z y ≡ false → less z x ≡ false
unfolding less lex_less less_pattern less_shape
less_negtrans x y z h k =
    lex_negtrans x.metadata.priority y.metadata.priority z.metadata.priority (less_pattern y x)
      (less_pattern z y) (less_pattern z x) h k (pattern_negtrans x y z)

-- No entry goes before one that stands ahead of it.
abbrev pub IsSorted : List RouteEntry → Type 0
IsSorted [] = Unit
IsSorted (x ∷ xs) = All (λ y. less y x ≡ false) xs × IsSorted xs

All-insert_sorted :
    (P : RouteEntry → Type 0) (x : RouteEntry) (xs : List RouteEntry)
    → P x
    → All P xs
    → All P (insert_sorted x xs)
unfolding insert_sorted
All-insert_sorted P x [] p h = (p, tt)
All-insert_sorted P x (y ∷ ys) p h = elim (Bool-cases (less y x)) [
  | inl e ↦ rw e (h.0, All-insert_sorted P x ys p h.1)
  | inr e ↦ rw e (p, h)
]

All-less :
    (x y : RouteEntry) (zs : List RouteEntry)
    → less y x ≡ false
    → All (λ z. less z y ≡ false) zs
    → All (λ z. less z x ≡ false) zs
All-less x y [] h a = tt
All-less x y (z ∷ zs) h a = (less_negtrans x y z h a.0, All-less x y zs h a.1)

insert_sorted-IsSorted :
    (x : RouteEntry) (xs : List RouteEntry) → IsSorted xs → IsSorted (insert_sorted x xs)
unfolding insert_sorted
insert_sorted-IsSorted x [] s = (tt, tt)
insert_sorted-IsSorted x (y ∷ ys) s = elim (Bool-cases (less y x)) [
  | inl e ↦ rw e (
    All-insert_sorted (λ z. less z y ≡ false) x ys (less_asym y x e) s.0,
    insert_sorted-IsSorted x ys s.1,
  )
  | inr e ↦ rw e ((e, All-less x y ys e s.0), s)
]

pub sort_stable-IsSorted : (xs : List RouteEntry) → IsSorted (sort_stable xs)
unfolding sort_stable
sort_stable-IsSorted [] = tt
sort_stable-IsSorted (x ∷ xs) = insert_sorted-IsSorted x (sort_stable xs) (sort_stable-IsSorted xs)

insert_sorted-perm : (x : RouteEntry) (xs : List RouteEntry) → Perm (insert_sorted x xs) (x ∷ xs)
unfolding insert_sorted
insert_sorted-perm x [] = Perm.refl _
insert_sorted-perm x (y ∷ ys) = elim (Bool-cases (less y x)) [
  | inl e ↦ rw e (Perm.trans (Perm.cons y (insert_sorted-perm x ys)) (Perm.swap x y ys))
  | inr e ↦ rw e (Perm.refl _)
]

pub sort_stable-perm : (xs : List RouteEntry) → Perm (sort_stable xs) xs
unfolding sort_stable
sort_stable-perm [] = Perm.refl _
sort_stable-perm (x ∷ xs) =
    Perm.trans (insert_sorted-perm x (sort_stable xs)) (Perm.cons x (sort_stable-perm xs))

pub keep_if-IsSorted :
    (p : RouteEntry → Bool) (xs : List RouteEntry) → IsSorted xs → IsSorted (keep_if p xs)
keep_if-IsSorted p [] s = tt
keep_if-IsSorted p (x ∷ xs) s = elim (Bool-cases (p x)) [
  | inl e ↦ rw e (All-keep_if (λ y. less y x ≡ false) p xs s.0, keep_if-IsSorted p xs s.1)
  | inr e ↦ rw e (keep_if-IsSorted p xs s.1)
]
