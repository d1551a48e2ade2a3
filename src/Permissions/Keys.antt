-- ===== src/Permissions/Keys.antt =====
-- The keys of the cache of `HasPermission`: aegis/internal/service/service_permission.go.
use abraxis.Base.{
  Lacks, ℕ, ◌≡◌, ◌≢◌, refl, sym, ap, Text, List, [], ◌∷◌, ◌++◌, join_with, arith, All,
}
use mathlib.Core.List.{append_assoc}
use abraxis.Permissions.Service.{make_cache_key}

pub record Question : Type 0 where
  pub roles : List Text
  pub action : Text
  pub resource : Text

abbrev pub key : Question → Text
key q = make_cache_key q.roles q.action q.resource

-- The byte does not stand in the text.
abbrev pub IsNonempty : List Text → Type 0
IsNonempty [] = Unit × ⊥
IsNonempty (_ ∷ _) = Unit

-- There are roles, none with a comma or a colon, and the action has no colon.
pub record IsPlain (q : Question) : Type 0 where
  pub has_roles : IsNonempty q.roles
  pub role_texts : All (λ r. Lacks b',' r × Lacks b':' r) q.roles
  pub action_text : Lacks b':' q.action

-- Texts are cut at the first of a byte.
cut : (c : ℕ) (a b x y : Text) → Lacks c a → Lacks c b → a ++ c ∷ x ≡ b ++ c ∷ y → (a ≡ b) × (x ≡ y)
cut c [] [] x y la lb h = (refl, cc)
cut c [] (e ∷ b) x y la lb h = absurd (lb.0 (cc))
cut c (d ∷ a) [] x y la lb h = absurd (la.0 (cc))
cut c (d ∷ a) (e ∷ b) x y la lb h = let (p, q) = cut c a b x y la.1 lb.1 (cc) in (cc, q)

Lacks-append : (c : ℕ) (a b : Text) → Lacks c a → Lacks c b → Lacks c (a ++ b)
Lacks-append c [] b la lb = lb
Lacks-append c (x ∷ a) b la lb = (la.0, Lacks-append c a b la.1 lb)

not_cut : (c : ℕ) (a b x : Text) → Lacks c a → a ≢ b ++ c ∷ x
not_cut c [] [] x la h = cc
not_cut c [] (e ∷ b) x la h = cc
not_cut c (d ∷ a) [] x la h = la.0 (cc)
not_cut c (d ∷ a) (e ∷ b) x la h = not_cut c a b x la.1 (cc)

join_with-injective :
    (c : ℕ) (ps qs : List Text)
    → IsNonempty ps
    → IsNonempty qs
    → All (Lacks c) ps
    → All (Lacks c) qs
    → join_with c ps ≡ join_with c qs
    → ps ≡ qs
unfolding join_with
join_with-injective c [] qs np nq lp lq h = absurd np.1
join_with-injective c (p ∷ ps) [] np nq lp lq h = absurd nq.1
join_with-injective c (p ∷ []) (q ∷ []) np nq lp lq h = cc
join_with-injective c (p ∷ []) (q ∷ q' ∷ qs) np nq lp lq h =
    absurd (not_cut c p q (join_with c (q' ∷ qs)) lp.0 h)
join_with-injective c (p ∷ p' ∷ ps) (q ∷ []) np nq lp lq h =
    absurd (not_cut c q p (join_with c (p' ∷ ps)) lq.0 (sym h))
join_with-injective c (p ∷ p' ∷ ps) (q ∷ q' ∷ qs) np nq lp lq h =
    let (e, rest) = cut c p q (join_with c (p' ∷ ps)) (join_with c (q' ∷ qs)) lp.0 lq.0 h in
    let ih = join_with-injective c (p' ∷ ps) (q' ∷ qs) tt tt lp.1 lq.1 rest in cc

join_with-Lacks : (c d : ℕ) (ps : List Text) → c ≢ d → All (Lacks d) ps → Lacks d (join_with c ps)
unfolding join_with
join_with-Lacks c d [] ne l = tt
join_with-Lacks c d (p ∷ []) ne l = l.0
join_with-Lacks c d (p ∷ q ∷ ps) ne l =
    Lacks-append d p (c ∷ join_with c (q ∷ ps)) l.0 (ne, join_with-Lacks c d (q ∷ ps) ne l.1)

no_commas : (rs : List Text) → All (λ r. Lacks b',' r × Lacks b':' r) rs → All (Lacks b',') rs
no_commas [] h = tt
no_commas (r ∷ rs) h = (h.0.0, no_commas rs h.1)

no_colons : (rs : List Text) → All (λ r. Lacks b',' r × Lacks b':' r) rs → All (Lacks b':') rs
no_colons [] h = tt
no_colons (r ∷ rs) h = (h.0.1, no_colons rs h.1)

-- On plain questions the key tells everything.
pub key-injective : (p q : Question) → IsPlain p → IsPlain q → key p ≡ key q → p ≡ q
unfolding make_cache_key
key-injective p q hp hq h =
    let colon_free = λ (r : Question) (w : IsPlain r).
      join_with-Lacks b',' b':' r.roles (omega arith) (no_colons r.roles w.role_texts) in
    let (joined, rest) =
      cut b':' (join_with b',' p.roles) (join_with b',' q.roles) (p.action ++ b':' ∷ p.resource)
        (q.action ++ b':' ∷ q.resource) (colon_free p hp) (colon_free q hq) h in
    let (same_action, same_resource) =
      cut b':' p.action q.action p.resource q.resource hp.action_text hq.action_text rest in
    let same_roles =
      join_with-injective b',' p.roles q.roles hp.has_roles hq.has_roles
        (no_commas p.roles hp.role_texts) (no_commas q.roles hq.role_texts) joined in
    λ i. record { roles = same_roles i; action = same_action i; resource = same_resource i }

-- A colon may stand in the action or in the resource.
pub make_cache_key-shift :
    (roles : List Text) (a b c : Text)
    → make_cache_key roles a (b ++ b':' ∷ c) ≡ make_cache_key roles (a ++ b':' ∷ b) c
unfolding make_cache_key
make_cache_key-shift roles a b c =
    ap (λ t. join_with b',' roles ++ b':' ∷ t) (sym (append_assoc a (b':' ∷ b) (b':' ∷ c)))
