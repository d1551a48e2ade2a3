-- ===== src/Sync/Pages.antt =====
-- The pages of the users and the events of each: aegis/internal/grpc/sync_auth.go.
use mathlib.Core.List.{append_assoc}
use mathlib.Core.Path.{subst}
use abraxis.Base.{
  ℕ, zero, suc, ◌+◌, ◌-◌, ◌*◌, ◌<◌, ◌≡◌, refl, sym, ap, ◌∙◌, Text, false, List, [], ◌∷◌, ◌++◌,
  length, length-append, take, drop, ltb, arith,
}
use abraxis.Sync.Server.{User, AuthEvent, user_roles, Message}

abbrev pub contents : List Message → List AuthEvent
contents [] = []
contents (m ∷ ms) = m.content ∷ contents ms

-- One event for each tenant in which the user has a role.
abbrev pub pairs : Text → List (Text × Text) → List AuthEvent
pairs id [] = []
pairs id ((tenant, role) ∷ m) = user_roles id tenant (role ∷ []) [] ∷ pairs id m

abbrev pub all_pairs : List User → List AuthEvent
all_pairs [] = []
all_pairs (u ∷ us) = pairs u.id u.roles ++ all_pairs us

pub contents-append : (a b : List Message) → contents (a ++ b) ≡ contents a ++ contents b
contents-append [] b = refl
contents-append (m ∷ a) b = cc (contents-append a b)

all_pairs-append : (us vs : List User) → all_pairs (us ++ vs) ≡ all_pairs us ++ all_pairs vs
all_pairs-append [] vs = refl
all_pairs-append (u ∷ us) vs =
    ap (λ l. pairs u.id u.roles ++ l) (all_pairs-append us vs)
    ∙ sym (append_assoc (pairs u.id u.roles) (all_pairs us) (all_pairs vs))

module _ {ℓ} {A : Type ℓ} where
  take-append-drop : (n : ℕ) (xs : List A) → take n xs ++ drop n xs ≡ xs
  take-append-drop zero xs = refl
  take-append-drop (suc n) [] = refl
  take-append-drop (suc n) (x ∷ xs) = cc (take-append-drop n xs)

  drop_nil : (n : ℕ) → drop {A = A} n [] ≡ []
  drop_nil zero = refl
  drop_nil (suc n) = refl

  drop-drop : (m n : ℕ) (xs : List A) → drop m (drop n xs) ≡ drop (n + m) xs
  drop-drop m zero xs = ap (λ k. drop k xs) (omega arith)
  drop-drop m (suc n) [] = drop_nil m ∙ sym (drop_nil (suc n + m))
  drop-drop m (suc n) (x ∷ xs) = drop-drop m n xs ∙ ap (λ k. drop k (x ∷ xs)) suc_first
    where
      suc_first : suc (n + m) ≡ suc n + m
      suc_first = omega arith

  pub length-drop : (n : ℕ) (xs : List A) → length (drop n xs) ≡ length xs - n
  length-drop zero xs = omega arith
  length-drop (suc n) [] = omega arith
  length-drop (suc n) (x ∷ xs) = omega (arith, length-drop n xs)

  pub take_short : (n : ℕ) (xs : List A) → length (take n xs) < n → take n xs ≡ xs
  take_short zero xs h = absurd (omega arith)
  take_short (suc n) [] h = refl
  take_short (suc n) (x ∷ xs) h = cc (take_short n xs (omega arith))

-- The next page, and what is left of the users after a full one.
pub next_page :
    (users : List User) (page size : ℕ)
    → drop size (drop (page * size) users) ≡ drop ((page + 1) * size) users
next_page users page size =
    drop-drop size (page * size) users ∙ ap (λ k. drop k users) (grind arith)

pub pages_left :
    (users : List User) (page size fuel : ℕ)
    → ltb (length (take size (drop (page * size) users))) size ≡ false
    → length (drop (page * size) users) < size * suc fuel
    → length (drop ((page + 1) * size) users) < size * fuel
pages_left users page size fuel full h =
    let rest = drop (page * size) users in
    let split : length (take size rest) + length (drop size rest) ≡ length rest =
      sym (length-append (take size rest) (drop size rest))
      ∙ ap length (take-append-drop size rest) in
    subst (λ l. length l < size * fuel) (next_page users page size) (grind arith)

-- Two parts of the users, one after the other.
pub joined :
    (before sent last : List AuthEvent) (size : ℕ) (rest : List User)
    → sent ≡ before ++ all_pairs (take size rest)
    → last ≡ sent ++ all_pairs (drop size rest)
    → last ≡ before ++ all_pairs rest
joined before sent last size rest p q =
    q
    ∙ ap (λ l. l ++ all_pairs (drop size rest)) p
    ∙ append_assoc before (all_pairs (take size rest)) (all_pairs (drop size rest))
    ∙ ap (λ l. before ++ l)
        (sym (all_pairs-append (take size rest) (drop size rest))
          ∙ ap all_pairs (take-append-drop size rest))
