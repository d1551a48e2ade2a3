-- ===== src/Sessions/Names.antt =====
-- The keys of sessions name their user and session: aegis/internal/domain/session.go.
use abraxis.Base.{
  inl, inr, Bool-cases, ℕ, ◌≡◌, refl, ap, ◌∙◌, Text, bytes, List, [], ◌∷◌, ◌++◌, split_on, ◌==◌,
  arith, Lacks,
}
use abraxis.Sessions.Manager.{ok, pair_of, make_session_key, user_and_session}

-- There is always a part.
split_on-cons : (c : ℕ) (t : Text) → (p : Text) × (ps : List Text) × (split_on c t ≡ p ∷ ps)
unfolding split_on
split_on-cons c [] = ([], [], refl)
split_on-cons c (a ∷ t) =
    let (p, ps, e) = split_on-cons c t in
    elim (Bool-cases (a == c)) [
      | inl same ↦ ([], p ∷ ps, rw (e, same) refl)
      | inr other ↦ (a ∷ p, ps, rw (e, other) refl)
    ]

split_on-Lacks : (c : ℕ) (p : Text) → Lacks c p → split_on c p ≡ p ∷ []
unfolding split_on
split_on-Lacks c [] l = refl
split_on-Lacks c (a ∷ p) l = rw (split_on-Lacks c p l.1) (ground arith)

split_on-append : (c : ℕ) (p t : Text) → Lacks c p → split_on c (p ++ c ∷ t) ≡ p ∷ split_on c t
unfolding split_on
split_on-append c [] t l = let (p, ps, e) = split_on-cons c t in rw e (ground arith)
split_on-append c (a ∷ p) t l = rw (split_on-append c p t l.1) (ground arith)

-- A key is read back as its user and its session, if neither has a colon.
pub user_and_session-make_session_key :
    (user session : Text)
    → Lacks b':' user
    → Lacks b':' session
    → user_and_session (make_session_key user session) ≡ ok (user, session)
unfolding user_and_session make_session_key
user_and_session-make_session_key user session lu ls =
    let word : Lacks b':' (bytes "session") = omega arith in
    let parts : split_on b':' (make_session_key user session)
        ≡ bytes "session" ∷ user ∷ session ∷ [] =
      split_on-append b':' (bytes "session") (user ++ b':' ∷ session) word
      ∙ ap (λ ps. bytes "session" ∷ ps)
          (split_on-append b':' user session lu
            ∙ ap (λ ps. user ∷ ps) (split_on-Lacks b':' session ls)) in
    ap pair_of parts
