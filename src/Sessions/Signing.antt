-- ===== src/Sessions/Signing.antt =====
-- A form of tokens for the runs of logins: it signs the two tokens of one login.
use abraxis.Base.{
  ℕ, ◌≡◌, refl, ap, ◌∙◌, Text, bytes, Bool, true, false, ◌&&◌, ◌==◌, Option, none, some, List, [],
  ◌∷◌, text_eq, eq_of_text_eq, inl, inr, Bool-cases, arith, if◌then◌else◌,
}
use abraxis.Sessions.Tokens.{RoleMap, Claims, Jwt}
use abraxis.Sessions.Trust.{Trusted}

abbrev pub tag : Option RoleMap → ℕ
tag none = 0
tag (some []) = 1
tag (some (_ ∷ _)) = 2

tag-eq : (a : Option RoleMap) → (tag a == 0) ≡ true → none ≡ a
tag-eq none h = refl
tag-eq (some []) h = absurd (ground arith)
tag-eq (some (_ ∷ _)) h = absurd (ground arith)

tag_one-eq : (a : Option RoleMap) → (tag a == 1) ≡ true → some [] ≡ a
tag_one-eq none h = absurd (ground arith)
tag_one-eq (some []) h = refl
tag_one-eq (some (_ ∷ _)) h = absurd (ground arith)

abbrev pub is_number : ℕ → Option ℕ → Bool
is_number n none = false
is_number n (some k) = n == k

number-eq : (n : ℕ) (a : Option ℕ) → is_number n a ≡ true → some n ≡ a
number-eq n none h = absurd cc
number-eq n (some k) h = let e : n ≡ k = ground arith in ap some e

abbrev pub no_texts : List Text → Bool
no_texts [] = true
no_texts (_ ∷ _) = false

no_texts-eq : (ts : List Text) → no_texts ts ≡ true → [] ≡ ts
no_texts-eq [] h = refl
no_texts-eq (t ∷ ts) h = absurd cc

-- Claims without roles, but for the map, and without an audience.
abbrev pub claims : ℕ → Text → Option RoleMap → Claims
claims expiry type roles = record {
  id = bytes "j";
  issuer = bytes "aegis";
  subject = bytes "usr_a";
  audience = [];
  expires_at = some expiry;
  issued_at = some 5;
  not_before = some 5;
  token_type = type;
  roles = roles;
  session_id = bytes "s1";
  auth_provider = bytes "password";
  oauth_refresh_token = [];
  oauth_provider = [];
}

abbrev pub same_claims : ℕ → Text → (Option RoleMap → Bool) → Claims → Bool
same_claims expiry type roles c =
    text_eq (bytes "j") c.id
    && text_eq (bytes "aegis") c.issuer
    && text_eq (bytes "usr_a") c.subject
    && no_texts c.audience
    && is_number expiry c.expires_at
    && is_number 5 c.issued_at
    && is_number 5 c.not_before
    && text_eq type c.token_type
    && roles c.roles
    && text_eq (bytes "s1") c.session_id
    && text_eq (bytes "password") c.auth_provider
    && text_eq [] c.oauth_refresh_token
    && text_eq [] c.oauth_provider

same_claims-eq :
    (expiry : ℕ) (type : Text) (roles : Option RoleMap → Bool) (m : Option RoleMap)
    → ((o : Option RoleMap) → roles o ≡ true → m ≡ o)
    → (c : Claims) → same_claims expiry type roles c ≡ true
    → claims expiry type m ≡ c
same_claims-eq expiry type roles m map-eq c h =
    let a = eq_of_text_eq (bytes "j") c.id (ground arith) in
    let b = eq_of_text_eq (bytes "aegis") c.issuer (ground arith) in
    let d = eq_of_text_eq (bytes "usr_a") c.subject (ground arith) in
    let e = no_texts-eq c.audience (ground arith) in
    let f = number-eq expiry c.expires_at (ground arith) in
    let g = number-eq 5 c.issued_at (ground arith) in
    let k = number-eq 5 c.not_before (ground arith) in
    let l = eq_of_text_eq type c.token_type (ground arith) in
    let n = map-eq c.roles (ground arith) in
    let o = eq_of_text_eq (bytes "s1") c.session_id (ground arith) in
    let p = eq_of_text_eq (bytes "password") c.auth_provider (ground arith) in
    let q = eq_of_text_eq [] c.oauth_refresh_token (ground arith) in
    let r = eq_of_text_eq [] c.oauth_provider (ground arith) in
    λ i. record {
      id = a i;
      issuer = b i;
      subject = d i;
      audience = e i;
      expires_at = f i;
      issued_at = g i;
      not_before = k i;
      token_type = l i;
      roles = n i;
      session_id = o i;
      auth_provider = p i;
      oauth_refresh_token = q i;
      oauth_provider = r i;
    }

abbrev pub is_access : Claims → Bool
is_access = same_claims 65 (bytes "access_token") (λ m. tag m == 1)

abbrev pub is_refresh : Claims → Bool
is_refresh = same_claims 605 (bytes "refresh_token") (λ m. tag m == 0)

abbrev pub first_key : Text
first_key = bytes "k1"

abbrev pub issued : Text → Claims → Option Text
issued kid c =
    if text_eq first_key kid
    then (if is_access c
        then some (bytes "A")
        else (if is_refresh c then some (bytes "R") else none))
    else none

abbrev pub known_token : Text → Option Claims
known_token t =
    if text_eq t (bytes "A")
    then some (claims 65 (bytes "access_token") (some []))
    else (if text_eq t (bytes "R") then some (claims 605 (bytes "refresh_token") none) else none)

abbrev pub when_found : Option Text → Option Claims → Option Claims
when_found none c = none
when_found (some _) c = c

abbrev pub jwt : Jwt
jwt = record {
  sign = λ kid key c. issued kid c;
  parse = λ now f t. when_found (f (bytes "EdDSA") (some first_key)) (known_token t);
}

known_token-issued :
    (kid t : Text) (c : Claims)
    → issued kid c ≡ some t
    → (first_key ≡ kid) × (known_token t ≡ some c)
unfolding text_eq
known_token-issued kid t c e = elim (Bool-cases (text_eq first_key kid)) [
  | inr other ↦ absurd (ground arith)
  | inl same ↦ elim (Bool-cases (is_access c)) [
    | inl a ↦
        let as_t : t ≡ bytes "A" = ground arith in
        (
          eq_of_text_eq first_key kid same,
          rw as_t (
              ap some (
                same_claims-eq 65 (bytes "access_token") (λ m. tag m == 1) (some []) tag_one-eq c
                  a)),
        )
    | inr not_a ↦ elim (Bool-cases (is_refresh c)) [
      | inl r ↦
          let as_t : t ≡ bytes "R" = ground arith in
          (
            eq_of_text_eq first_key kid same,
            rw as_t (
                ap some
                  (same_claims-eq 605 (bytes "refresh_token") (λ m. tag m == 0) none tag-eq c r)),
          )
      | inr not_r ↦ absurd (ground arith)
    ]
  ]
]

abbrev pub public_of : Text → Text
public_of key = bytes "pub"

pub jwt-Trusted : Trusted jwt public_of
jwt-Trusted = record {
  read_back = λ now f kid key t c e n made public ends starts from_ until.
      let (same, known) = known_token-issued kid t c made in
      let given : f (bytes "EdDSA") (some first_key) ≡ some (bytes "pub") = rw same public in
      ap (λ o. when_found o (known_token t)) given ∙ known;
}
