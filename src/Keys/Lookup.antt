-- ===== src/Keys/Lookup.antt =====
-- `ExtractKeyPrefixForLookup` and `Validate` of prism/internal/domain/api_key.go: equations and proofs.
use abraxis.Base.{
  ℕ, ◌≤◌, ◌<◌, ◌≡◌, ◌⊎◌, ◌↔◌, inl, inr, refl, sym, ◌∙◌, Text, true, none, some, [], ◌∷◌, ◌++◌,
  length, take, leb, text_eq_iff, has_prefix, if◌then◌else◌, arith, Bool-cases,
}
use abraxis.Keys.ApiKey.{
  ApiKey, too_short, ok, err, after_underscore, extract_key_prefix_for_lookup, Generated,
  generate_api_key, verify, validate, api_key_prefix,
}

-- The three bytes of the prefix, and what follows them.
prefix_split :
    (raw : Text)
    → has_prefix raw api_key_prefix ≡ true
    → (key : Text) × (raw ≡ api_key_prefix ++ key)
unfolding has_prefix
prefix_split [] h = cc
prefix_split (a ∷ []) h = ground arith
prefix_split (a ∷ b ∷ []) h = ground arith
prefix_split (a ∷ b ∷ c ∷ key) h = (key, ground arith)

-- The prefix that a lookup of a key with this encoded part uses.
extract_prefixed :
    (key : Text)
    → extract_key_prefix_for_lookup (api_key_prefix ++ key)
      ≡ (if leb (length key) 8 then err too_short else ok (api_key_prefix ++ take 8 key))
unfolding extract_key_prefix_for_lookup has_prefix after_underscore
extract_prefixed key = refl

-- A generated key is looked up under the prefix that was stored for it, whatever its encoded part of
-- more than eight characters, underscores included.
pub generate-extract :
    (hash_api_key : Text → Text) (key : Text) (g : Generated)
    → 8 < length key
    → generate_api_key hash_api_key (some key) ≡ ok g
    → extract_key_prefix_for_lookup g.raw_key ≡ ok g.prefix
unfolding generate_api_key
generate-extract hash_api_key key g h e = ground (arith, extract_prefixed key)

extract_prefixed_iff :
    (key p : Text)
    → (extract_key_prefix_for_lookup (api_key_prefix ++ key) ≡ ok p) ↔ (
        (has_prefix (api_key_prefix ++ key) api_key_prefix ≡ true)
        × (11 < length (api_key_prefix ++ key))
        × (p ≡ take 11 (api_key_prefix ++ key)))
unfolding has_prefix
extract_prefixed_iff key p =
    rw (extract_prefixed key)
      (λ h. (refl, ground arith, ground arith), λ h. ground (arith, h.1, h.2))

-- A lookup succeeds exactly on a text that starts with `ak_` and has more than eight characters
-- after it; it then uses the first eleven characters.
extract_iff :
    (raw p : Text)
    → (extract_key_prefix_for_lookup raw ≡ ok p)
      ↔ ((has_prefix raw api_key_prefix ≡ true) × (11 < length raw) × (p ≡ take 11 raw))
unfolding extract_key_prefix_for_lookup
extract_iff raw p = elim (Bool-cases (has_prefix raw api_key_prefix)) [
  | inl starts ↦ let (key, e) = prefix_split raw starts in rw e (extract_prefixed_iff key p)
  | inr other ↦
      (λ h. cc (rw (other, extract_key_prefix_for_lookup) at h), λ h. cc (sym (h.0) ∙ other))
]

-- A key is accepted exactly if it is active, has no expiry or one that is not past, and the stored
-- hash is that of the presented text.
pub validate_iff :
    (hash_api_key : Text → Text) (a : ApiKey) (raw : Text) (now : ℕ)
    → (validate hash_api_key a raw now ≡ none) ↔ (
        (a.is_active ≡ true)
        × ((a.expires_at ≡ 0) ⊎ (now ≤ a.expires_at))
        × (hash_api_key raw ≡ a.key_hash))
unfolding validate verify
validate_iff hash_api_key a raw now = (
  λ h. (ground arith, ground arith, ground (arith, text_eq_iff (hash_api_key raw) a.key_hash)),
  λ h. ground (arith, h.0, h.1, h.2, text_eq_iff (hash_api_key raw) a.key_hash),
)
