-- ===== src/Sessions/Trust.antt =====
-- When a token that was signed is valid: aegis/internal/domain/jwt.go and jwks.go.

use abraxis.Base.{
  ℕ, ◌*◌, ◌≤◌, ◌<◌, ◌≡◌, ap, ◌∙◌, Text, bytes, false, Option, some, List, [], ◌∷◌, is_empty,
  text_eq, lookup, lookup-insert, arith,
}
use abraxis.Sessions.Tokens.{
  Claims, SigningKey, KeyManager, Jwt, TokenManager, valid, second, find_public_key, rotate_key,
  key_of, checked, signed, validate_token,
}

-- What is documented of the library of tokens: a token is read back by the public key of the private key that
-- signed it, from its not-before time on and before its expiry.
pub record Trusted (jwt : Jwt) (public_of : Text → Text) : Type 0 where
  pub read_back :
      (now : ℕ) (f : Text → Option Text → Option Text) (kid private_key t : Text) (c : Claims)
      (e n : ℕ)
      → jwt.sign kid private_key c ≡ some t
      → f (bytes "EdDSA") (some kid) ≡ some (public_of private_key)
      → c.expires_at ≡ some e
      → c.not_before ≡ some n
      → n * second ≤ now
      → now < e * second
      → jwt.parse now f t ≡ some c

-- The key manager knows the key, by its id.
pub record Knows (public_of : Text → Text) (key : SigningKey) (km : KeyManager) : Type 0 where
  pub listed : lookup key.kid km.keys ≡ some key
  pub named : is_empty key.kid ≡ false
  pub pair : key.public_key ≡ public_of key.private_key

-- The key manager after some rotations.
unfoldable pub rotated : List SigningKey → KeyManager → KeyManager
rotated [] km = km
rotated (key ∷ keys) km = rotated keys (rotate_key key km)

-- No new key has the id.
abbrev pub IsNew : Text → List SigningKey → Type 0
IsNew kid [] = Unit
IsNew kid (key ∷ keys) = (text_eq key.kid kid ≡ false) × IsNew kid keys

rotated-Knows :
    (public_of : Text → Text) (key : SigningKey) (new : List SigningKey) (km : KeyManager)
    → Knows public_of key km
    → IsNew key.kid new
    → Knows public_of key (rotated new km)
unfolding rotated rotate_key
rotated-Knows public_of key [] km k fresh = k
rotated-Knows public_of key (other ∷ new) km k fresh =
    rotated-Knows public_of key new (rotate_key other km)
      (record {
        listed = lookup-insert other.kid key.kid other km.keys ∙ rw fresh.0 k.listed;
        named = k.named;
        pair = k.pair;
      })
      fresh.1

key_of-Knows :
    (public_of : Text → Text) (key : SigningKey) (km : KeyManager)
    → Knows public_of key km
    → key_of km (bytes "EdDSA") (some key.kid) ≡ some (public_of key.private_key)
unfolding key_of find_public_key text_eq
key_of-Knows public_of key km k = ground (arith, k.listed, k.named, k.pair)

-- A signed token is valid, also after rotations of the key.
pub signed-validate_token :
    {jwt : Jwt} {public_of : Text → Text} (laws : Trusted jwt public_of) (tm : TokenManager)
    (new : List SigningKey) (now e n : ℕ) (t : Text) (c : Claims)
    → Knows public_of tm.key_manager.active_key tm.key_manager
    → IsNew tm.key_manager.active_key.kid new
    → signed jwt tm c ≡ some t
    → c.expires_at ≡ some e
    → c.not_before ≡ some n
    → n * second ≤ now
    → now < e * second
    → validate_token jwt now (record tm { key_manager = rotated new tm.key_manager }) t ≡ valid c
unfolding signed validate_token
signed-validate_token {jwt} {public_of} laws tm new now e n t c k fresh made ends starts from_
      until =
    let key = tm.key_manager.active_key in
    let km = rotated new tm.key_manager in
    let parsed =
      laws.read_back now (key_of km) key.kid key.private_key t c e n made
        (key_of-Knows public_of key km (rotated-Knows public_of key new tm.key_manager k fresh))
        ends starts from_ until in
    ap (checked jwt now) parsed ∙ rw ends (ground arith)
