-- ===== src/Authz/Hash.antt =====
-- The key under which a decision is cached: `hashInput` and `normalizeForHashing` of authz/helper.go.
use abraxis.Base.{
  Text, bytes, Bool, true, false, ◌≡◌, refl, List, [], ◌∷◌, ◌++◌, map, ltb, ◌==◌, join_with,
  if◌then◌else◌, arith,
}
use mathlib.Core.List.{append_assoc}
use abraxis.Authz.Value.{
  Value, null, boolean, number, string, array, object, Items, nil, cons, Fields, end, field,
}

-- The order of Go strings.
unfoldable pub text_lt : Text → Text → Bool
text_lt s [] = false
text_lt [] (b ∷ t) = true
text_lt (a ∷ s) (b ∷ t) = let rest = text_lt s t in if a == b then rest else ltb a b

-- `sort.Strings`
unfoldable pub insert_text : Text → List Text → List Text
insert_text x [] = x ∷ []
insert_text x (y ∷ ys) = let rest = insert_text x ys in if text_lt y x then y ∷ rest else x ∷ y ∷ ys

unfoldable pub sort_texts : List Text → List Text
sort_texts [] = []
sort_texts (x ∷ xs) = insert_text x (sort_texts xs)

-- The fields in the order of their keys.
unfoldable pub insert_field : Text × Text → List (Text × Text) → List (Text × Text)
insert_field x [] = x ∷ []
insert_field x (y ∷ ys) =
    let rest = insert_field x ys in if text_lt y.0 x.0 then y ∷ rest else x ∷ y ∷ ys

unfoldable pub sort_fields : List (Text × Text) → List (Text × Text)
sort_fields [] = []
sort_fields (x ∷ xs) = insert_field x (sort_fields xs)

abbrev pub render_field : Text × Text → Text
render_field f = f.0 ++ (b':' ∷ f.1)

-- `normalizeForHashing` on decoded JSON, where it does not fail.
unfoldable mutual
  pub normalize : Value → Text
  normalize null = bytes "null"
  normalize (boolean b) = if b then bytes "true" else bytes "false"
  normalize (number t) = t
  normalize (string s) = s
  normalize (array xs) = b'[' ∷ (join_with b',' (sort_texts (normalize_items xs)) ++ (b']' ∷ []))
  normalize (object fs) =
      b'{' ∷ (join_with b',' (map render_field (sort_fields (normalize_fields fs))) ++ (b'}' ∷ []))

  pub normalize_items : Items → List Text
  normalize_items nil = []
  normalize_items (cons x xs) = normalize x ∷ normalize_items xs

  pub normalize_fields : Fields → List (Text × Text)
  normalize_fields end = []
  normalize_fields (field k v fs) = (k, normalize v) ∷ normalize_fields fs

-- `hashInput`, over the digest in hexadecimal.
unfoldable pub hash_input : (Text → Text) → Text → Value → Text
hash_input digest query_path input = digest (query_path ++ (b':' ∷ normalize input))

text_lt_asym : (s t : Text) → text_lt s t ≡ true → text_lt t s ≡ false
unfolding text_lt
text_lt_asym s [] h = cc
text_lt_asym [] (b ∷ t) h = refl
text_lt_asym (a ∷ s) (b ∷ t) h = ground (arith, text_lt_asym s t)

text_lt_trans : (s t u : Text) → text_lt s t ≡ true → text_lt t u ≡ true → text_lt s u ≡ true
unfolding text_lt
text_lt_trans s [] u h k = cc
text_lt_trans s (b ∷ t) [] h k = cc
text_lt_trans [] (b ∷ t) (c ∷ u) h k = refl
text_lt_trans (a ∷ s) (b ∷ t) (c ∷ u) h k = ground (arith, text_lt_trans s t u)

text_lt_total : (s t : Text) → text_lt s t ≡ false → text_lt t s ≡ false → s ≡ t
unfolding text_lt
text_lt_total [] [] h k = refl
text_lt_total [] (b ∷ t) h k = cc
text_lt_total (a ∷ s) [] h k = cc
text_lt_total (a ∷ s) (b ∷ t) h k = ground (arith, text_lt_total s t)

insert_text_comm :
    (x y : Text) (l : List Text) → insert_text x (insert_text y l) ≡ insert_text y (insert_text x l)
unfolding insert_text
insert_text_comm x y [] = ground (arith, text_lt_asym x y, text_lt_asym y x, text_lt_total x y)
insert_text_comm x y (z ∷ l) = ground (
  arith,
  insert_text_comm x y l,
  text_lt_asym x y,
  text_lt_asym y x,
  text_lt_total x y,
  text_lt_total x z,
  text_lt_total y z,
  text_lt_trans x y z,
  text_lt_trans y x z,
  text_lt_trans z x y,
  text_lt_trans z y x,
  text_lt_trans x z y,
  text_lt_trans y z x,
  text_lt_asym x z,
  text_lt_asym y z,
)

-- The key does not tell the order of an array: inputs that differ by a swap of two neighbouring
-- items of an array have the same key, for every query and every digest.
hash_input-swap :
    (digest : Text → Text) (query_path : Text) (x y : Value) (xs : Items)
    → hash_input digest query_path (array (cons x (cons y xs)))
      ≡ hash_input digest query_path (array (cons y (cons x xs)))
unfolding hash_input normalize sort_texts
hash_input-swap digest query_path x y xs =
    rw (insert_text_comm (normalize x) (normalize y) (sort_texts (normalize_items xs))) refl

-- A comma or a colon inside a string is not told from one between fields: one field whose string
-- spells out a second field has the key of the two fields, the keys being in order.
pub hash_input-fields :
    (digest : Text → Text) (query_path k1 k2 s1 s2 : Text)
    → text_lt k2 k1 ≡ false
    → hash_input digest query_path
        (object (field k1 (string (s1 ++ (b',' ∷ (k2 ++ (b':' ∷ s2))))) end))
      ≡ hash_input digest query_path (object (field k1 (string s1) (field k2 (string s2) end)))
unfolding hash_input normalize sort_fields insert_field join_with
hash_input-fields digest query_path k1 k2 s1 s2 h = rw h (simp append_assoc)
