-- ===== src/Authz/Value.antt =====
-- The inputs of policies as decoded JSON, and the paths into them: `splitPath`, `getNestedValue`,
-- `setNestedValue` of authz/helper.go and `filterInputFields` of authz/agent.go.
use abraxis.Base.{Text, Bool, Option, none, some, List, [], ◌∷◌, split_on, text_eq, if◌then◌else◌}

-- `interface{}` as `encoding/json` fills it. A number is kept as the text that `%v` prints for it.
mutual
  pub data Value : Type 0 where
    null : Value
    boolean : Bool → Value
    number : Text → Value
    string : Text → Value
    array : Items → Value
    object : Fields → Value

  pub data Items : Type 0 where
    nil : Items
    cons : Value → Items → Items

  pub data Fields : Type 0 where
    end : Fields
    field : Text → Value → Fields → Fields

-- `m[key]` of a `map[string]interface{}`.
unfoldable pub find_field : Text → Fields → Option Value
find_field key end = none
find_field key (field k v m) = if text_eq k key then some v else find_field key m

-- `m[key] = value`
unfoldable pub put_field : Text → Value → Fields → Fields
put_field key v end = field key v end
put_field key v (field k w m) =
    let rest = put_field key v m in if text_eq k key then field key v m else field k w rest

-- `splitPath`
unfoldable pub split_path : Text → List Text
split_path path = split_on b'.' path

-- `getNestedValue`; `none` is the untyped nil, which a JSON null is too.
unfoldable pub get_nested_value : Fields → List Text → Option Value
get_nested_value m [] = none
get_nested_value m (p ∷ []) = elim (find_field p m) [
  | none ↦ none
  | some v ↦ elim v [ null ↦ none | other ↦ some other ]
]
get_nested_value m (p ∷ q ∷ ps) = elim (find_field p m) [
  | none ↦ none
  | some v ↦ elim v [ object nested ↦ get_nested_value nested (q ∷ ps) | _ ↦ none ]
]

-- The map that stands at a key, or the empty one that takes its place.
unfoldable pub nested_map : Option Value → Fields
nested_map (some (object nested)) = nested
nested_map _ = end

-- `setNestedValue`; the maps below the top are those of the given map, changed in place.
unfoldable pub set_nested_value : List Text → Value → Fields → Fields
set_nested_value [] v m = m
set_nested_value (p ∷ []) v m = put_field p v m
set_nested_value (p ∷ q ∷ ps) v m =
    put_field p (object (set_nested_value (q ∷ ps) v (nested_map (find_field p m)))) m

-- The loop of `filterInputFields`.
unfoldable pub filter_fields : Fields → List Text → Fields → Fields
filter_fields m [] filtered = filtered
filter_fields m (f ∷ fs) filtered = filter_fields m fs (elim (get_nested_value m (split_path f)) [
  | none ↦ filtered
  | some v ↦ set_nested_value (split_path f) v filtered
])

-- `filterInputFields`
unfoldable pub filter_input_fields : Value → List Text → Value
filter_input_fields (object m) fields = object (filter_fields m fields end)
filter_input_fields v fields = v
