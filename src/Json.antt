-- ===== src/Json.antt =====
-- The values that `encoding/json` decodes into `interface{}`, and Go's type assertions on them.
pub mod Float
use shiroclient_sdk_go.Prelude.{String, Bool, Option, none, some, List, [], ◌∷◌, map, ◌≡◌, refl, ap}
use shiroclient_sdk_go.Prelude.Dict.{Dict}
use Float.{Float64}

mutual
  pub data Value : Type 0 where
    null : Value
    bool : Bool → Value
    num : Float64 → Value
    str : String → Value
    arr : Values → Value
    obj : Members → Value

  pub data Values : Type 0 where
    nil : Values
    cons : Value → Values → Values

  pub data Members : Type 0 where
    end : Members
    member : String → Value → Members → Members

-- `[]interface{}` and `map[string]interface{}`.
abbrev pub elems : Values → List Value
elems nil = []
elems (cons v vs) = v ∷ elems vs

abbrev pub of_elems : List Value → Values
of_elems [] = nil
of_elems (v ∷ vs) = cons v (of_elems vs)

abbrev pub members : Members → Dict Value
members end = []
members (member k v ms) = (k, v) ∷ members ms

abbrev pub of_members : Dict Value → Members
of_members [] = end
of_members ((k, v) ∷ ms) = member k v (of_members ms)

-- `v.(string)`, `v.(float64)`, `v.([]interface{})`, `v.(map[string]interface{})`
abbrev pub as_string : Value → Option String
as_string (str s) = some s
as_string _ = none

abbrev pub as_float : Value → Option Float64
as_float (num f) = some f
as_float _ = none

abbrev pub as_array : Value → Option (List Value)
as_array (arr vs) = some (elems vs)
as_array _ = none

abbrev pub as_object : Value → Option (Dict Value)
as_object (obj ms) = some (members ms)
as_object _ = none

-- A list of strings as `json.Marshal` reads it.
abbrev pub strings : List String → Value
strings ss = arr (of_elems (map str ss))

pub elems-of_elems : (vs : List Value) → elems (of_elems vs) ≡ vs
elems-of_elems [] = refl
elems-of_elems (v ∷ vs) = ap (λ (l : List Value). v ∷ l) (elems-of_elems vs)

pub members-of_members : (ms : Dict Value) → members (of_members ms) ≡ ms
members-of_members [] = refl
members-of_members ((k, v) ∷ ms) = ap (λ (l : Dict Value). (k, v) ∷ l) (members-of_members ms)
