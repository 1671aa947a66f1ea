-- ===== src/Proxy/Json.antt =====
-- Decoded JSON: the values of `any` after json.Unmarshal, and `map[string]any`. A map has no order; here
-- its fields stand in a list.
pub mod Find
use Prim.Native.String.{String}
use g_sandbox.Base.{ℕ, ◌≡◌, ◌⊎◌, Bool, true, false, Option, none, some, if◌then◌else◌}
use text.Mathlib.Text.{◌==◌}

-- A number as the code tells them apart: float64 is exact on those that it accepts.
pub data Number : Type 0 where
  natural : ℕ → Number
  negative : ℕ → Number  -- `negative n` is -n-1
  fraction : Number

mutual
  pub data Json : Type 0 where
    null : Json
    boolean : Bool → Json
    number : Number → Json
    string : String → Json
    array : Items → Json
    object : Fields → Json

  pub data Items : Type 0 where
    no_items : Items
    item : Json → Items → Items

  pub data Fields : Type 0 where
    no_fields : Fields
    field : String → Json → Fields → Fields

-- `m[k]` with the comma-ok form.
unfoldable pub find : String → Fields → Option Json
find k no_fields = none
find k (field j v m) = if j == k then some v else find k m

-- `for k := range m { if p(k) { delete(m, k) } }`
unfoldable pub drop_where : (String → Bool) → Fields → Fields
drop_where p no_fields = no_fields
drop_where p (field j v m) = let rest = drop_where p m in if p j then rest else field j v rest

-- `m[k] = v`
unfoldable pub put_field : String → Json → Fields → Fields
put_field k v m = field k v (drop_where (λ j. j == k) m)

-- A key and value of a map.
abbrev pub Holds : String → Json → Fields → Type 0
Holds k v no_fields = ⊥
Holds k v (field j w m) = ((j ≡ k) × (w ≡ v)) ⊎ Holds k v m

-- A request body: its bytes end with the value, unless something trails.
pub data Body : Type 0 where
  empty_body : Body
  malformed_body : Body
  value_body : Json → (trailing : Bool) → Body

-- Members in the order of the text, into a map: of a repeated key the last one stays.
unfoldable pub decode_into : Fields → Fields → Fields
decode_into m no_fields = m
decode_into m (field k v rest) = decode_into (put_field k v m) rest

unfoldable pub decode_value : Json → Option Fields
decode_value null = some no_fields
decode_value (object m) = some (decode_into no_fields m)
decode_value _ = none

-- `json.NewDecoder(...).Decode(&m)` into a map: it stops behind the value.
unfoldable pub decode_first : Body → Option Fields
decode_first (value_body v trailing) = decode_value v
decode_first _ = none

-- `json.Unmarshal(body, &m)` into a map; on null the map stays nil.
unfoldable pub unmarshal : Body → Option Fields
unmarshal (value_body v false) = decode_value v
unmarshal _ = none
