-- ===== src/Proxy/Json/Find.antt =====
-- What is found in a map that was changed.
use Prim.Native.String.{String}
use g_sandbox.Base.{◌≡◌, Bool, none, some, if◌then◌else◌, arith}
use text.Mathlib.Text.{◌==◌}
use text.Mathlib.TextEquality.{eq_iff}
use g_sandbox.Proxy.Json.{Json, Fields, no_fields, field, find, drop_where, put_field}

-- A key that is dropped is not found, any other is found as before.
pub find-drop_where :
    (k : String) (p : String → Bool) (m : Fields)
    → find k (drop_where p m) ≡ (if p k then none else find k m)
unfolding find drop_where
find-drop_where k p no_fields = ground arith
find-drop_where k p (field j v m) = ground (arith, eq_iff j k, find-drop_where k p m)

-- A key that was set has its value, any other has what it had.
pub find-put_field :
    (k j : String) (v : Json) (m : Fields)
    → find k (put_field j v m) ≡ (if j == k then some v else find k m)
unfolding find put_field
find-put_field k j v m = ground (arith, eq_iff j k, eq_iff k j, find-drop_where k (λ i. i == j) m)
