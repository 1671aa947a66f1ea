-- ===== src/Proxy/Scrub.antt =====
-- The scrubbing of responses: internal/proxy/responsescrub.go, and `stripSealKey` of
-- internal/proxy/seal.go. Whether the bytes of a body mention a secret in quotes is a parameter: JSON may
-- spell a name with escapes, so the decoded value does not tell.
pub mod Clean
use Prim.Native.String.{String}
use package.text.Mathlib.Text.{◌==◌}
use g_sandbox.Base.{Bool, true, false, ◌||◌, Option, none, some, List, [], ◌∷◌, if◌then◌else◌}
use g_sandbox.Proxy.Text.{contains}
use g_sandbox.Proxy.Json.{
  Json, null, boolean, number, string, array, object, Items, no_items, item, Fields, field,
  no_fields, find, drop_where, put_field,
}

-- `secretResponseEnv`
abbrev pub secret_response_env : List String
secret_response_env = "SANDBOX_SEAL_KEY" ∷ "SEAL_BOOT_TICKET" ∷ []

abbrev pub is_secret : String → Bool
is_secret k = contains k secret_response_env

-- `deleteSecretEnv`, and whether it deletes any.
unfoldable pub delete_secret_env : Fields → Fields
delete_secret_env env = drop_where is_secret env

unfoldable pub has_secret : Fields → Bool
has_secret no_fields = false
has_secret (field k v env) = is_secret k || has_secret env

-- An object with its env scrubbed in place.
unfoldable pub scrub_object : Fields → Option Json → Json
scrub_object m (some (object env)) = object (put_field "env" (object (delete_secret_env env)) m)
scrub_object m _ = object m

-- `scrubSealKeyInValue`: the value as it is changed in place.
unfoldable mutual
  pub scrub_value : Json → Json
  scrub_value (object m) = scrub_object m (find "env" m)
  scrub_value (array xs) = array (scrub_items xs)
  scrub_value null = null
  scrub_value (boolean b) = boolean b
  scrub_value (number n) = number n
  scrub_value (string s) = string s

  pub scrub_items : Items → Items
  scrub_items no_items = no_items
  scrub_items (item v xs) = item (scrub_value v) (scrub_items xs)

-- The result of `scrubSealKeyInValue`: whether it deletes anything.
unfoldable pub deletes_from : Option Json → Bool
deletes_from (some (object env)) = has_secret env
deletes_from _ = false

unfoldable mutual
  pub deletes : Json → Bool
  deletes (object m) = deletes_from (find "env" m)
  deletes (array xs) = deletes_items xs
  deletes null = false
  deletes (boolean b) = false
  deletes (number n) = false
  deletes (string s) = false

  pub deletes_items : Items → Bool
  deletes_items no_items = false
  deletes_items (item v xs) = deletes v || deletes_items xs

-- `scrubSealKeyFromBody`, of a body as what it decodes to, `none` if it is no JSON: the value of the
-- body that is returned.
unfoldable pub scrub_seal_key_from_body : (is_mentioned : Bool) → Option Json → Option Json
scrub_seal_key_from_body false body = body
scrub_seal_key_from_body true none = none
scrub_seal_key_from_body true (some v) = if deletes v then some (scrub_value v) else some v

-- `stripSealKey` of a decoded object
unfoldable pub strip_seal_key : Fields → Json
strip_seal_key m = scrub_object m (find "env" m)
