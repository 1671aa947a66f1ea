-- ===== src/Proxy/Owner.antt =====
-- The rewriting of request bodies: internal/proxy/owner.go, and `extractSealed`, `createField` and
-- `setCreateField` of internal/proxy/handler.go. A body is decoded and encoded by encoding/json; the
-- functions here go from the one decoded value to the other.
pub mod Names
pub mod Inject
pub mod Labels
use Prim.Native.String.{String, ◌++◌}
use package.text.Mathlib.Text.{◌==◌}
use g_sandbox.Base.{
  Bool, true, false, ◌&&◌, ◌||◌, not, Option, none, some, List, [], ◌∷◌, if◌then◌else◌,
}
use g_sandbox.Proxy.Text.{Folding, equal_fold}
use g_sandbox.Proxy.Json.{
  Json, null, boolean, number, natural, negative, array, no_items, item, object, string, Fields,
  no_fields, field, find, drop_where, put_field, Body, empty_body, value_body, unmarshal,
  decode_first,
}

abbrev pub owner_label : String
owner_label = "daytona-owner"

abbrev pub sealed_label : String
sealed_label = "0g-sealed"

abbrev pub image_label : String
image_label = "0g-image"

-- The struct decode of `extractSealed`: the last Boolean under a key that folds to "sealed".
unfoldable pub sealed_of : Folding → Bool → Fields → Bool
sealed_of fold sealed no_fields = sealed
sealed_of fold sealed (field k (boolean b) m) =
    sealed_of fold (if equal_fold fold k "sealed" then b else sealed) m
sealed_of fold sealed (field k v m) = sealed_of fold sealed m

-- `extractSealed`
unfoldable pub extract_sealed : Folding → Body → Bool
extract_sealed fold (value_body (object m) trailing) = sealed_of fold false m
extract_sealed fold _ = false

-- A type assertion to a string; empty if it fails.
unfoldable pub as_string : Option Json → String
as_string (some (string s)) = s
as_string _ = ""

-- `createField`; a null or absent field, or one of another type, is empty.
unfoldable pub create_field : Body → String → String
create_field b key = elim (decode_first b) [ none ↦ "" | some m ↦ as_string (find key m) ]

-- A type assertion to a map, and a new map if it fails.
unfoldable pub as_map : Option Json → Fields
as_map (some (object m)) = m
as_map _ = no_fields

-- How a rewriting ends; an assignment to a nil map panics.
pub data Rewritten : Type 0 where
  rewritten : Fields → Rewritten
  body_error : Rewritten
  panics : Rewritten

-- The labels that `InjectOwner` forwards.
unfoldable pub inject_labels : String → Bool → Fields → Fields → Fields
inject_labels wallet sealed m labels =
    let owned = put_field owner_label (string wallet) labels in
    let marked = if sealed then put_field sealed_label (string "true") owned else owned in
    if not (as_string (find "image" m) == "")
    then put_field image_label (string (as_string (find "image" m))) marked
    else if not (as_string (find "snapshot" m) == "")
    then put_field image_label (string ("snapshot:" ++ as_string (find "snapshot" m))) marked
    else marked

-- The caller's publicPorts, under the exact key, unless null.
unfoldable pub public_ports : Option Json → Option Json
public_ports none = none
public_ports (some null) = none
public_ports (some v) = some v

abbrev pub agent_port_only : Json
agent_port_only = array (item (number (natural 8080)) no_items)

-- The derived "public" and "publicPorts".
unfoldable pub expose : Option Json → Bool → Fields → Fields
expose (some ports) sealed m = put_field "publicPorts" ports (put_field "public" (boolean true) m)
expose none true m = put_field "publicPorts" agent_port_only (put_field "public" (boolean true) m)
expose none false m = put_field "public" (boolean false) m

abbrev pub is_exposure : Folding → String → Bool
is_exposure fold k = equal_fold fold k "publicPorts" || equal_fold fold k "public"

abbrev pub is_interval : Folding → String → Bool
is_interval fold k =
    equal_fold fold k "autoStopInterval"
    || equal_fold fold k "autoArchiveInterval"
    || equal_fold fold k "autoDeleteInterval"

unfoldable pub pin_intervals : Fields → Fields
pin_intervals m = put_field "autoDeleteInterval" (number (negative 0)) (
    put_field "autoArchiveInterval" (number (natural 60))
      (put_field "autoStopInterval" (number (natural 0)) m))

-- `InjectOwner` behind the decoding.
unfoldable pub inject_fields : Folding → String → Bool → Fields → Fields
inject_fields fold wallet sealed m =
    let unsealed = drop_where (λ k. equal_fold fold k "sealed") m in
    let bare = drop_where (λ k. equal_fold fold k "volumes") unsealed in
    let labels = inject_labels wallet sealed bare (as_map (find "labels" m)) in
    let labelled = put_field "labels" (object labels) bare in
    let hidden = drop_where (is_exposure fold) labelled in
    let exposed = expose (public_ports (find "publicPorts" labelled)) sealed hidden in
    pin_intervals (drop_where (is_interval fold) exposed)

-- `InjectOwner`
unfoldable pub inject_owner : Folding → Body → String → Rewritten
inject_owner fold empty_body wallet = rewritten (inject_fields fold wallet false no_fields)
inject_owner fold (value_body null false) wallet = panics
inject_owner fold b wallet = elim (unmarshal b) [
  | none ↦ body_error
  | some m ↦ rewritten (inject_fields fold wallet (extract_sealed fold b) m)
]

-- `setCreateField` behind the decoding.
unfoldable pub set_create_field : String → String → Fields → Fields
set_create_field key value m = put_field key (string value) m

abbrev pub is_protected : Folding → String → Bool
is_protected fold k = equal_fold fold k owner_label || equal_fold fold k sealed_label

unfoldable pub restore : String → Option String → Fields → Fields
restore key none labels = labels
restore key (some v) labels = put_field key (string v) labels

-- `MergeProtectedLabels` behind the decoding; `current` has the sandbox's labels.
unfoldable pub merge_fields : Folding → (String → Option String) → Fields → Fields
merge_fields fold current m =
    let top = drop_where (is_protected fold) m in
    let labels = drop_where (is_protected fold) (as_map (find "labels" top)) in
    let owned = restore owner_label (current owner_label) labels in
    put_field "labels" (object (restore sealed_label (current sealed_label) owned)) top

-- `MergeProtectedLabels`
unfoldable pub merge_protected_labels : Folding → Body → (String → Option String) → Rewritten
merge_protected_labels fold (value_body null false) current = panics
merge_protected_labels fold b current = elim (unmarshal b) [
  | none ↦ body_error
  | some m ↦ rewritten (merge_fields fold current m)
]

-- `CheckOwner`, of a sandbox that was found or not.
unfoldable pub check_owner : Folding → Option (String → Option String) → String → Bool
check_owner fold none wallet = false
check_owner fold (some labels) wallet = elim (labels owner_label) [
  | none ↦ false
  | some owner ↦ equal_fold fold owner wallet
]

-- `IsSealedSandbox`
unfoldable pub is_sealed_sandbox : (String → Option String) → Bool
is_sealed_sandbox labels = elim (labels sealed_label) [ none ↦ false | some v ↦ v == "true" ]
