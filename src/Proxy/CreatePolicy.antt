-- ===== src/Proxy/CreatePolicy.antt =====
-- The snapshot-only policy of creates: internal/proxy/createpolicy.go. A map is walked in the order of
-- its list, where Go's order is random: what is refused does not depend on it, which error comes first
-- does.
pub mod Accepts
use Prim.Native.String.{String}
use package.text.Mathlib.Text.{◌==◌}
use g_sandbox.Base.{Bool, true, false, ◌&&◌, not, Option, none, some, List, [], ◌∷◌, if◌then◌else◌}
use g_sandbox.Proxy.Text.{Folding, equal_fold, contains_fold, contains, is_blank, has_dot}
use g_sandbox.Proxy.Json.{
  Json, null, string, Fields, no_fields, field, find, Body, empty_body, decode_first,
}

abbrev pub custom_resource_fields : List String
custom_resource_fields = "cpu" ∷ "memory" ∷ "disk" ∷ "gpu" ∷ "image" ∷ "class" ∷ "buildinfo" ∷ []

abbrev pub create_fields : List String
create_fields =
    "snapshot" ∷ "name" ∷ "env" ∷ "labels" ∷ "sealed" ∷ "seal_id" ∷ "publicPorts" ∷ "user"
    ∷ "target" ∷ "networkBlockAll" ∷ "networkAllowList" ∷ "public" ∷ "autoStopInterval"
    ∷ "autoArchiveInterval" ∷ "autoDeleteInterval" ∷ "volumes" ∷ []

-- The errors of `requireSnapshotCreate`.
pub data Refusal : Type 0 where
  invalid_request_body : Refusal
  misspelled_snapshot : Refusal
  differs_by_case : Refusal
  custom_resource : Refusal
  unsupported_field : Refusal
  name_not_string : Refusal
  name_has_dot : Refusal
  snapshot_required : Refusal

-- `rejectFoldedKeys`; `seen` has the folded keys so far.
unfoldable pub reject_folded_keys : Folding → List String → Fields → Option Refusal
reject_folded_keys fold seen no_fields = none
reject_folded_keys fold seen (field k v m) =
    let rest = reject_folded_keys fold (fold k ∷ seen) m in
    if equal_fold fold k "snapshot" && not (k == "snapshot")
    then some misspelled_snapshot
    else if contains (fold k) seen
    then some differs_by_case
    else rest

-- The loop over `customResourceFields`.
unfoldable pub reject_custom : Folding → Fields → Option Refusal
reject_custom fold no_fields = none
reject_custom fold (field k v m) =
    let rest = reject_custom fold m in
    if contains_fold fold k custom_resource_fields then some custom_resource else rest

-- `checkSandboxName`; null decodes to the empty string.
unfoldable pub check_sandbox_name : Json → Option Refusal
check_sandbox_name null = none
check_sandbox_name (string s) = if has_dot s then some name_has_dot else none
check_sandbox_name _ = some name_not_string

-- The loop over `createFields` and the name.
unfoldable pub reject_unknown : Folding → Fields → Option Refusal
reject_unknown fold no_fields = none
reject_unknown fold (field k v m) =
    let rest = reject_unknown fold m in
    if contains_fold fold k create_fields
    then (if equal_fold fold k "name"
        then elim (check_sandbox_name v) [ some e ↦ some e | none ↦ rest ]
        else rest)
    else some unsupported_field

-- The snapshot must be there and not blank.
unfoldable pub check_snapshot : Option Json → Option Refusal
check_snapshot (some (string s)) = if is_blank s then some snapshot_required else none
check_snapshot _ = some snapshot_required

-- `requireSnapshotCreate` behind the decoding.
unfoldable pub require_snapshot_fields : Folding → Fields → Option Refusal
require_snapshot_fields fold m = elim (reject_folded_keys fold [] m) [
  | some e ↦ some e
  | none ↦ elim (reject_custom fold m) [
    | some e ↦ some e
    | none ↦ elim (reject_unknown fold m) [
      | some e ↦ some e
      | none ↦ check_snapshot (find "snapshot" m)
    ]
  ]
]

-- `requireSnapshotCreate`
unfoldable pub require_snapshot_create : Folding → Body → Option Refusal
require_snapshot_create fold empty_body = require_snapshot_fields fold no_fields
require_snapshot_create fold b = elim (decode_first b) [
  | none ↦ some invalid_request_body
  | some m ↦ require_snapshot_fields fold m
]
