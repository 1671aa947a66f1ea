-- ===== src/Examples/Snapshots.antt =====
-- The snapshots and the seals at concrete inputs.
use Prim.Native.String.{String}
use package.text.Mathlib.TextEquality.{eq_iff}
use g_sandbox.Base.{◌≡◌, refl, true, false, some, List, [], ◌∷◌, arith}
use g_sandbox.Proxy.Json.{
  string, object, Fields, no_fields, field, find, put_field, drop_where, Body, value_body,
  decode_first, decode_value, decode_into,
}
use g_sandbox.Proxy.Owner.{create_field, as_string, as_map}
use g_sandbox.Registry.{Reference, tagged, pin_ref}
use g_sandbox.Proxy.Snapshots.{
  SnapshotRecord, SealedSource, ImageConfig, resolve_snapshot, resolve_image_ref,
  check_snapshot_runs_image, source_of, find_match, consider, is_shadowed, compare_configs,
}
use g_sandbox.Proxy.Snapshots.Certain.{Certain}
use g_sandbox.Proxy.Snapshots.Runs.{RunsCertified, source_certified}
use g_sandbox.Proxy.Seal.{
  SealIssuer, SealTools, inject_seal, is_valid_issuer, choose_seal_id, certify_seal,
  issue_image_attestation, is_attestable, has_digits, has_prefixed, write_seal,
  filter_sealed_caller_env, is_allowed, seal_env,
}
use g_sandbox.Proxy.Seal.Sealed.{IsSealed, inject_seal-IsSealed}
use g_sandbox.Proxy.Create.Prepare.{sealed_body}

abbrev snapshot : SnapshotRecord
snapshot = record {
  id = "s1";
  name = "agent";
  image_name = "app:d-1";
  ref = "internal/app:1";
  entrypoint = [];
  has_build_info = false;
}

abbrev snapshots : List SnapshotRecord
snapshots = record snapshot { id = "s2"; name = "other" } ∷ snapshot ∷ []

abbrev sealed_create : Body
sealed_create = value_body (object (field "snapshot" (string "agent") no_fields)) false

abbrev parse_app : String → Reference
parse_app s = tagged "app" s

abbrev config : ImageConfig
config = record { digest = "sha256:cc"; entrypoint = "/run" ∷ [] }

abbrev source : SealedSource
source = record {
  image = "app:d-1";
  run_ref = "internal/app:1";
  entrypoint = [];
  snapshot_id = "s1";
}

source_certified_example :
    (s : SnapshotRecord) × Certain snapshots (create_field sealed_create "snapshot") s
    × (s.has_build_info ≡ false)
    × (source ≡ record {
      image = s.image_name;
      run_ref = s.ref;
      entrypoint = s.entrypoint;
      snapshot_id = s.id;
    })
    × RunsCertified parse_app (λ ref. some config) source "sha256:aa"
unfolding resolve_image_ref create_field decode_first decode_value decode_into put_field drop_where
    find as_string source_of resolve_snapshot find_match consider is_shadowed
    check_snapshot_runs_image pin_ref compare_configs
source_certified_example =
    source_certified parse_app (λ ref. some config) sealed_create snapshots source "sha256:aa" refl
      (λ e. ground (arith, eq_iff "s1" "", e)) refl

abbrev issuer : SealIssuer
issuer = record { chain_id = 16602; registry_address = 5; app_id = "app"; registered_at = 50 }

abbrev some_id : String
some_id = "00112233445566778899aabbccddeeff00112233445566778899aabbccddeeff"

abbrev some_key : String
some_key = "0x0200112233445566778899aabbccddeeff00112233445566778899aabbccddeeff"

abbrev some_image : String
some_image = "sha256:00112233445566778899aabbccddeeff00112233445566778899aabbccddeeff"

abbrev seal_tools : SealTools
seal_tools = record {
  has_app_key = true;
  random_id = some some_id;
  key = some ("0x07", some_key);
  now = 1000;
  on_curve = λ s. true;
  sign = λ a. some "0xfe";
  marshal = λ a s. s;
  proxy_domain = "";
}

-- A variable of the provider's, which is dropped, and a listed one.
abbrev seal_body : Fields
seal_body =
    field "env"
      (object (field "SANDBOX_SEAL_KEY" (string "mine") (field "API_KEY" (string "k") no_fields)))
      no_fields

abbrev sealed_fields : Fields
sealed_fields =
    field "env"
      (object (
        field "SANDBOX_SEAL_ATTESTATION" (string "0xfe")
          (field "SANDBOX_SEAL_KEY" (string "0x07") (field "API_KEY" (string "k") no_fields))))
      (field "labels" (object (field "0g-seal-id" (string some_id) no_fields)) no_fields)

inject_seal_run : inject_seal seal_tools seal_body some_image issuer ≡ sealed_body sealed_fields
unfolding inject_seal is_valid_issuer choose_seal_id certify_seal drop_where issue_image_attestation
    is_attestable has_digits has_prefixed write_seal filter_sealed_caller_env is_allowed seal_env
    put_field find as_string as_map
inject_seal_run = refl

inject_seal-IsSealed_example :
    IsSealed seal_tools some_image issuer seal_body "SANDBOX_SEAL_KEY" sealed_fields
inject_seal-IsSealed_example =
    inject_seal-IsSealed seal_tools some_image issuer seal_body sealed_fields "SANDBOX_SEAL_KEY"
      inject_seal_run
