-- ===== src/Proxy/Create/Prepare.antt =====
-- The part of `handleCreate` between the gate and Daytona (internal/proxy/handler.go): the checks of
-- ports and seals, and the body that is forwarded.
use Prim.Native.String.{String}
use package.text.Mathlib.Text.{◌==◌}
use g_sandbox.Base.{ℕ, Bool, true, false, ◌&&◌, not, Option, none, some, if◌then◌else◌}
use g_sandbox.Proxy.Text.{Folding}
use g_sandbox.Proxy.Json.{object, Fields, Body, value_body, unmarshal}
use g_sandbox.Proxy.Ports.{present, absent, parse_error, parse_public_ports, validate_public_ports}
use g_sandbox.Proxy.Owner.{
  extract_sealed, create_field, rewritten, body_error, panics, inject_owner, set_create_field,
}

-- What of `Handler` the checks read. An address is written as a text by `wallet`.
pub record Gateway : Type 0 where
  pub fold : Folding
  pub wallet : String
  pub sealed_only : Bool
  pub has_seal_key : Bool
  pub has_seal_issuer : Bool

-- How `resolveImageRef` ends.
pub data Resolution : Type 0 where
  unresolved : Resolution  -- both of its errors give 400
  resolved : (snapshot_id image : String) → Resolution

-- How `InjectSeal` ends.
pub data Seal : Type 0 where
  sealed_body : Fields → Seal
  caller_fault : Seal
  seal_failure : Seal

-- The answers that a sealed create gets. `runs_image` has the status of a refusal.
pub record Sealing : Type 0 where
  pub resolve_image_ref : Resolution
  pub billed_id : Option String  -- of the snapshot whose spec is billed
  pub get_digest : Option String
  pub runs_image : Option ℕ
  pub pin_ref : Option String
  pub issuer : Option String
  pub inject_seal : Fields → String → String → Seal

-- The body to forward, and whether it asks for ports; or the status of a rejection, and whether
-- `releaseRejectedSeal` is called.
pub data Prepared : Type 0 where
  ready : (with_ports : Bool) → Fields → Prepared
  rejected : (status : ℕ) → (releases : Bool) → Prepared

abbrev pub asks_ports : Body → Bool
asks_ports b = elim (parse_public_ports b) [
  | absent ↦ false
  | parse_error e ↦ false
  | present ps ↦ true
]

unfoldable pub sealed_reply : Body → Seal → Prepared
sealed_reply b (sealed_body m) = ready (asks_ports b) m
sealed_reply b caller_fault = rejected 400 true
sealed_reply b seal_failure = rejected 500 true

-- The issuer, and the seal.
unfoldable pub add_seal : Sealing → Body → String → Fields → Prepared
add_seal s b image_hash m = elim s.issuer [
  | none ↦ rejected 503 true
  | some issuer ↦ sealed_reply b (s.inject_seal m image_hash issuer)
]

-- `InjectOwner`, and for a sealed create the snapshot by its id. Its panic is answered with 500.
unfoldable pub own : Gateway → Sealing → Body → Option (String × String) → Prepared
own g s b certified = elim (inject_owner g.fold b g.wallet) [
  | body_error ↦ rejected 400 false
  | panics ↦ rejected 500 false
  | rewritten m ↦ elim certified [
    | none ↦ ready (asks_ports b) m
    | some (snapshot_id, image_hash) ↦
        add_seal s b image_hash
          (if snapshot_id == "" then m else set_create_field "snapshot" snapshot_id m)
  ]
]

-- A direct image is pinned to the digest.
unfoldable pub pin : Gateway → Sealing → Body → String → String → Prepared
pin g s b snapshot_id image_hash =
    if create_field b "image" == ""
    then own g s b (some (snapshot_id, image_hash))
    else elim s.pin_ref [
      | none ↦ rejected 400 false
      | some pinned ↦ elim (unmarshal b) [
        | none ↦ rejected 400 false
        | some m ↦
            own g s (value_body (object (set_create_field "image" pinned m)) false)
              (some (snapshot_id, image_hash))
      ]
    ]

-- Behind the resolved image.
unfoldable pub certify : Gateway → Sealing → Body → String → String → Prepared
certify g s b snapshot_id image_hash =
    if snapshot_id == "" then pin g s b snapshot_id image_hash else elim s.runs_image [
      | some status ↦ rejected status true
      | none ↦ pin g s b snapshot_id image_hash
    ]

unfoldable pub is_other_record : Option String → String → Bool
is_other_record none snapshot_id = false
is_other_record (some billed) snapshot_id = not (snapshot_id == "") && not (billed == snapshot_id)

unfoldable pub resolve : Gateway → Sealing → Body → Resolution → Prepared
resolve g s b unresolved = rejected 400 true
resolve g s b (resolved snapshot_id image) =
    if is_other_record s.billed_id snapshot_id then rejected 400 true else elim s.get_digest [
      | none ↦ rejected 422 true
      | some image_hash ↦ certify g s b snapshot_id image_hash
    ]

unfoldable pub check_seal : Gateway → Sealing → Body → Bool → Prepared
check_seal g s b false = if g.sealed_only then rejected 400 false else own g s b none
check_seal g s b true =
    if not g.has_seal_key
    then rejected 501 false
    else if not g.has_seal_issuer
    then rejected 503 true
    else resolve g s b s.resolve_image_ref

-- All of it.
unfoldable pub prepare : Gateway → Sealing → Body → Prepared
prepare g s b = elim (validate_public_ports b (extract_sealed g.fold b)) [
  | some e ↦ rejected 400 false
  | none ↦ check_seal g s b (extract_sealed g.fold b)
]
