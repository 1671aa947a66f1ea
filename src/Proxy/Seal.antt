-- ===== src/Proxy/Seal.antt =====
-- The seal of a sealed create: internal/proxy/seal.go, but for the encoding that is hashed. Random
-- values, the key pair, the signature and the JSON of the certificate are given; a body goes from one
-- decoded value to the other.
pub mod Sealed
use Prim.Native.Char.{code}
use Prim.Native.String.{String, ◌++◌, len}
use package.text.Mathlib.Text.{◌==◌, starts_with}
use g_sandbox.Base.{
  ℕ, zero, suc, Bool, true, false, ◌&&◌, ◌||◌, not, Option, none, some, List, [], ◌∷◌, leb, mem,
  if◌then◌else◌,
}
use g_sandbox.Proxy.Text.{contains}
use g_sandbox.Proxy.Json.{
  Json, string, object, Fields, no_fields, field, find, drop_where, put_field,
}
use g_sandbox.Proxy.Owner.{as_string, as_map}
use g_sandbox.Proxy.Create.Prepare.{Seal, sealed_body, caller_fault, seal_failure}

-- `sealedCreateEnv`
abbrev pub sealed_create_env : List String
sealed_create_env =
    "ATTESTOR_URL" ∷ "SEAL_BOOT_TICKET" ∷ "SEAL_SECRET_ENV" ∷ "API_KEY" ∷ "CHAIN_RPC_URL"
    ∷ "AGENTIC_ID_ADDR" ∷ "VERIFIED_FEEDBACK_ADDR" ∷ "INDEXER_URL" ∷ "AGENT_FRAMEWORK" ∷ []

unfoldable pub is_allowed : String → Bool
is_allowed k = contains k sealed_create_env

-- `filterSealedCallerEnv`; a key that is refused discards the map, whatever was deleted before.
unfoldable pub filter_sealed_caller_env : Fields → Option Fields
filter_sealed_caller_env no_fields = some no_fields
filter_sealed_caller_env (field k v m) =
    let rest = filter_sealed_caller_env m in
    if is_allowed k
    then elim rest [ none ↦ none | some m' ↦ some (field k v m') ]
    else if starts_with k "SANDBOX_"
    then rest
    else none

-- `SealIssuer`; the zero address is 0.
pub record SealIssuer : Type 0 where
  pub chain_id : ℕ
  pub registry_address : ℕ
  pub app_id : String
  pub registered_at : ℕ

abbrev pub is_zero : ℕ → Bool
is_zero zero = true
is_zero (suc n) = false

-- `SealIssuer.validate`; a `String` is valid UTF-8.
unfoldable pub is_valid_issuer : SealIssuer → Bool
is_valid_issuer s =
    not (is_zero s.chain_id || is_zero s.registry_address || is_zero s.registered_at)
    && not (s.app_id == "")
    && leb (len s.app_id) 256

-- Hexadecimal texts, in lower case or in any, of so many digits.
abbrev pub is_lower_hex : ℕ → Bool
is_lower_hex c = (leb 48 c && leb c 57) || (leb 97 c && leb c 102)

unfoldable pub has_digits : (ℕ → Bool) → ℕ → String → Bool
has_digits p zero String.[] = true
has_digits p zero (String.◌∷◌ c s) = false
has_digits p (suc n) String.[] = false
has_digits p (suc n) (String.◌∷◌ c s) = p (code c) && has_digits p n s

abbrev pub is_hex_digit : ℕ → Bool
is_hex_digit c = is_lower_hex c || (leb 65 c && leb c 70)

-- `strings.ToLower`, of hexadecimal digits.
abbrev pub lower_digit : String → String
lower_digit d =
    if d == "A"
    then "a"
    else if d == "B"
    then "b"
    else if d == "C"
    then "c"
    else if d == "D"
    then "d"
    else if d == "E"
    then "e"
    else if d == "F"
    then "f"
    else d

unfoldable pub to_lower : String → String
to_lower String.[] = ""
to_lower (String.◌∷◌ c s) = lower_digit (String.◌∷◌ c String.[]) ++ to_lower s

-- `ImageAttestation`, whose version is 3.
pub record ImageAttestation : Type 0 where
  pub issuer : SealIssuer
  pub seal_id : String
  pub public_key : String
  pub image_hash : String
  pub timestamp : ℕ

-- A prefix, and what follows it.
unfoldable pub has_prefixed : String → (ℕ → Bool) → ℕ → String → Bool
has_prefixed String.[] p n s = has_digits p n s
has_prefixed (String.◌∷◌ c pre) p n String.[] = false
has_prefixed (String.◌∷◌ c pre) p n (String.◌∷◌ d s) =
    String.◌∷◌ c String.[] == String.◌∷◌ d String.[] && has_prefixed pre p n s

-- The checks of `structHash`; `on_curve` is `DecompressPubkey`.
unfoldable pub is_attestable : (String → Bool) → ImageAttestation → Bool
is_attestable on_curve a =
    is_valid_issuer a.issuer
    && has_digits is_lower_hex 64 a.seal_id
    && has_prefixed "0x" is_hex_digit 66 a.public_key
    && on_curve a.public_key
    && has_prefixed "sha256:" is_lower_hex 64 a.image_hash
    && not (is_zero a.timestamp)

-- What a seal is made with. `none` is an error; `sign` is the digest's signature with the app key.
pub record SealTools : Type 0 where
  pub has_app_key : Bool
  pub random_id : Option String
  pub key : Option (String × String)  -- the private key and the public one, as texts
  pub now : ℕ
  pub on_curve : String → Bool
  pub sign : ImageAttestation → Option String
  pub marshal : ImageAttestation → String → String  -- the certificate with its signature
  pub proxy_domain : String

-- `issueImageAttestation`
unfoldable pub issue_image_attestation : SealTools → ImageAttestation → Option String
issue_image_attestation t a =
    if is_attestable t.on_curve a
    then elim (t.sign a) [ none ↦ none | some signature ↦ some (t.marshal a signature) ]
    else none

-- How the seal id is chosen.
pub data Chosen : Type 0 where
  chosen : String → Chosen
  malformed_id : Chosen
  no_random : Chosen

unfoldable pub choose_seal_id : Option String → String → Chosen
choose_seal_id random v =
    if v == ""
    then elim random [ none ↦ no_random | some id ↦ chosen id ]
    else if has_digits is_hex_digit 64 v
    then chosen (to_lower v)
    else malformed_id

abbrev pub stripped_fields : List String
stripped_fields =
    "seal_id" ∷ "version" ∷ "chain_id" ∷ "registry_address" ∷ "app_id" ∷ "registered_at" ∷ []

unfoldable pub seal_env : String → String → String → Fields → Fields
seal_env domain private_key attestation env =
    let keyed = put_field "SANDBOX_SEAL_KEY" (string private_key) env in
    let attested = put_field "SANDBOX_SEAL_ATTESTATION" (string attestation) keyed in
    if domain == "" then attested else put_field "SANDBOX_PROXY_DOMAIN" (string domain) attested

-- The end of `InjectSeal`, with the certificate.
unfoldable pub write_seal : SealTools → String → String → String → Fields → Seal
write_seal t seal_id private_key attestation m =
    let labelled =
      put_field "labels"
        (object (put_field "0g-seal-id" (string seal_id) (as_map (find "labels" m)))) m in
    elim (filter_sealed_caller_env (as_map (find "env" labelled))) [
      | none ↦ caller_fault
      | some env ↦
          sealed_body (
            put_field "env" (object (seal_env t.proxy_domain private_key attestation env)) labelled)
    ]

unfoldable pub certify_seal : SealTools → Fields → String → SealIssuer → String → Seal
certify_seal t m image_hash issuer seal_id = elim t.key [
  | none ↦ seal_failure
  | some (private_key, public_key) ↦
      elim (issue_image_attestation t (record {
        issuer = issuer;
        seal_id = seal_id;
        public_key = public_key;
        image_hash = image_hash;
        timestamp = t.now;
      })) [
        | none ↦ seal_failure
        | some attestation ↦ write_seal t seal_id private_key attestation m
      ]
]

-- `InjectSeal`
unfoldable pub inject_seal : SealTools → Fields → String → SealIssuer → Seal
inject_seal t m image_hash issuer =
    if not t.has_app_key || not (is_valid_issuer issuer)
    then seal_failure
    else elim (choose_seal_id t.random_id (as_string (find "seal_id" m))) [
      | no_random ↦ seal_failure
      | malformed_id ↦ caller_fault
      | chosen seal_id ↦
          certify_seal t (drop_where (λ k. contains k stripped_fields) m) image_hash issuer seal_id
    ]
