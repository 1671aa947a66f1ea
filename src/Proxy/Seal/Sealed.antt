-- ===== src/Proxy/Seal/Sealed.antt =====
-- What a sealed create hands to Daytona.
use Prim.Native.String.{String}
use package.text.Mathlib.Text.{◌==◌, starts_with}
use package.text.Mathlib.TextEquality.{eq_iff}
use g_sandbox.Base.{
  ◌≡◌, refl, subst, ◌∙◌, ◌⊎◌, inl, inr, true, ◌&&◌, ◌||◌, not, Option, none, some, Bool-cases,
  Option-cases, if◌then◌else◌, arith,
}
use g_sandbox.Proxy.Text.{contains}
use g_sandbox.Proxy.Json.{
  Json, string, object, Fields, no_fields, field, find, drop_where, put_field,
}
use g_sandbox.Proxy.Json.Find.{find-drop_where, find-put_field}
use g_sandbox.Proxy.Owner.{as_string, as_map}
use g_sandbox.Proxy.Create.Prepare.{sealed_body}
use g_sandbox.Proxy.Seal.{
  is_allowed, filter_sealed_caller_env, SealIssuer, ImageAttestation, is_attestable, SealTools,
  issue_image_attestation, Chosen, chosen, malformed_id, no_random, choose_seal_id, stripped_fields,
  seal_env, write_seal, certify_seal, inject_seal,
}

-- What the container finds under a name: the provider's own values, of the caller's the listed ones,
-- and nothing else.
unfoldable pub in_container :
    Fields → (domain private_key certificate : String) → String → Option Json
in_container sent domain private_key certificate k =
    if "SANDBOX_PROXY_DOMAIN" == k && not (domain == "")
    then some (string domain)
    else if "SANDBOX_SEAL_ATTESTATION" == k
    then some (string certificate)
    else if "SANDBOX_SEAL_KEY" == k
    then some (string private_key)
    else if is_allowed k
    then find k sent
    else none

find-filter :
    (k : String) (env env' : Fields)
    → filter_sealed_caller_env env ≡ some env'
    → find k env' ≡ (if is_allowed k then find k env else none)
unfolding filter_sealed_caller_env find
find-filter k no_fields env' h = ground arith
find-filter k (field j v m) env' h = elim (Option-cases (filter_sealed_caller_env m)) [
  | inl e ↦ absurd (ground arith)
  | inr (m', e) ↦
      let ih = find-filter k m m' e in
      elim (Bool-cases (is_allowed j)) [
        | inl kept ↦
            let q : env' ≡ field j v m' = ground arith in rw q (ground (arith, eq_iff j k, ih))
        | inr drops ↦ let q : env' ≡ m' = ground arith in rw q (ground (arith, eq_iff j k, ih))
      ]
]

-- A caller's variables are listed ones, or the provider's own, which are dropped.
filter-Permitted :
    (k : String) (env env' : Fields)
    → filter_sealed_caller_env env ≡ some env'
    → (find k env ≡ none) ⊎ (is_allowed k || starts_with k "SANDBOX_" ≡ true)
unfolding filter_sealed_caller_env find
filter-Permitted k no_fields env' h = inl refl
filter-Permitted k (field j v m) env' h = elim (Option-cases (filter_sealed_caller_env m)) [
  | inl e ↦ absurd (ground arith)
  | inr (m', e) ↦ elim (Bool-cases (j == k)) [
    | inl same ↦ inr (
        subst (λ x. is_allowed x || starts_with x "SANDBOX_" ≡ true) ((eq_iff j k).0 same)
          (ground arith))
    | inr other ↦ rw other (filter-Permitted k m m' e)
  ]
]

find-seal_env :
    (k domain private_key certificate : String) (env env' : Fields)
    → filter_sealed_caller_env env ≡ some env'
    → find k (seal_env domain private_key certificate env')
      ≡ in_container env domain private_key certificate k
unfolding seal_env in_container
find-seal_env k domain private_key certificate env env' h = elim (Bool-cases (domain == "")) [
  | inl e ↦ rw e (simp (find-put_field, find-filter k env env' h) (ground arith))
  | inr e ↦ rw e (simp (find-put_field, find-filter k env env' h) (ground arith))
]

abbrev sealed_labels : String → Fields → Fields
sealed_labels seal_id n = put_field "0g-seal-id" (string seal_id) (as_map (find "labels" n))

write_seal_lem :
    (t : SealTools) (seal_id private_key certificate : String) (n m' : Fields) (k : String)
    → write_seal t seal_id private_key certificate n ≡ sealed_body m'
    → (env : Fields) × (find k env
        ≡ in_container (as_map (find "env" n)) t.proxy_domain private_key certificate k)
      × ((find k (as_map (find "env" n)) ≡ none)
          ⊎ (is_allowed k || starts_with k "SANDBOX_" ≡ true))
      × (find "env" m' ≡ some (object env))
      × (find "labels" m' ≡ some (object (sealed_labels seal_id n)))
      × (find k m' ≡ (
          if "env" == k
          then some (object env)
          else if "labels" == k
          then some (object (sealed_labels seal_id n))
          else find k n))
unfolding write_seal
write_seal_lem t seal_id private_key certificate n m' k h =
    let labelled = put_field "labels" (object (sealed_labels seal_id n)) n in
    let same : find "env" labelled ≡ find "env" n = find-put_field "env" "labels" _ n in
    elim (Option-cases (filter_sealed_caller_env (as_map (find "env" labelled)))) [
      | inl e ↦ absurd (ground arith)
      | inr (env', e) ↦
          let e' : filter_sealed_caller_env (as_map (find "env" n)) ≡ some env' = rw same at e in
          let env = seal_env t.proxy_domain private_key certificate env' in
          let q : m' ≡ put_field "env" (object env) labelled = ground arith in
          (
            env,
            find-seal_env k t.proxy_domain private_key certificate (as_map (find "env" n)) env' e',
            filter-Permitted k (as_map (find "env" n)) env' e',
            rw q (simp find-put_field),
            rw q (simp find-put_field),
            rw q (simp find-put_field),
          )
    ]

module _ (t : SealTools) (image_hash : String) (issuer : SealIssuer) where
  abbrev pub attested : (seal_id public_key : String) → ImageAttestation
  attested seal_id public_key = record {
    issuer = issuer;
    seal_id = seal_id;
    public_key = public_key;
    image_hash = image_hash;
    timestamp = t.now;
  }

  -- What a sealed body says, under the name `k`: the seal id, the labels, the environment, and the rest.
  pub record IsSealed (m : Fields) (k : String) (m' : Fields) : Type 0 where
    pub seal_id : String
    pub private_key : String
    pub public_key : String
    pub signature : String
    pub labels : Fields
    pub env : Fields
    pub has_id : choose_seal_id t.random_id (as_string (find "seal_id" m)) ≡ chosen seal_id
    pub has_key : t.key ≡ some (private_key, public_key)
    pub is_certified :
        (is_attestable t.on_curve (attested seal_id public_key) ≡ true)
        × (t.sign (attested seal_id public_key) ≡ some signature)
    pub in_labels :
        find k labels
        ≡ (if "0g-seal-id" == k then some (string seal_id) else find k (as_map (find "labels" m)))
    pub in_env :
        find k env
        ≡ in_container
            (as_map (find "env" m))
            t.proxy_domain
            private_key
            (t.marshal (attested seal_id public_key) signature)
            k
    pub is_permitted :
        (find k (as_map (find "env" m)) ≡ none) ⊎ (is_allowed k || starts_with k "SANDBOX_" ≡ true)
    pub has_env : find "env" m' ≡ some (object env)
    pub has_labels : find "labels" m' ≡ some (object labels)
    pub in_body : find k m' ≡ (
        if "env" == k
        then some (object env)
        else if "labels" == k
        then some (object labels)
        else if contains k stripped_fields
        then none
        else find k m)

  certify_seal-IsSealed :
      (m m' : Fields) (k seal_id : String)
      → choose_seal_id t.random_id (as_string (find "seal_id" m)) ≡ chosen seal_id
      → certify_seal t (drop_where (λ j. contains j stripped_fields) m) image_hash issuer seal_id
        ≡ sealed_body m'
      → IsSealed m k m'
  unfolding certify_seal issue_image_attestation
  certify_seal-IsSealed m m' k seal_id has_id h = elim (Option-cases t.key) [
    | inl e ↦ absurd (ground arith)
    | inr ((private_key, public_key), e) ↦
        let a = attested seal_id public_key in
        elim (Bool-cases (is_attestable t.on_curve a)) [
          | inr bad ↦ absurd (ground arith)
          | inl good ↦ elim (Option-cases (t.sign a)) [
            | inl e' ↦ absurd (ground arith)
            | inr (signature, e') ↦
                let n = drop_where (λ j. contains j stripped_fields) m in
                let labels : find "labels" n ≡ find "labels" m = find-drop_where "labels" _ m in
                let kept : find "env" n ≡ find "env" m = find-drop_where "env" _ m in
                let rest : find k n ≡ (if contains k stripped_fields then none else find k m) =
                  find-drop_where k _ m in
                let (env, in_env, is_permitted, has_env, has_labels, in_body) =
                  write_seal_lem t seal_id private_key (t.marshal a signature) n m' k
                    (ground arith) in
                record {
                  seal_id = seal_id;
                  private_key = private_key;
                  public_key = public_key;
                  signature = signature;
                  labels = sealed_labels seal_id n;
                  env = env;
                  has_id = has_id;
                  has_key = e;
                  is_certified = (good, e');
                  in_labels = find-put_field k "0g-seal-id" _ _ ∙ rw labels refl;
                  in_env = rw kept at in_env;
                  is_permitted = rw kept at is_permitted;
                  has_env = has_env;
                  has_labels = has_labels;
                  in_body = rw rest at in_body;
                }
          ]
        ]
  ]

  -- If a seal is injected, the certificate that the container gets is signed, over the issuer, the image
  -- hash, the public key of the private key that it gets, and a seal id of 64 lower-case digits that is
  -- also its label; of the caller's environment it gets the listed variables and no other, and a caller
  -- that sends others than those and SANDBOX_ ones is refused; the issuer's fields and seal_id are
  -- dropped from the body, and nothing else changes.
  pub inject_seal-IsSealed :
      (m m' : Fields) (k : String)
      → inject_seal t m image_hash issuer ≡ sealed_body m'
      → IsSealed m k m'
  unfolding inject_seal
  inject_seal-IsSealed m m' k h =
      go (choose_seal_id t.random_id (as_string (find "seal_id" m))) refl
    where
      n : Fields
      n = drop_where (λ j. contains j stripped_fields) m

      go :
          (c : Chosen)
          → choose_seal_id t.random_id (as_string (find "seal_id" m)) ≡ c
          → IsSealed m k m'
      go no_random e = absurd (ground arith)
      go malformed_id e = absurd (ground arith)
      go (chosen seal_id) e = certify_seal-IsSealed m m' k seal_id e (ground arith)
