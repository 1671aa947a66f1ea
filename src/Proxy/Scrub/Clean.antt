-- ===== src/Proxy/Scrub/Clean.antt =====
-- What a scrubbed response holds.
use Prim.Native.String.{String}
use package.text.Mathlib.Text.{◌==◌}
use package.text.Mathlib.TextEquality.{eq_iff}
use g_sandbox.Base.{
  ◌≡◌, refl, sym, subst, ◌∙◌, inl, inr, Bool-cases, true, false, Option, none, some, if◌then◌else◌,
  arith,
}
use g_sandbox.Proxy.Json.{
  Json, null, boolean, number, string, array, object, Items, no_items, item, Fields, no_fields,
  field, find, drop_where, put_field,
}
use g_sandbox.Proxy.Json.Find.{find-drop_where, find-put_field}
use g_sandbox.Proxy.Scrub.{
  is_secret, has_secret, delete_secret_env, scrub_object, scrub_value, scrub_items, deletes_from,
  deletes, deletes_items, scrub_seal_key_from_body,
}

-- No secret among the environment variables of an object.
abbrev pub NoSecretIn : Option Json → String → Type 0
NoSecretIn (some (object env)) k = find k env ≡ none
NoSecretIn _ k = Unit

-- A sandbox object without a secret, and an array of such values.
unfoldable mutual
  pub Clean : String → Json → Type 0
  Clean k (object m) = NoSecretIn (find "env" m) k
  Clean k (array xs) = CleanItems k xs
  Clean k null = Unit
  Clean k (boolean b) = Unit
  Clean k (number n) = Unit
  Clean k (string s) = Unit

  pub CleanItems : String → Items → Type 0
  CleanItems k no_items = Unit
  CleanItems k (item v xs) = Clean k v × CleanItems k xs

scrub_object-Clean :
    (k : String) (m : Fields) (env : Option Json)
    → is_secret k ≡ true
    → find "env" m ≡ env
    → Clean k (scrub_object m env)
unfolding scrub_object delete_secret_env Clean
scrub_object-Clean k m (some (object env)) secret h =
    let at : find "env" (put_field "env" (object (drop_where is_secret env)) m)
        ≡ some (object (drop_where is_secret env)) =
      find-put_field "env" "env" _ m in
    subst (λ x. NoSecretIn x k) (sym at) (find-drop_where k is_secret env ∙ ground arith)
scrub_object-Clean k m (some null) secret h = subst (λ x. NoSecretIn x k) (sym h) tt
scrub_object-Clean k m (some (boolean b)) secret h = subst (λ x. NoSecretIn x k) (sym h) tt
scrub_object-Clean k m (some (number n)) secret h = subst (λ x. NoSecretIn x k) (sym h) tt
scrub_object-Clean k m (some (string s)) secret h = subst (λ x. NoSecretIn x k) (sym h) tt
scrub_object-Clean k m (some (array xs)) secret h = subst (λ x. NoSecretIn x k) (sym h) tt
scrub_object-Clean k m none secret h = subst (λ x. NoSecretIn x k) (sym h) tt

mutual
  unfolding scrub_value Clean

  value-Clean : (k : String) → is_secret k ≡ true → (v : Json) → Clean k (scrub_value v)
  value-Clean k secret (object m) = scrub_object-Clean k m (find "env" m) secret refl
  value-Clean k secret (array xs) = items-Clean k secret xs
  value-Clean k secret null = tt
  value-Clean k secret (boolean b) = tt
  value-Clean k secret (number n) = tt
  value-Clean k secret (string s) = tt

  items-Clean : (k : String) → is_secret k ≡ true → (xs : Items) → CleanItems k (scrub_items xs)
  items-Clean k secret no_items = tt
  items-Clean k secret (item v xs) = (value-Clean k secret v, items-Clean k secret xs)

has_secret-find :
    (k : String) (env : Fields) → is_secret k ≡ true → has_secret env ≡ false → find k env ≡ none
unfolding has_secret find
has_secret-find k no_fields secret h = refl
has_secret-find k (field i v env) secret h = elim (Bool-cases (i == k)) [
  | inl e ↦
      let same : is_secret i ≡ true =
        subst (λ j. is_secret j ≡ true) (sym ((eq_iff i k).0 e)) secret in
      absurd (ground arith)
  | inr e ↦ simp e (has_secret-find k env secret (ground arith))
]

deletes_from-NoSecretIn :
    (k : String) (env : Option Json)
    → is_secret k ≡ true
    → deletes_from env ≡ false
    → NoSecretIn env k
unfolding deletes_from
deletes_from-NoSecretIn k (some (object env)) secret h = has_secret-find k env secret h
deletes_from-NoSecretIn k (some null) secret h = tt
deletes_from-NoSecretIn k (some (boolean b)) secret h = tt
deletes_from-NoSecretIn k (some (number n)) secret h = tt
deletes_from-NoSecretIn k (some (string s)) secret h = tt
deletes_from-NoSecretIn k (some (array xs)) secret h = tt
deletes_from-NoSecretIn k none secret h = tt

-- A value from which nothing is deleted is clean as it is.
mutual
  unfolding deletes Clean

  deletes-Clean : (k : String) → is_secret k ≡ true → (v : Json) → deletes v ≡ false → Clean k v
  deletes-Clean k secret (object m) h = deletes_from-NoSecretIn k (find "env" m) secret h
  deletes-Clean k secret (array xs) h = deletes_items-Clean k secret xs h
  deletes-Clean k secret null h = tt
  deletes-Clean k secret (boolean b) h = tt
  deletes-Clean k secret (number n) h = tt
  deletes-Clean k secret (string s) h = tt

  deletes_items-Clean :
      (k : String) → is_secret k ≡ true → (xs : Items) → deletes_items xs ≡ false → CleanItems k xs
  deletes_items-Clean k secret no_items h = tt
  deletes_items-Clean k secret (item v xs) h =
      (deletes-Clean k secret v (ground arith), deletes_items-Clean k secret xs (ground arith))

body-Clean :
    (k : String) (v : Json)
    → is_secret k ≡ true
    → (w : Json) × (scrub_seal_key_from_body true (some v) ≡ some w) × Clean k w
unfolding scrub_seal_key_from_body
body-Clean k v secret = elim (Bool-cases (deletes v)) [
  | inl e ↦ (scrub_value v, rw e refl, value-Clean k secret v)
  | inr e ↦ (v, rw e refl, deletes-Clean k secret v e)
]

-- What scrubbing makes of an object whose env is a map: under the name env the map less the secrets,
-- and under any other what there was.
abbrev pub Scrubbed : Fields → Fields → Json → String → Type 0
Scrubbed m env w i =
    (m' : Fields) × (env' : Fields) × (w ≡ object m')
    × (find "env" m' ≡ some (object env'))
    × (find i m' ≡ (if "env" == i then some (object env') else find i m))
    × (find i env' ≡ (if is_secret i then none else find i env))

scrub_value-Scrubbed :
    (m env : Fields) (i : String)
    → find "env" m ≡ some (object env)
    → Scrubbed m env (scrub_value (object m)) i
unfolding scrub_value scrub_object delete_secret_env
scrub_value-Scrubbed m env i h =
    let env' = drop_where is_secret env in
    (
      put_field "env" (object env') m,
      env',
      rw h refl,
      find-put_field "env" "env" (object env') m,
      find-put_field i "env" (object env') m,
      find-drop_where i is_secret env,
    )

unscrubbed-Scrubbed :
    (m env : Fields) (i : String)
    → find "env" m ≡ some (object env)
    → deletes (object m) ≡ false
    → Scrubbed m env (object m) i
unfolding deletes deletes_from
unscrubbed-Scrubbed m env i h clean =
    let clean' : has_secret env ≡ false = subst (λ e. deletes_from e ≡ false) h clean in
    (
      m,
      env,
      refl,
      h,
      elim (Bool-cases ("env" == i)) [
        | inl e ↦ rw e (subst (λ k. find k m ≡ some (object env)) ((eq_iff "env" i).0 e) h)
        | inr e ↦ rw e refl
      ],
      elim (Bool-cases (is_secret i)) [
        | inl e ↦ has_secret-find i env e clean' ∙ ground arith
        | inr e ↦ ground arith
      ],
    )

-- A body that mentions a secret in quotes and is JSON is returned without the secrets in the env of
-- its object or, in an array, however deep arrays nest, of any of its objects, the objects that stand
-- in fields of these left aside; and an object whose env is a map keeps its other fields and the env's
-- other variables.
pub scrub_value-Clean :
    (k i : String) (v : Json) (m env : Fields)
    → is_secret k ≡ true
    → find "env" m ≡ some (object env)
    → ((w : Json) × (scrub_seal_key_from_body true (some v) ≡ some w) × Clean k w)
      × ((w : Json) × (scrub_seal_key_from_body true (some (object m)) ≡ some w)
          × Scrubbed m env w i)
unfolding scrub_seal_key_from_body
scrub_value-Clean k i v m env secret h = (
  body-Clean k v secret,
  elim (Bool-cases (deletes (object m))) [
    | inl e ↦ (scrub_value (object m), rw e refl, scrub_value-Scrubbed m env i h)
    | inr e ↦ (object m, rw e refl, unscrubbed-Scrubbed m env i h e)
  ],
)
