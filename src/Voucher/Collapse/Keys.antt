-- ===== src/Voucher/Collapse/Keys.antt =====
-- Collapsing leaves one voucher for each (user, provider, sandbox), in the order of first appearance.
use g_sandbox.Base.{
  ℕ, ◌≡◌, refl, ap, inl, inr, Bool, true, ◌&&◌, ◌==◌, some, List, [], ◌∷◌, map, arith, ltb, length,
  if◌then◌else◌, Bool-cases, Option-cases,
}
use g_sandbox.Voucher.{Address, SandboxId, SandboxVoucher, Hashing}
use g_sandbox.Voucher.Collapse.{
  Merged, same_key, add_voucher, merge_loop, finish, collapse_by_sandbox,
}

abbrev pub Key : Type 0
Key = Address × Address × SandboxId

abbrev pub key_of : SandboxVoucher → Key
key_of v = (v.user, v.provider, v.sandbox_id)

abbrev key_eq : Key → Key → Bool
key_eq (u, p, s) (u', p', s') = u == u' && p == p' && s == s'

-- A key goes behind those that are there, unless it is there.
abbrev pub add_key : Key → List Key → List Key
add_key k [] = k ∷ []
add_key k (j ∷ ks) = if key_eq j k then j ∷ ks else j ∷ add_key k ks

-- The keys of a batch, each where it appears first.
abbrev pub first_keys : List SandboxVoucher → List Key → List Key
first_keys [] ks = ks
first_keys (v ∷ vs) ks = first_keys vs (add_key (key_of v) ks)

abbrev heads : List Merged → List Key
heads [] = []
heads (g ∷ out) = key_of g.head ∷ heads out

heads-add_voucher :
    (v : SandboxVoucher) (fee : ℕ) (out : List Merged)
    → heads (add_voucher v fee out) ≡ add_key (key_of v) (heads out)
unfolding add_voucher
heads-add_voucher v fee [] = refl
heads-add_voucher v fee (g ∷ out) = elim (Bool-cases (same_key g.head v)) [
  | inl same ↦ rw same
  | inr other ↦ rw other (ap (λ ks. key_of g.head ∷ ks) (heads-add_voucher v fee out))
]

heads-merge_loop :
    (vs : List SandboxVoucher) (out res : List Merged)
    → merge_loop vs out ≡ some res
    → heads res ≡ first_keys vs (heads out)
unfolding merge_loop
heads-merge_loop [] out res e = ground arith
heads-merge_loop (v ∷ vs) out res e = elim (Option-cases v.total_fee) [
  | inl nil ↦ ground arith
  | inr (fee, p) ↦
      rw (← heads-add_voucher v fee out)
        (heads-merge_loop vs (add_voucher v fee out) res (ground arith))
]

keys-finish :
    (h : Hashing) (now : ℕ) (out : List Merged) → map key_of (map (finish h now) out) ≡ heads out
unfolding finish
keys-finish h now [] = refl
keys-finish h now (g ∷ out) = elim (Bool-cases (ltb g.merged 2)) [
  | inl alone ↦ rw alone (ap (λ ks. key_of g.head ∷ ks) (keys-finish h now out))
  | inr many ↦ rw many (ap (λ ks. key_of g.head ∷ ks) (keys-finish h now out))
]

first_keys_few :
    (vs : List SandboxVoucher) → ltb (length vs) 2 ≡ true → map key_of vs ≡ first_keys vs []
first_keys_few [] h = refl
first_keys_few (v ∷ []) h = refl
first_keys_few (v ∷ w ∷ vs) h = ground arith

-- A batch that is collapsed has exactly one voucher for each (user, provider, sandbox) of the
-- batch, and they stand in the order in which those first appear in it.
pub collapse_keys :
    (h : Hashing) (now : ℕ) (vs : List SandboxVoucher) {out : List SandboxVoucher}
    → collapse_by_sandbox h now vs ≡ some out
    → map key_of out ≡ first_keys vs []
unfolding collapse_by_sandbox
collapse_keys h now vs {out} e = elim (Bool-cases (ltb (length vs) 2)) [
  | inl few ↦ let same : vs ≡ out = ground arith in rw (← same) (first_keys_few vs few)
  | inr many ↦ elim (Option-cases (merge_loop vs [])) [
    | inl panic ↦ ground arith
    | inr (res, r) ↦
        let same : map (finish h now) res ≡ out = ground arith in
        rw (← same, keys-finish h now res) (heads-merge_loop vs [] res r)
  ]
]
