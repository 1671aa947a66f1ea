-- ===== src/Voucher/Collapse/Fees.antt =====
-- Collapsing neither loses nor makes up a fee, for any choice of payers, payees and sandboxes.
use g_sandbox.Base.{
  ℕ, ◌+◌, ◌≤◌, ◌≡◌, refl, ◌≢◌, inl, inr, none, some, List, [], ◌∷◌, ◌++◌, map, arith, ltb, length,
  if◌then◌else◌, Bool-cases, Option-cases,
}
use g_sandbox.Voucher.{SandboxVoucher, Hashing, Choice, fees}
use g_sandbox.Voucher.Collapse.{Merged, add_voucher, merge_loop, finish, collapse_by_sandbox}

abbrev merged_fees : Choice → List Merged → ℕ
merged_fees c [] = 0
merged_fees c (g ∷ out) =
    (if c g.head.user g.head.provider g.head.sandbox_id then g.fee else 0) + merged_fees c out

merged_fees-add_voucher :
    (c : Choice) (v : SandboxVoucher) (fee : ℕ) (out : List Merged)
    → merged_fees c (add_voucher v fee out)
      ≡ merged_fees c out + (if c v.user v.provider v.sandbox_id then fee else 0)
unfolding add_voucher
merged_fees-add_voucher c v fee [] = omega arith
merged_fees-add_voucher c v fee (g ∷ out) = ground (arith, merged_fees-add_voucher c v fee out)

merge_loop-fees :
    (c : Choice) (vs : List SandboxVoucher) (out res : List Merged)
    → merge_loop vs out ≡ some res
    → merged_fees c res ≡ merged_fees c out + fees c vs
unfolding merge_loop
merge_loop-fees c [] out res h = ground arith
merge_loop-fees c (v ∷ vs) out res h = elim (Option-cases v.total_fee) [
  | inl nil ↦ ground arith
  | inr (fee, e) ↦
      ground (
        arith,
        merge_loop-fees c vs (add_voucher v fee out) res,
        merged_fees-add_voucher c v fee out,
      )
]

fees-finish :
    (c : Choice) (h : Hashing) (now : ℕ) (out : List Merged)
    → fees c (map (finish h now) out) ≡ merged_fees c out
unfolding finish
fees-finish c h now [] = refl
fees-finish c h now (g ∷ out) = ground (arith, fees-finish c h now out)

pub collapse-fees :
    (c : Choice) (h : Hashing) (now : ℕ) (vs out : List SandboxVoucher)
    → collapse_by_sandbox h now vs ≡ some out
    → fees c out ≡ fees c vs
unfolding collapse_by_sandbox
collapse-fees c h now vs out e = elim (Bool-cases (ltb (length vs) 2)) [
  | inl few ↦ ground arith
  | inr many ↦ elim (Option-cases (merge_loop vs [])) [
    | inl panic ↦ ground arith
    | inr (res, r) ↦ ground (arith, fees-finish c h now res, merge_loop-fees c vs [] res r)
  ]
]

-- Every voucher has a fee.
abbrev pub HasFees : List SandboxVoucher → Type 0
HasFees [] = Unit
HasFees (v ∷ vs) = (v.total_fee ≢ none) × HasFees vs

merge_loop_total :
    (vs : List SandboxVoucher) (out : List Merged)
    → HasFees vs
    → (res : List Merged) × (merge_loop vs out ≡ some res)
unfolding merge_loop
merge_loop_total [] out h = (out, refl)
merge_loop_total (v ∷ vs) out h = elim (Option-cases v.total_fee) [
  | inl nil ↦ absurd (h.0 nil)
  | inr (fee, e) ↦ rw e (merge_loop_total vs (add_voucher v fee out) h.1)
]

-- If every voucher of a batch has a fee, then collapsing the batch does not panic, and for every
-- choice of users, providers and sandboxes the vouchers that come out owe, together, what the
-- vouchers that went in owed.
pub collapse_conserves_fees :
    (h : Hashing) (now : ℕ) (vs : List SandboxVoucher)
    → HasFees vs
    → (out : List SandboxVoucher) × (collapse_by_sandbox h now vs ≡ some out)
      × ((c : Choice) → fees c out ≡ fees c vs)
unfolding collapse_by_sandbox
collapse_conserves_fees h now vs p = elim (Bool-cases (ltb (length vs) 2)) [
  | inl few ↦ (vs, rw few, λ c. refl)
  | inr many ↦
      let (res, r) = merge_loop_total vs [] p in
      let e : collapse_by_sandbox h now vs ≡ some (map (finish h now) res) = rw (many, r) in
      (map (finish h now) res, e, λ c. collapse-fees c h now vs (map (finish h now) res) e)
]

merge_loop-nil_fee :
    (v : SandboxVoucher) (before after : List SandboxVoucher) (out : List Merged)
    → v.total_fee ≡ none
    → merge_loop (before ++ v ∷ after) out ≡ none
unfolding merge_loop
merge_loop-nil_fee v [] after out h = rw h
merge_loop-nil_fee v (w ∷ before) after out h = elim (Option-cases w.total_fee) [
  | inl nil ↦ rw nil
  | inr (fee, e) ↦ rw e (merge_loop-nil_fee v before after (add_voucher w fee out) h)
]

-- A batch of two or more vouchers of which one has no fee (a JSON null) makes the collapse panic.
pub collapse_nil_fee_panics :
    (h : Hashing) (now : ℕ) (v : SandboxVoucher) (before after : List SandboxVoucher)
    → v.total_fee ≡ none
    → 2 ≤ length (before ++ v ∷ after)
    → collapse_by_sandbox h now (before ++ v ∷ after) ≡ none
unfolding collapse_by_sandbox
collapse_nil_fee_panics h now v before after nil many =
    ground (arith, merge_loop-nil_fee v before after [] nil)
