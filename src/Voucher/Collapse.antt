-- ===== src/Voucher/Collapse.antt =====
-- internal/voucher/collapse.go: a settle batch merged by (user, provider, sandbox).
pub mod Fees
pub mod Keys
use g_sandbox.Base.{
  ℕ, suc, ◌+◌, Bool, ◌&&◌, Option, none, some, List, [], ◌∷◌, map, ◌==◌, ltb, length, if◌then◌else◌,
}
use mathlib.Core.Option
use g_sandbox.Voucher.{SandboxVoucher, Hashing, build_usage_hash}

-- An element of `out` with its entry of `merged`; its fee is never nil, so it stands apart.
pub record Merged : Type 0 where
  pub head : SandboxVoucher
  pub fee : ℕ
  pub merged : ℕ

-- Equality of the `groupKey`s of two vouchers.
abbrev pub same_key : SandboxVoucher → SandboxVoucher → Bool
same_key v w = v.user == w.user && v.provider == w.provider && v.sandbox_id == w.sandbox_id

-- The body of the first loop for a voucher with a fee. `index` holds the place of each key in `out`,
-- which a search of `out` finds.
unfoldable pub add_voucher : SandboxVoucher → ℕ → List Merged → List Merged
add_voucher v fee [] = record { head = v; fee = fee; merged = 1 } ∷ []
add_voucher v fee (g ∷ out) =
    if same_key g.head v
    then record g { fee = g.fee + fee; merged = g.merged + 1 } ∷ out
    else g ∷ add_voucher v fee out

-- The first loop. `none` is the panic of big.Int on a nil fee.
unfoldable pub merge_loop : List SandboxVoucher → List Merged → Option (List Merged)
merge_loop [] out = some out
merge_loop (v ∷ vs) out = elim v.total_fee [
  | none ↦ none
  | some fee ↦ merge_loop vs (add_voucher v fee out)
]

-- The body of the second loop.
unfoldable pub finish : Hashing → ℕ → Merged → SandboxVoucher
finish h now g =
    let cp = g.head in
    if ltb g.merged 2 then record cp { total_fee = some g.fee } else record cp {
      total_fee = some g.fee;
      usage_hash = build_usage_hash h cp.sandbox_id now now 0;
      aggregated = Bool.true;
    }

-- `CollapseBySandbox`
unfoldable pub collapse_by_sandbox :
    Hashing → ℕ → List SandboxVoucher → Option (List SandboxVoucher)
unfolding merge_loop
collapse_by_sandbox h now vs =
    if ltb (length vs) 2 then some vs else Option.map (map (finish h now)) (merge_loop vs [])
