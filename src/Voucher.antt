-- ===== src/Voucher.antt =====
-- Vouchers, as internal/voucher/types.go declares them, and what the queues hold.
pub mod Collapse
pub mod Digest
use g_sandbox.Base.{
  ℕ, zero, suc, ◌+◌, arith, ◌≡◌, ◌/◌, ◌%◌, ◌^◌, Bool, true, false, ◌||◌, ◌&&◌, Option, none, some,
  List, [], ◌∷◌, ◌++◌, ◌==◌, or_zero, if◌then◌else◌,
}

-- An address, and its hexadecimal text in any letter case, is one number below 2 ^ 160.
abbrev pub Address : Type 0
Address = ℕ

-- A sandbox id is only compared, and handed to `Hashing`; 0 stands for the empty text.
abbrev pub SandboxId : Type 0
SandboxId = ℕ

-- `AggregatedSandboxID`
abbrev pub aggregated_sandbox_id : SandboxId
aggregated_sandbox_id = 0

pub record SandboxVoucher : Type 0 where
  pub sandbox_id : SandboxId
  pub user : Address
  pub provider : Address
  pub total_fee : Option ℕ
  pub usage_hash : ℕ
  pub nonce : Option ℕ
  pub signature : Option ℕ
  pub aggregated : Bool

-- An item of a Redis list: the JSON of a voucher, or a text that does not parse as one.
pub data Raw : Type 0 where
  json : SandboxVoucher → Raw
  malformed : ℕ → Raw

-- What is used of keccak256, and the bytes of a sandbox id.
pub record Hashing : Type 0 where
  pub keccak : List ℕ → ℕ
  pub id_bytes : SandboxId → List ℕ

abbrev pub unmarshal : Raw → Option SandboxVoucher
unmarshal (json v) = some v
unmarshal (malformed _) = none

-- A nil fee counts as zero wherever the code guards against it.
abbrev pub fee_of : SandboxVoucher → ℕ
fee_of v = or_zero v.total_fee

-- Which (user, provider, sandbox) are counted.
abbrev pub Choice : Type 0
Choice = Address → Address → SandboxId → Bool

abbrev pub share : Choice → SandboxVoucher → ℕ
share c v = if c v.user v.provider v.sandbox_id then fee_of v else 0

-- The fees that a choice of keys owes.
abbrev pub fees : Choice → List SandboxVoucher → ℕ
fees c [] = 0
fees c (v ∷ vs) = share c v + fees c vs

-- The same of raw items, where what does not parse owes nothing.
abbrev pub raw_fees : Choice → List Raw → ℕ
raw_fees c [] = 0
raw_fees c (json v ∷ rs) = share c v + raw_fees c rs
raw_fees c (malformed _ ∷ rs) = raw_fees c rs

pub raw_fees-append :
    (c : Choice) (xs ys : List Raw) → raw_fees c (xs ++ ys) ≡ raw_fees c xs + raw_fees c ys
raw_fees-append c [] ys = omega arith
raw_fees-append c (json v ∷ xs) ys = omega (arith, raw_fees-append c xs ys)
raw_fees-append c (malformed _ ∷ xs) ys = raw_fees-append c xs ys

pub fees-append :
    (c : Choice) (xs ys : List SandboxVoucher) → fees c (xs ++ ys) ≡ fees c xs + fees c ys
fees-append c [] ys = omega arith
fees-append c (v ∷ xs) ys = omega (arith, fees-append c xs ys)

-- The bytes of a non-negative int64, the highest first.
abbrev pub append_int64 : List ℕ → ℕ → List ℕ
append_int64 b v =
    b
    ++ (v / 2 ^ 56 % 256)
      ∷ (v / 2 ^ 48 % 256)
      ∷ (v / 2 ^ 40 % 256)
      ∷ (v / 2 ^ 32 % 256)
      ∷ (v / 2 ^ 24 % 256)
      ∷ (v / 2 ^ 16 % 256)
      ∷ (v / 2 ^ 8 % 256)
      ∷ (v % 256)
      ∷ []

unfoldable pub build_usage_hash : Hashing → SandboxId → ℕ → ℕ → ℕ → ℕ
build_usage_hash h sandbox_id period_start period_end usage_units = h.keccak (
    append_int64 (append_int64 (append_int64 (h.id_bytes sandbox_id) period_start) period_end)
      usage_units)

unfoldable pub is_aggregated : SandboxVoucher → Bool
is_aggregated v = v.aggregated || v.sandbox_id == aggregated_sandbox_id
