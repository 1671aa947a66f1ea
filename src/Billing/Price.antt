-- ===== src/Billing/Price.antt =====
-- `EventHandler`, `computePrice` and `emitPeriodVoucher` of internal/billing/events.go.
use g_sandbox.Base.{
  ℕ, ◌+◌, ◌*◌, ◌%◌, ◌^◌, ◌<◌, ◌≡◌, false, ◌||◌, none, some, arith, ltb, ◌==◌, if◌then◌else◌,
}
use g_sandbox.Voucher.{Address, SandboxId, SandboxVoucher, json, Hashing, build_usage_hash}
use g_sandbox.Store.{Action, ◌>>◌, pure, push_queue}

-- The configuration of `EventHandler`. Prices are not negative.
pub record EventHandler : Type 0 where
  pub provider_address : Address
  pub compute_price_per_sec : ℕ
  pub price_per_cpu_per_sec : ℕ
  pub price_per_mem_gb_per_sec : ℕ
  pub create_fee : ℕ
  pub voucher_interval_sec : ℕ

-- The 64 bits of an int64; those from 2 ^ 63 on stand for the negative numbers.
unfoldable pub int64 : ℕ → ℕ
int64 n = n % 2 ^ 64

pub int64_small : (n : ℕ) → n < 2 ^ 63 → int64 n ≡ n
unfolding int64
int64_small n h = omega arith

-- `computePrice`
unfoldable pub compute_price : EventHandler → ℕ → ℕ → ℕ
compute_price h cpu mem_gb =
    if ltb 0 h.price_per_cpu_per_sec || ltb 0 h.price_per_mem_gb_per_sec
    then cpu * h.price_per_cpu_per_sec + mem_gb * h.price_per_mem_gb_per_sec
    else h.compute_price_per_sec

-- The voucher that `emitPeriodVoucher` makes out.
abbrev pub period_voucher :
    Hashing → EventHandler → SandboxId → Address → ℕ → ℕ → ℕ → SandboxVoucher
period_voucher hash h id owner fee period_start next_voucher_at = record {
  sandbox_id = id;
  user = owner;
  provider = h.provider_address;
  total_fee = some fee;
  usage_hash = build_usage_hash hash id period_start next_voucher_at h.voucher_interval_sec;
  nonce = none;
  signature = none;
  aggregated = false;
}

-- `emitPeriodVoucher`; it returns the new NextVoucherAt.
unfoldable pub emit_period_voucher :
    Hashing → EventHandler → SandboxId → Address → ℕ → ℕ → ℕ → Action ℕ
emit_period_voucher hash h id owner price period_start intervals =
    let n = if ltb intervals 1 then 1 else intervals in
    let units = int64 (h.voucher_interval_sec * n) in
    let next_voucher_at = int64 (period_start + units) in
    let fee = price * units in
    if fee == 0 then pure next_voucher_at else (do
      push_queue (json (period_voucher hash h id owner fee period_start next_voucher_at))
      pure next_voucher_at)
