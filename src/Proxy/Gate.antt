-- ===== src/Proxy/Gate.antt =====
-- The balance gate of `handleCreate` and `handleStart`, and `handleBalance`, in
-- internal/proxy/handler.go.
pub mod Admits
pub mod Concurrent
use g_sandbox.Base.{
  ℕ, ◌+◌, ◌-◌, ◌*◌, Bool, true, false, ◌||◌, Option, none, some, ltb, or_zero, if◌then◌else◌,
}
use g_sandbox.Voucher.{Address}
use g_sandbox.Store.{Action, ◌>>=◌, ◌>>◌, pure, try}
use g_sandbox.Backlog.{held_debt, queued_pending}
use g_sandbox.Billing.Reserved.{reserve, release, get_reserved}

-- The prices of `Handler`; a nil price counts as zero.
pub record Tariff : Type 0 where
  pub provider_address : Address
  pub create_fee : ℕ
  pub price_per_cpu_per_sec : ℕ
  pub price_per_mem_gb_per_sec : ℕ
  pub compute_price_per_sec : ℕ
  pub voucher_interval_sec : ℕ

-- `intervalCost`
unfoldable pub interval_cost : Tariff → ℕ → ℕ → ℕ
interval_cost h cpu mem_gb =
    if ltb 0 h.price_per_cpu_per_sec || ltb 0 h.price_per_mem_gb_per_sec
    then (h.price_per_cpu_per_sec * cpu + h.price_per_mem_gb_per_sec * mem_gb)
      * h.voucher_interval_sec
    else h.compute_price_per_sec * h.voucher_interval_sec

-- `outstandingDebt`: held and pending; a lookup that fails counts as zero.
unfoldable pub outstanding_debt : Address → Address → Action (ℕ × ℕ)
outstanding_debt user provider = do
  held ← try (held_debt user provider)
  pending ← try (queued_pending user provider)
  pure (or_zero held, or_zero pending)

-- `availableBalance`; subtraction stops at zero, as the clamp does.
unfoldable pub available_balance : ℕ → ℕ → ℕ → ℕ
available_balance chain_balance reserved debt = chain_balance - reserved - debt

-- What `handleBalance` reports.
pub record BalanceReport : Type 0 where
  pub balance : ℕ
  pub reserved : ℕ
  pub outstanding_debt : ℕ
  pub pending_settlement : ℕ
  pub available : ℕ

-- `handleBalance`, once the chain has answered.
unfoldable pub handle_balance : Address → Address → ℕ → Action BalanceReport
handle_balance user provider balance = do
  reserved ← get_reserved user provider
  (held, pending) ← outstanding_debt user provider
  pure (record {
    balance = balance;
    reserved = reserved;
    outstanding_debt = held;
    pending_settlement = pending;
    available = available_balance balance reserved (held + pending);
  })

-- What a gate meets outside: `GetBalance`, whether a broker is there and its `registerSession`
-- succeeds, and `GetBalance` after that. `none` is an error.
pub record Funds : Type 0 where
  pub balance : Option ℕ
  pub topped_up : Bool
  pub balance_again : Option ℕ

-- How a gate ends. `admitted` says whether a reservation is held; the 402 has its four amounts.
pub data Admission : Type 0 where
  admitted : Bool → Admission
  balance_error : Admission
  insufficient : (available required outstanding_debt pending_settlement : ℕ) → Admission

unfoldable pub release_if : Bool → Address → Address → ℕ → Action (Unit {0})
release_if false user provider amount = pure tt
release_if true user provider amount = do release user provider amount; pure tt

-- What a gate has in hand when it judges.
pub record Claim : Type 0 where
  pub user : Address
  pub provider : Address
  pub required : ℕ
  pub held : ℕ
  pub pending : ℕ
  pub total_reserved : ℕ  -- with this claim
  pub holds : Bool  -- whether the reservation was made

-- `shortfall` is negative.
abbrev pub is_short : Claim → ℕ → Bool
is_short c balance = ltb balance (c.held + c.pending + c.total_reserved)

unfoldable pub turn_away : Claim → ℕ → Action Admission
turn_away c balance = do
  release_if c.holds c.user c.provider c.required
  pure (
      insufficient (balance + c.required - (c.held + c.pending + c.total_reserved)) c.required
        c.held c.pending)

unfoldable pub rejudge : Claim → Option ℕ → Action Admission
rejudge c none = do release_if c.holds c.user c.provider c.required; pure balance_error
rejudge c (some balance) =
    if is_short c balance then turn_away c balance else pure (admitted c.holds)

unfoldable pub judge : Claim → Funds → ℕ → Action Admission
judge c funds balance =
    if is_short c balance
    then (if funds.topped_up then rejudge c funds.balance_again else turn_away c balance)
    else pure (admitted c.holds)

-- The reservation; where Redis has none, the total that it would have made.
unfoldable pub claim : Address → Address → ℕ → ℕ → ℕ → Action Claim
claim user provider required held pending = do
  reserved ← try (reserve user provider required)
  now ← elim reserved [ some total ↦ pure 0 | none ↦ get_reserved user provider ]
  pure (record {
    user = user;
    provider = provider;
    required = required;
    held = held;
    pending = pending;
    total_reserved = elim reserved [ some total ↦ total | none ↦ now + required ];
    holds = elim reserved [ some total ↦ true | none ↦ false ];
  })

-- The gate for a required amount.
unfoldable pub admit : Address → Address → ℕ → Funds → Action Admission
admit user provider required funds = do
  (held, pending) ← outstanding_debt user provider
  elim funds.balance [
    | none ↦ pure balance_error
    | some balance ↦ (do c ← claim user provider required held pending; judge c funds balance)
  ]
