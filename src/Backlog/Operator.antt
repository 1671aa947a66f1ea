-- ===== src/Backlog/Operator.antt =====
-- `Aggregate` of internal/voucher/aggregate.go: the operator's merge of one pair's queued vouchers.
pub mod Merged
use g_sandbox.Base.{
  ℕ, zero, suc, ◌+◌, ◌≡◌, refl, ap, append-nil, Bool, true, false, ◌&&◌, Option, none, some, List,
  [], ◌∷◌, ◌++◌, arith, ◌==◌, length, if◌then◌else◌, Bool-cases, ==_refl, inl, inr,
}
use g_sandbox.Voucher.{
  Address, SandboxVoucher, Raw, json, malformed, Hashing, fee_of, aggregated_sandbox_id,
  build_usage_hash,
}
use g_sandbox.Store.{
  Store, Action, ◌>>=◌, ◌>>◌, pure, fail, gets, modify, commands, command, commands_cases,
  command_cases, later_ok,
}
use g_sandbox.Backlog.Defs.{is_mine, sum_mine, own_entries, kept_entries, conflict, max_retries}

-- `AggregateResult`
pub record AggregateResult : Type 0 where
  pub matched : ℕ
  pub total_fee : ℕ

-- The single voucher for the pair.
unfoldable pub merged_voucher : Hashing → ℕ → Address → Address → ℕ → SandboxVoucher
merged_voucher h now user provider total = record {
  sandbox_id = aggregated_sandbox_id;
  user = user;
  provider = provider;
  total_fee = some total;
  usage_hash = build_usage_hash h aggregated_sandbox_id now now 0;
  nonce = none;
  signature = none;
  aggregated = true;
}

-- What the loop over the items comes to: how many match, and their sum.
unfoldable pub matches : Address → Address → List Raw → AggregateResult
matches user provider queue = record {
  matched = length (own_entries user provider queue);
  total_fee = sum_mine user provider queue;
}

-- What EXEC writes.
unfoldable pub write_merged :
    Hashing → ℕ → Address → Address → AggregateResult → List Raw → List Raw
write_merged h now user provider found queue =
    kept_entries user provider queue
    ++ json (merged_voucher h now user provider found.total_fee) ∷ []

-- The commands that EXEC runs, and EXEC, with what follows if the queue was changed.
unfoldable pub run_merge :
    Hashing → ℕ → Address → Address → AggregateResult → List Raw → Action AggregateResult
run_merge h now user provider found items = do
  command
  modify (λ s. record s { queue = write_merged h now user provider found items })
  pure found

unfoldable pub exec_merge :
    Action AggregateResult
    → Hashing
    → ℕ
    → Address
    → Address
    → AggregateResult
    → List Raw
    → Action AggregateResult
exec_merge retry h now user provider found items = do
  lost ← conflict
  elim lost [ true ↦ retry | false ↦ run_merge h now user provider found items ]

-- The rest of an attempt, once the items are read: with no match there is no EXEC.
unfoldable pub merge_items :
    Action AggregateResult → Hashing → ℕ → Address → Address → List Raw → Action AggregateResult
merge_items retry h now user provider items =
    let found = matches user provider items in
    if found.matched == 0 then pure found else exec_merge retry h now user provider found items

-- The attempts: WATCH, LRANGE, EXEC.
unfoldable pub merge_attempts : ℕ → Hashing → ℕ → Address → Address → Action AggregateResult
merge_attempts zero h now user provider = fail
merge_attempts (suc n) h now user provider = do
  commands 2
  items ← gets (λ s. s.queue)
  merge_items (merge_attempts n h now user provider) h now user provider items

-- `Aggregate`
unfoldable pub aggregate : Hashing → ℕ → Address → Address → Action AggregateResult
aggregate h now user provider = merge_attempts max_retries h now user provider
