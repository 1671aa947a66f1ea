-- ===== src/Settler/Round.antt =====
-- internal/settler/consumer.go: one batch, from the queue to its statuses.
pub mod Charged
pub mod Returned
use g_sandbox.Base.{
  ℕ, zero, suc, ◌-◌, ◌≤◌, Bool, true, false, not, ◌&&◌, Option, none, some, List, [], ◌∷◌, ◌++◌,
  ◌==◌, ltb, mem, take, drop, length, if◌then◌else◌,
}
use g_sandbox.Voucher.{Address, SandboxVoucher, Raw, json, malformed, Hashing}
use g_sandbox.Voucher.Collapse.{collapse_by_sandbox}
use g_sandbox.Store.{
  Store, Action, ◌>>=◌, ◌>>◌, pure, fail, gets, modify, command, try, push_front, notify, PendingTx,
  Alert, settler_tx_failure, Severity,
}
use g_sandbox.Billing.Signer.{Signing, sign}
use g_sandbox.Chain
use g_sandbox.Chain.{SettlementStatus, Poll}
use g_sandbox.Settler.Pending.{broadcast, save_pending_tx, clear_pending_tx, resolve_pending_tx}
use g_sandbox.Settler.Sweep.{AggregatorChain, sweep_users}

-- `maxBatchSize`
abbrev pub max_batch_size : ℕ
max_batch_size = 50

-- What one batch meets outside: `SubmitSettleFees` with the hash and the account nonce, the severity
-- of an error of it, the polls of the transaction, and the clock.
pub record Env : Type 0 where
  pub hashing : Hashing
  pub signing : Signing
  pub chain : AggregatorChain
  pub submit : List SandboxVoucher → Option (ℕ × ℕ)
  pub error_severity : Severity
  pub polls : List Poll
  pub now : ℕ

-- How a batch ended, for the loop: nothing went out; the submission failed; or a transaction did go
-- out.
pub data RoundEnd : Type 0 where
  not_submitted submit_failed submitted : RoundEnd

-- The loop that deserializes the batch.
unfoldable pub parse_batch : List Raw → List SandboxVoucher
parse_batch [] = []
parse_batch (json v ∷ rs) = v ∷ parse_batch rs
parse_batch (malformed _ ∷ rs) = parse_batch rs

-- The loop that signs it, in order; it stops at the first error.
unfoldable pub sign_batch : Signing → List SandboxVoucher → Action (List SandboxVoucher)
sign_batch sg [] = pure []
sign_batch sg (v ∷ vs) = do w ← sign sg v; ws ← sign_batch sg vs; pure (w ∷ ws)

-- LPUSH of the first item, its error ignored.
unfoldable pub put_back : Raw → Action RoundEnd
put_back first_item = do try (push_front first_item); pure not_submitted

-- `brokeUsers`
unfoldable pub broke_users :
    List SandboxVoucher → List SettlementStatus → List Address → List Address
broke_users [] sts users = users
broke_users (v ∷ vs) [] users = users
broke_users (v ∷ vs) (Chain.insufficient_balance ∷ sts) users =
    broke_users vs sts (if mem v.user users then users else users ++ v.user ∷ [])
broke_users (v ∷ vs) (_ ∷ sts) users = broke_users vs sts users

-- Past the broadcast.
unfoldable pub after_broadcast : Env → PendingTx → Action RoundEnd
after_broadcast env p = do
  try (save_pending_tx p)
  statuses ← resolve_pending_tx p env.polls
  elim statuses [
    | none ↦ pure submitted
    | some sts ↦ (do
      sweep_users env.hashing env.now env.chain (broke_users p.vouchers sts [])
      pure submitted)
  ]

abbrev submit_alert : Severity → Alert
submit_alert severity = record {
  kind = settler_tx_failure;
  severity = severity;
  user = none;
  provider = none;
  sandbox = none;
}

-- A submission that failed: nothing reached the chain.
unfoldable pub after_submit_error : Env → Raw → Action RoundEnd
after_submit_error env first_item = do
  clear_pending_tx
  notify (submit_alert env.error_severity)
  put_back first_item
  pure submit_failed

abbrev pub intent_of : Raw → ℕ → List SandboxVoucher → PendingTx
intent_of first_item consumed vs = record {
  tx_hash = none;
  account_nonce = 0;
  vouchers = vs;
  first_item = first_item;
  consumed = consumed;
}

-- The intent, the broadcast, and its outcome.
unfoldable pub submit_batch : Env → Raw → ℕ → List SandboxVoucher → Action RoundEnd
submit_batch env first_item consumed vs = do
  let intent = intent_of first_item consumed vs
  saved ← try (save_pending_tx intent)
  elim saved [
    | none ↦ put_back first_item
    | some _ ↦ elim (env.submit vs) [
      | none ↦ after_submit_error env first_item
      | some (tx_hash, account_nonce) ↦ after_broadcast env (broadcast intent tx_hash account_nonce)
    ]
  ]

unfoldable pub sign_and_submit : Env → Raw → ℕ → List SandboxVoucher → Action RoundEnd
sign_and_submit env first_item consumed vs = do
  signed ← try (sign_batch env.signing vs)
  elim signed [ none ↦ put_back first_item | some ws ↦ submit_batch env first_item consumed ws ]

-- From the raw items of a batch on. A batch with nothing that parses is dropped; a nil fee in a batch
-- of two or more is a panic.
unfoldable pub settle_batch : Env → Raw → List Raw → Action RoundEnd
settle_batch env first_item raw_items =
    let vs = parse_batch raw_items in
    if length vs == 0
    then pure not_submitted
    else (elim (collapse_by_sandbox env.hashing env.now vs) [
      | none ↦ fail
      | some batch ↦ sign_and_submit env first_item (length raw_items) batch
    ])

-- The entries that the batch peeks at behind its first.
unfoldable pub peek_remaining : Action (List Raw)
peek_remaining = do
  items ← try (command >> gets (λ s. take (max_batch_size - 1) s.queue))
  pure (elim items [ none ↦ [] | some rs ↦ rs ])

-- BLPOP on a queue that has the item; with none it times out.
unfoldable pub pop_first : List Raw → Action (Option Raw)
pop_first [] = pure none
pop_first (raw ∷ rs) = do modify (λ s. record s { queue = rs }); pure (some raw)

unfoldable pub settle_round : Env → Action RoundEnd
settle_round env = do
  popped ← try command
  queue ← gets (λ s. s.queue)
  elim popped [
    | none ↦ pure not_submitted
    | some _ ↦ (do
      first ← pop_first queue
      elim first [
        | none ↦ pure not_submitted
        | some first_item ↦ (do
          remaining ← peek_remaining
          settle_batch env first_item (first_item ∷ remaining))
      ])
  ]
