-- ===== src/Settler/Pending.antt =====
-- internal/settler/pendingtx.go: the one settlement transaction in flight.
pub mod Fate
pub mod Intent
use g_sandbox.Base.{
  ℕ, zero, suc, ◌+◌, Bool, true, false, Option, none, some, List, [], ◌∷◌, leb, ltb, ◌==◌,
  if◌then◌else◌,
}
use g_sandbox.Voucher.{SandboxVoucher, Raw}
use g_sandbox.Store.{
  Store, Action, ◌>>=◌, ◌>>◌, pure, gets, modify, command, try, push_front, notify, PendingTx,
  Alert, settler_tx_failure, critical,
}
use g_sandbox.Chain.{
  SettlementStatus, Poll, TxFate, tx_pending, tx_dropped, tx_mined, resolve_tx_fate, Extraction,
  settle_statuses_from_receipt,
}
use g_sandbox.Billing.Signer.{Signing}
use g_sandbox.Settler.Statuses.{handle_statuses}

-- `pendingTx.broadcast`
unfoldable pub broadcast : PendingTx → ℕ → ℕ → PendingTx
broadcast p tx_hash account_nonce = record p {
  tx_hash = some tx_hash;
  account_nonce = account_nonce;
}

-- `savePendingTx`, `loadPendingTx`, `clearPendingTx`
unfoldable pub save_pending_tx : PendingTx → Action (Unit {0})
save_pending_tx p = do command; modify (λ s. record s { pending = some p })

unfoldable pub load_pending_tx : Action (Option PendingTx)
load_pending_tx = do command; gets (λ s. s.pending)

unfoldable pub clear_pending_tx : Action (Unit {0})
clear_pending_tx = do try (command >> modify (λ s. record s { pending = none })); pure tt

-- `requeueRaw`; an error is only logged.
unfoldable pub requeue_raw : PendingTx → Action (Unit {0})
requeue_raw p = do try (push_front p.first_item); pure tt

-- Whether the contract has used the voucher's nonce.
abbrev nonce_used : ℕ → Option ℕ → Bool
nonce_used last none = false
nonce_used last (some n) = leb n last

-- The loop of `reconcileIntent`: how many vouchers have settled, `none` if the chain does not answer.
unfoldable pub count_settled : Signing → List SandboxVoucher → Option ℕ
count_settled chain [] = some 0
count_settled chain (v ∷ vs) = elim (chain.get_last_nonce v.user v.provider) [
  | none ↦ none
  | some last ↦ elim (count_settled chain vs) [
    | none ↦ none
    | some n ↦ some (if nonce_used last v.nonce then n + 1 else n)
  ]
]

-- `reconcileIntent`
unfoldable pub reconcile_intent : Signing → PendingTx → Action (Unit {0})
reconcile_intent chain p = elim (count_settled chain p.vouchers) [
  | none ↦ pure tt
  | some zero ↦ (do requeue_raw p; clear_pending_tx)
  | some (suc n) ↦ clear_pending_tx
]

-- `pendingTxStallPolls`
abbrev pub pending_tx_stall_polls : ℕ
pending_tx_stall_polls = 12

abbrev pub stall_alert : Alert
stall_alert = record {
  kind = settler_tx_failure;
  severity = critical;
  user = none;
  provider = none;
  sandbox = none;
}

unfoldable pub alert_stall : ℕ → Action (Unit {0})
alert_stall polls = if polls == pending_tx_stall_polls then notify stall_alert else pure tt

-- What ends the loop: the batch back in the queue, or its statuses applied.
unfoldable pub give_back : PendingTx → Action (Option (List SettlementStatus))
give_back p = do requeue_raw p; clear_pending_tx; pure none

unfoldable pub apply_statuses :
    PendingTx → List SettlementStatus → Action (Option (List SettlementStatus))
apply_statuses p sts = do
  handle_statuses p.consumed p.vouchers sts
  clear_pending_tx
  pure (some sts)

-- The cases of the loop's body, with the rest of the loop for the counts of `dropped` and
-- `pendingPolls`; `none` is the nil that the function returns.
unfoldable pub on_extraction :
    PendingTx
    → Action (Option (List SettlementStatus))
    → Extraction
    → Action (Option (List SettlementStatus))
on_extraction p next Extraction.reverted = give_back p
on_extraction p next Extraction.unreadable = next
on_extraction p next (Extraction.statuses sts) = apply_statuses p sts

unfoldable pub on_fate :
    PendingTx
    → Poll
    → (ℕ → ℕ → Action (Option (List SettlementStatus)))
    → ℕ
    → ℕ
    → TxFate
    → Action (Option (List SettlementStatus))
on_fate p poll next dropped waits (tx_mined r) =
    on_extraction p (next 0 waits) (settle_statuses_from_receipt poll r p.vouchers)
on_fate p poll next zero waits tx_dropped = next 1 waits
on_fate p poll next (suc _) waits tx_dropped = give_back p
on_fate p poll next dropped waits tx_pending = do alert_stall (waits + 1); next 0 (waits + 1)

-- The loop over the polls until the context is done.
unfoldable pub resolve_polls :
    PendingTx → List Poll → ℕ → ℕ → Action (Option (List SettlementStatus))
resolve_polls p [] dropped waits = pure none
resolve_polls p (poll ∷ polls) dropped waits =
    on_fate p poll (resolve_polls p polls) dropped waits (resolve_tx_fate poll p.account_nonce)

-- `resolvePendingTx`
unfoldable pub resolve_pending_tx : PendingTx → List Poll → Action (Option (List SettlementStatus))
resolve_pending_tx p polls = resolve_polls p polls 0 0
