-- ===== src/Settler/Pending/Intent.antt =====
-- What becomes of the queue when an intent without a transaction hash is reconciled.
use g_sandbox.Base.{zero, suc, ◌≡◌, ◌⊎◌, inl, inr, some, ◌∷◌, arith, Option-cases}
use g_sandbox.Store.{Store, PendingTx, push_front}
use g_sandbox.Billing.Signer.{Signing}
use g_sandbox.Settler.Pending.{requeue_raw, clear_pending_tx, count_settled, reconcile_intent}

-- Whatever the chain and Redis answer, reconciling an intent takes nothing from the queue: it leaves
-- the queue as it is, or, if the chain has used the nonce of no voucher of the batch, puts the batch's
-- first item in front. In particular, of a batch that has settled the other items stay in the queue.
pub reconcile_intent_pops_nothing :
    (chain : Signing) (p : PendingTx) (s : Store)
    → let queue = (reconcile_intent chain p s).1.queue in
      (queue ≡ s.queue)
      ⊎ ((count_settled chain p.vouchers ≡ some 0) × (queue ≡ p.first_item ∷ s.queue))
unfolding reconcile_intent requeue_raw clear_pending_tx push_front
reconcile_intent_pops_nothing chain p s = elim (Option-cases (count_settled chain p.vouchers)) [
  | inl silent ↦ ground arith
  | inr (zero, none_settled) ↦ ground arith
  | inr (suc n, some_settled) ↦ ground arith
]
