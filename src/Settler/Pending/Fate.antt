-- ===== src/Settler/Pending/Fate.antt =====
-- When the batch of a broadcast transaction goes back to the queue.
use g_sandbox.Base.{
  ℕ, zero, suc, ◌+◌, ◌-◌, ◌≤◌, ◌<◌, ◌≡◌, refl, subst, ◌⊎◌, inl, inr, true, Option, none, some, List,
  [], ◌∷◌, arith, ◌==◌, drop, length, Bool-cases,
}
use g_sandbox.Voucher.{SandboxVoucher, Raw}
use g_sandbox.Store.{Store, Action, ◌>>◌, pure, PendingTx, Alert, notify}
use g_sandbox.Chain.{
  SettlementStatus, Receipt, Poll, TxFate, tx_pending, tx_dropped, tx_mined, resolve_tx_fate,
  Extraction, settle_statuses_from_receipt,
}
use g_sandbox.Store.Keeps.{Keeps-after}
use g_sandbox.Settler.Statuses.{entries_of, handle_statuses}
use g_sandbox.Settler.Statuses.Pops.{queue_of, successes, handle_statuses_pops}
use g_sandbox.Settler.Pending.{
  pending_tx_stall_polls, stall_alert, clear_pending_tx, alert_stall, on_extraction, on_fate,
  apply_statuses, resolve_polls, resolve_pending_tx,
}

-- Why a transaction counts as failed: a poll has its receipt and it is reverted, or two polls in a
-- row find its nonce used and no receipt.
pub data Failed : PendingTx → List Poll → Type 0 where
  reverted_receipt :
      {p : PendingTx} {poll : Poll} {polls : List Poll} (r : Receipt)
      → resolve_tx_fate poll p.account_nonce ≡ tx_mined r
      → r.reverted ≡ true
      → Failed p (poll ∷ polls)
  dropped_twice :
      {p : PendingTx} {poll again : Poll} {polls : List Poll}
      → resolve_tx_fate poll p.account_nonce ≡ tx_dropped
      → resolve_tx_fate again p.account_nonce ≡ tx_dropped
      → Failed p (poll ∷ again ∷ polls)
  later :
      {p : PendingTx} {poll : Poll} {polls : List Poll} → Failed p polls → Failed p (poll ∷ polls)

-- The first poll finds it dropped.
pub data Dropped : PendingTx → List Poll → Type 0 where
  dropped_now :
      {p : PendingTx} {poll : Poll} {polls : List Poll}
      → resolve_tx_fate poll p.account_nonce ≡ tx_dropped
      → Dropped p (poll ∷ polls)

length-drop : (n : ℕ) (q : List Raw) → length (drop n q) ≤ length q
length-drop zero q = omega arith
length-drop (suc n) [] = omega arith
length-drop (suc n) (r ∷ q) = omega (arith, length-drop n q)

length-apply_statuses :
    (p : PendingTx) (sts : List SettlementStatus) (s : Store)
    → length (apply_statuses p sts s).1.queue ≤ length s.queue
unfolding apply_statuses clear_pending_tx
length-apply_statuses p sts s =
    let finish : Unit {0} → Action (Option (List SettlementStatus)) =
      λ _. clear_pending_tx >> pure (some sts) in
    let n = successes (entries_of p.consumed p.vouchers - 1) s.faults in
    rw
      (
        Keeps-after queue_of (handle_statuses p.consumed p.vouchers sts) finish s
            (λ _ s'. ground arith),
        handle_statuses_pops p.consumed p.vouchers sts s,
      )
      (length-drop n s.queue)

alert_stall_lem :
    (n : ℕ) (s : Store)
    → (alerts : List Alert) × (alert_stall n s ≡ (some tt, record s { alerts = alerts }))
unfolding alert_stall notify
alert_stall_lem n s = elim (Bool-cases (n == pending_tx_stall_polls)) [
  | inl stalled ↦ (stall_alert ∷ s.alerts, rw stalled)
  | inr early ↦ (s.alerts, rw early)
]

reverted_lem :
    (poll : Poll) (r : Receipt) (vs : List SandboxVoucher)
    → settle_statuses_from_receipt poll r vs ≡ Extraction.reverted
    → r.reverted ≡ true
unfolding settle_statuses_from_receipt
reverted_lem poll r vs e = ground arith

abbrev Grows : Action (Option (List SettlementStatus)) → Store → Type 0
Grows m s = length s.queue < length (m s).1.queue

never-Dropped :
    {p : PendingTx} {polls : List Poll}
    → Failed p polls ⊎ ((0 < 0) × Dropped p polls)
    → Failed p polls
never-Dropped (inl failed) = failed
never-Dropped (inr (less, _)) = absurd (omega arith)

second :
    {p : PendingTx} {poll : Poll} {polls : List Poll}
    → resolve_tx_fate poll p.account_nonce ≡ tx_dropped
    → Failed p polls ⊎ ((0 < 1) × Dropped p polls)
    → Failed p (poll ∷ polls)
second e (inl failed) = later failed
second e (inr (_, dropped_now again)) = dropped_twice e again

-- The cases of one poll, from what the later polls come to.
module _ (p : PendingTx) (poll : Poll) (polls : List Poll) where
  abbrev Why : ℕ → Type 0
  Why dropped = Failed p (poll ∷ polls) ⊎ ((0 < dropped) × Dropped p (poll ∷ polls))

  Grows-extraction :
      (r : Receipt) (next : Action (Option (List SettlementStatus))) (x : Extraction) (s : Store)
      → resolve_tx_fate poll p.account_nonce ≡ tx_mined r
      → settle_statuses_from_receipt poll r p.vouchers ≡ x
      → (Grows next s → Failed p polls)
      → Grows (on_extraction p next x) s
      → Failed p (poll ∷ polls)
  unfolding on_extraction
  Grows-extraction r next Extraction.reverted s mined e rest grows =
      reverted_receipt r mined (reverted_lem poll r p.vouchers e)
  Grows-extraction r next Extraction.unreadable s mined e rest grows = later (rest grows)
  Grows-extraction r next (Extraction.statuses sts) s mined e rest grows =
      absurd (omega (arith, length-apply_statuses p sts s))

  Grows-fate :
      (dropped waits : ℕ) (fate : TxFate) (s : Store)
      → resolve_tx_fate poll p.account_nonce ≡ fate
      → ((d w : ℕ) (s' : Store)
          → Grows (resolve_polls p polls d w) s'
          → Failed p polls ⊎ ((0 < d) × Dropped p polls))
      → Grows (on_fate p poll (resolve_polls p polls) dropped waits fate) s
      → Why dropped
  unfolding on_fate
  Grows-fate dropped waits (tx_mined r) s e rest grows = inl (
      Grows-extraction r (resolve_polls p polls 0 waits)
        (settle_statuses_from_receipt poll r p.vouchers) s e refl
        (λ g. never-Dropped (rest 0 waits s g)) grows)
  Grows-fate zero waits tx_dropped s e rest grows = inl (second e (rest 1 waits s grows))
  Grows-fate (suc n) waits tx_dropped s e rest grows = inr (omega arith, dropped_now e)
  Grows-fate dropped waits tx_pending s e rest grows =
      let (alerts, a) = alert_stall_lem (waits + 1) s in
      let resumed =
        subst
          (λ r.
            length s.queue
            < length
                (elim r.0 as (λ _. Option (Option (List SettlementStatus)) × Store) [
                  | none ↦ (none, r.1)
                  | some _ ↦ resolve_polls p polls 0 (waits + 1) r.1
                ]).1.queue)
          a grows in
      inl (later (never-Dropped (rest 0 (waits + 1) (record s { alerts = alerts }) resumed)))

Grows-resolve_polls :
    (p : PendingTx) (polls : List Poll) (dropped waits : ℕ) (s : Store)
    → Grows (resolve_polls p polls dropped waits) s
    → Failed p polls ⊎ ((0 < dropped) × Dropped p polls)
unfolding resolve_polls
Grows-resolve_polls p [] dropped waits s g = absurd (omega arith)
Grows-resolve_polls p (poll ∷ polls) dropped waits s g =
    Grows-fate p poll polls dropped waits (resolve_tx_fate poll p.account_nonce) s refl
      (Grows-resolve_polls p polls) g

-- Whatever Redis answers, a batch that was broadcast is put back, so that the queue is longer than
-- before, only if a poll had the transaction's receipt and it was reverted, or two polls in a row
-- found the account's nonce used and no receipt.
pub requeues_only-Failed :
    (p : PendingTx) (polls : List Poll) (s : Store)
    → length s.queue < length (resolve_pending_tx p polls s).1.queue
    → Failed p polls
unfolding resolve_pending_tx
requeues_only-Failed p polls s g = never-Dropped (Grows-resolve_polls p polls 0 0 s g)
