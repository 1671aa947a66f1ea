-- ===== src/Examples/Rounds.antt =====
-- Batches of the settler at concrete stores.
use g_sandbox.Base.{◌≡◌, refl, ◌⊎◌, true, false, none, some, List, [], ◌∷◌, arith, drop, mem}
use g_sandbox.Voucher.{SandboxVoucher, Raw, json, fees, build_usage_hash}
use g_sandbox.Voucher.Collapse.{add_voucher, finish, collapse_by_sandbox}
use g_sandbox.Store.{
  critical, Store, PendingTx, StopSignal, stop_signal, not_acknowledged, push_front, push_event,
  notify, pure, find_stop,
}
use g_sandbox.Billing.Signer.{next_nonce, seed_nonce, incr_nonce, seal, sign}
use g_sandbox.Chain
use g_sandbox.Chain.{Poll, resolve_tx_fate}
use g_sandbox.Settler.Statuses.{entries_of, handle_statuses}
use g_sandbox.Settler.Statuses.Pops.{successes, handle_statuses_pops}
use g_sandbox.Settler.Pending.{
  requeue_raw, clear_pending_tx, give_back, on_fate, resolve_polls, resolve_pending_tx,
}
use g_sandbox.Settler.Pending.Fate.{Failed, requeues_only-Failed}
use g_sandbox.Settler.Round.{Env, parse_batch, sign_batch, sign_and_submit}
use g_sandbox.Settler.Round.Returned.{Submits, unsubmitted_batch_returns}
use g_sandbox.Settler.Round.Charged.{batch_charges_its_entries}
use g_sandbox.StopHandler.{
  Daytona, found, lookup_failed, classify_sandbox, keep_for_retry, handle_stop,
  recover_pending_stops,
}
use g_sandbox.StopHandler.Retry.{sandbox_ids, stop_is_retried}
use g_sandbox.Examples.{voucher, hashing, signing, everything, empty_store, busy, queued}

-- The second of the three pops fails.
handle_statuses_pops_example :
    (handle_statuses 4
      (voucher 1 5 40 ∷ voucher 2 7 3 ∷ [])
      (Chain.success ∷ Chain.insufficient_balance ∷ [])
      (record busy { faults = true ∷ false ∷ true ∷ [] })).1.queue
    ≡ drop 2 queued
unfolding successes entries_of
handle_statuses_pops_example =
    handle_statuses_pops 4 (voucher 1 5 40 ∷ voucher 2 7 3 ∷ [])
      (Chain.success ∷ Chain.insufficient_balance ∷ [])
      (record busy { faults = true ∷ false ∷ true ∷ [] })

abbrev in_flight : PendingTx
in_flight = record {
  tx_hash = some 1;
  account_nonce = 8;
  vouchers = voucher 1 5 40 ∷ [];
  first_item = json (voucher 1 5 10);
  consumed = 2;
}

-- No receipt, and the account's nonce is used.
abbrev gone : Poll
gone = record { receipt = none; confirmed = some 9; receipt_again = none; preview = λ vs. none }

requeues_only-Failed_example : Failed in_flight (gone ∷ gone ∷ [])
unfolding resolve_pending_tx resolve_polls on_fate resolve_tx_fate give_back requeue_raw
    clear_pending_tx push_front
requeues_only-Failed_example = requeues_only-Failed in_flight (gone ∷ gone ∷ []) busy (omega arith)

abbrev taken : List Raw
taken = json (voucher 1 5 10) ∷ json (voucher 1 5 30) ∷ []

abbrev merged : SandboxVoucher
merged = record (voucher 1 5 40) { usage_hash = 25; aggregated = true }

batch_charges_its_entries_example :
    fees everything (record merged { nonce = some 5; signature = some 77 } ∷ []) ≡ 40
unfolding collapse_by_sandbox parse_batch add_voucher finish build_usage_hash sign_batch sign seal
    incr_nonce next_nonce seed_nonce
batch_charges_its_entries_example =
    batch_charges_its_entries everything hashing 50 signing taken empty_store {batch = merged ∷ []}
      {signed = record merged { nonce = some 5; signature = some 77 } ∷ []} refl refl

-- A sandbox that keeps running because its archive fails, and one that is archived.
abbrev stuck : Daytona
stuck = record {
  lookup = found false;
  archives = false;
  lookup_again = lookup_failed;
  deregister_broker = λ id. pure tt;
}

abbrev stopping : Store
stopping = record empty_store { stops = stop_signal 5 not_acknowledged ∷ [] }

stop_is_retried_example :
    (signals : List StopSignal) × ((recover_pending_stops (handle_stop stuck 5 stopping).1).0
      ≡ some signals)
    × (sandbox_ids signals ≡ 5 ∷ [])
    × (mem 5 (sandbox_ids signals) ≡ true)
unfolding handle_stop classify_sandbox find_stop keep_for_retry notify push_event
stop_is_retried_example = stop_is_retried stuck 5 not_acknowledged stopping refl refl refl

-- The node rejects the transaction.
abbrev env : Env
env = record {
  hashing = hashing;
  signing = signing;
  chain = record { provider_address = 9; get_balance_batch = λ us. none };
  submit = λ vs. none;
  error_severity = critical;
  polls = [];
  now = 50;
}

unsubmitted_batch_returns_example :
    Submits env (merged ∷ []) busy
    ⊎ ((sign_and_submit env (json (voucher 1 5 10)) 2 (merged ∷ []) busy).1.queue
        ≡ json (voucher 1 5 10) ∷ queued)
unsubmitted_batch_returns_example =
    unsubmitted_batch_returns env (json (voucher 1 5 10)) 2 (merged ∷ []) busy refl
