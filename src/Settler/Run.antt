-- ===== src/Settler/Run.antt =====
-- `Run` of internal/settler/consumer.go: the gates before a batch, and the recovery at startup. The
-- clock is read once in a step.
use g_sandbox.Base.{
  ℕ, ◌-◌, ◌<◌, ◌≤◌, ◌≡◌, ◌⊎◌, Bool, true, false, not, Option, none, some, arith, ◌==◌, ltb, leb,
  is_some, length, if◌then◌else◌,
}
use g_sandbox.Store.{Action, ◌>>=◌, ◌>>◌, pure, gets, command, try}
use g_sandbox.Settler.Pending.{load_pending_tx, reconcile_intent, resolve_pending_tx}
use g_sandbox.Settler.Sweep.{Memo, maybe_sweep}
use g_sandbox.Settler.Round.{
  Env, RoundEnd, not_submitted, submit_failed, submitted, max_batch_size, settle_round,
}

-- `maxSettleInterval`, in seconds.
abbrev pub max_settle_interval : ℕ
max_settle_interval = 3600

-- `sweepInterval`, from VoucherIntervalSec; a value that is not positive is 0 here.
unfoldable pub sweep_interval : ℕ → ℕ
sweep_interval voucher_interval_sec = if voucher_interval_sec == 0 then 60 else voucher_interval_sec

-- `settleInterval`, from SettleIntervalSec and VoucherIntervalSec.
unfoldable pub settle_interval : ℕ → ℕ → ℕ
unfolding sweep_interval
settle_interval settle_interval_sec voucher_interval_sec =
    let wanted =
      if settle_interval_sec == 0
      then sweep_interval voucher_interval_sec
      else settle_interval_sec in
    if ltb max_settle_interval wanted then max_settle_interval else wanted

-- The variables of the loop; a time is `none` while it is the zero time.
pub record Loop : Type 0 where
  pub last_node_check : Option ℕ
  pub node_active : Bool
  pub last_submit : Option ℕ
  pub last_sweep : Option ℕ
  pub last_forced_sweep : Option ℕ
  pub last_bal : Memo

pub record Intervals : Type 0 where
  pub sweep : ℕ
  pub settle : ℕ

-- `time.Since(t) >= d`; the zero time is long ago.
abbrev elapsed : ℕ → ℕ → Option ℕ → Bool
elapsed now d none = true
elapsed now d (some t) = leb d (now - t)

-- A sweep that fails keeps the memo.
unfoldable pub run_sweep : Env → Bool → Memo → Action Memo
run_sweep env force memo = do
  swept ← try (maybe_sweep env.hashing env.now env.chain force memo)
  pure (elim swept [ none ↦ memo | some memo' ↦ memo' ])

unfoldable pub periodic_sweep : Env → Intervals → Loop → Action Loop
periodic_sweep env iv l =
    if elapsed env.now iv.sweep l.last_sweep
    then (do
      memo ← run_sweep env false l.last_bal
      pure (record l { last_sweep = some env.now; last_bal = memo }))
    else pure l

unfoldable pub forced_sweep : Env → Intervals → Loop → Action Loop
forced_sweep env iv l =
    if elapsed env.now iv.sweep l.last_forced_sweep
    then (do
      memo ← run_sweep env true l.last_bal
      pure (record l { last_forced_sweep = some env.now; last_bal = memo }))
    else pure l

-- `IsProviderActive` at most every thirty seconds; an error counts as active.
unfoldable pub check_node : ℕ → Option Bool → Loop → Loop
check_node now active l =
    if elapsed now 31 l.last_node_check
    then record l {
      node_active = elim active [ none ↦ true | some b ↦ b ];
      last_node_check = some now;
    }
    else l

-- The batching gate: whether the loop goes round without draining.
unfoldable pub waits_for_batch : Env → Intervals → Loop → Action Bool
waits_for_batch env iv l = if elapsed env.now iv.settle l.last_submit then pure false else (do
  qlen ← try (command >> gets (λ s. length s.queue))
  pure (elim qlen [ none ↦ false | some n ↦ ltb n max_batch_size ]))

unfoldable pub after_round : Env → Intervals → Loop → RoundEnd → Action Loop
after_round env iv l not_submitted = pure l
after_round env iv l submit_failed = forced_sweep env iv l
after_round env iv l submitted = pure (record l { last_submit = some env.now })

-- One turn of the loop, with what `IsProviderActive` answers.
unfoldable pub run_step : Env → Intervals → Option Bool → Loop → Action Loop
run_step env iv active loop = do
  swept ← periodic_sweep env iv loop
  let l = check_node env.now active swept
  if not l.node_active then forced_sweep env iv l else (do
    hold ← waits_for_batch env iv l
    if hold then pure l else (do end ← settle_round env; after_round env iv l end))

-- The recovery at startup.
unfoldable pub recover : Env → Action (Unit {0})
recover env = do
  loaded ← try load_pending_tx
  elim loaded [
    | none ↦ pure tt
    | some none ↦ pure tt
    | some (some p) ↦
        if is_some p.tx_hash
        then (do resolve_pending_tx p env.polls; pure tt)
        else reconcile_intent env.signing p
  ]

-- Whatever is configured, the settle window is at least a second and at most an hour, half of the
-- contract's refund lock; and a configured window within those bounds is used as it is.
settle_interval_bounds :
    (settle_sec voucher_sec : ℕ)
    → (1 ≤ settle_interval settle_sec voucher_sec)
      × (settle_interval settle_sec voucher_sec ≤ max_settle_interval)
      × ((settle_interval settle_sec voucher_sec ≡ settle_sec)
          ⊎ (settle_sec ≡ 0)
          ⊎ (max_settle_interval < settle_sec))
unfolding settle_interval
settle_interval_bounds settle_sec voucher_sec = (ground arith, ground arith, ground arith)
