-- ===== src/Settler/Statuses.antt =====
-- `HandleStatuses` of internal/settler/handler.go.
pub mod Pops
use g_sandbox.Base.{
  ℕ, zero, suc, ◌-◌, Bool, Option, none, some, List, [], ◌∷◌, ◌++◌, ◌==◌, drop, length,
  if◌then◌else◌,
}
use g_sandbox.Voucher.{SandboxId, SandboxVoucher, Raw, json, fee_of, is_aggregated}
use g_sandbox.Store.{
  Store, Action, ◌>>=◌, ◌>>◌, pure, fail, modify, command, try, put, put₂, push_event, settled,
  notify, Alert, Reason, insufficient_balance, not_acknowledged, voucher_rejected,
  voucher_invalid_nonce, stop_persist_failure, critical,
}
use g_sandbox.Backlog.{push_held}
use g_sandbox.Chain
use g_sandbox.Chain.{SettlementStatus}
use g_sandbox.Settler.Stop.{persist_stop, stop_all_sandboxes_of}

-- LPOP, its error ignored.
unfoldable pub pop_entry : Action (Unit {0})
pop_entry = do try (command >> modify (λ s. record s { queue = drop 1 s.queue })); pure tt

-- The loop that pops the batch's entries.
unfoldable pub pop_entries : ℕ → Action (Unit {0})
pop_entries zero = pure tt
pop_entries (suc n) = do pop_entry; pop_entries n

abbrev pub account_alert : SandboxVoucher → Alert
account_alert v = record {
  kind = voucher_rejected;
  severity = critical;
  user = some v.user;
  provider = some v.provider;
  sandbox = none;
}

abbrev pub persist_alert : SandboxId → Alert
persist_alert id = record {
  kind = stop_persist_failure;
  severity = critical;
  user = none;
  provider = none;
  sandbox = some id;
}

-- A stop order whose failure raises an alert.
unfoldable pub alert_unless : Alert → Option (Unit {0}) → Action (Unit {0})
alert_unless alert none = notify alert
alert_unless alert (some done) = pure tt

unfoldable pub stop_or_alert : SandboxId → Reason → Action (Unit {0})
stop_or_alert id reason = try (persist_stop id reason) >>= alert_unless (persist_alert id)

-- The cases of the switch.
unfoldable pub on_success : SandboxVoucher → Action (Unit {0})
on_success v = do
  try (
      push_event
        (record { kind = settled; sandbox_id = v.sandbox_id; user = v.user; amount = fee_of v }))
  pure tt

unfoldable pub on_insufficient_balance : SandboxVoucher → Action (Unit {0})
on_insufficient_balance v =
    if is_aggregated v
    then (do stop_all_sandboxes_of v.user v.provider; notify (account_alert v))
    else stop_or_alert v.sandbox_id insufficient_balance

unfoldable pub on_not_acknowledged : SandboxVoucher → Action (Unit {0})
on_not_acknowledged v = do
  try (push_held v)
  if is_aggregated v then pure tt else stop_or_alert v.sandbox_id not_acknowledged

unfoldable pub on_misconfigured : SandboxVoucher → Action (Unit {0})
on_misconfigured v = do
  try (
      command
      >> modify (λ s. record s { dlq = put v.provider (s.dlq v.provider ++ json v ∷ []) s.dlq }))
  notify (let a = account_alert v in record a { sandbox = some v.sandbox_id })

unfoldable pub on_invalid_nonce : SandboxVoucher → Action (Unit {0})
on_invalid_nonce v = do
  try (command >> modify (λ s. record s { nonces = put₂ v.user v.provider none s.nonces }))
  notify (let a = account_alert v in record a { kind = voucher_invalid_nonce })

unfoldable pub handle_status : SandboxVoucher → SettlementStatus → Action (Unit {0})
handle_status v Chain.success = on_success v
handle_status v Chain.insufficient_balance = on_insufficient_balance v
handle_status v Chain.not_acknowledged = on_not_acknowledged v
handle_status v Chain.provider_mismatch = on_misconfigured v
handle_status v Chain.invalid_signature = on_misconfigured v
handle_status v Chain.invalid_nonce = on_invalid_nonce v
handle_status v Chain.unknown = pure tt

-- The loop over the statuses; more statuses than vouchers is an index out of range.
unfoldable pub handle_each : List SandboxVoucher → List SettlementStatus → Action (Unit {0})
handle_each vs [] = pure tt
handle_each [] (st ∷ sts) = fail
handle_each (v ∷ vs) (st ∷ sts) = do handle_status v st; handle_each vs sts

-- How many entries the batch took; 0 falls back to one for each voucher.
unfoldable pub entries_of : ℕ → List SandboxVoucher → ℕ
entries_of consumed vs = if consumed == 0 then length vs else consumed

-- `HandleStatuses`
unfoldable pub handle_statuses : ℕ → List SandboxVoucher → List SettlementStatus → Action (Unit {0})
handle_statuses consumed vs sts = do pop_entries (entries_of consumed vs - 1); handle_each vs sts
