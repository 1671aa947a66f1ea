-- ===== src/Billing/Events.antt =====
-- The lifecycle handlers of internal/billing/events.go: `OnCreate`, `OnStart`, `OnStop`, `OnDelete`,
-- `OnArchive` and `EnsureSession`. The clock is an argument.
pub mod Opened
use g_sandbox.Base.{ℕ, ◌+◌, ◌*◌, false, Option, none, some}
use g_sandbox.Voucher.{Address, SandboxId, SandboxVoucher, Hashing, build_usage_hash}
use g_sandbox.Store.{Session, Action, ◌>>=◌, ◌>>◌, pure, try, push_event, created}
use g_sandbox.Billing.Price.{EventHandler, compute_price, emit_period_voucher}
use g_sandbox.Billing.Session.{create_session, get_session, delete_session}
use g_sandbox.Billing.Reserved.{release}
use g_sandbox.Billing.Signer.{enqueue}

-- The create-fee voucher.
abbrev pub create_voucher : Hashing → EventHandler → ℕ → SandboxId → Address → SandboxVoucher
create_voucher hash h now id owner = record {
  sandbox_id = id;
  user = owner;
  provider = h.provider_address;
  total_fee = some h.create_fee;
  usage_hash = build_usage_hash hash id now now 0;
  nonce = none;
  signature = none;
  aggregated = false;
}

abbrev pub opened_session : EventHandler → SandboxId → Address → ℕ → ℕ → Session
opened_session h id owner price next_voucher_at = record {
  sandbox_id = id;
  owner = owner;
  provider = h.provider_address;
  next_voucher_at = next_voucher_at;
  price_per_sec = some price;
}

-- `nextVoucherAt` of `OnCreate`: now, if the first period is not emitted.
abbrev pub next_or_now : ℕ → Option ℕ → ℕ
next_or_now now none = now
next_or_now now (some t) = t

-- `OnCreate`
unfoldable pub on_create :
    Hashing → EventHandler → ℕ → SandboxId → Address → ℕ → ℕ → Action (Unit {0})
on_create hash h now id owner cpu mem_gb = do
  try (enqueue (create_voucher hash h now id owner))
  let price = compute_price h cpu mem_gb
  emitted ← try (emit_period_voucher hash h id owner price now 1)
  try (create_session (opened_session h id owner price (next_or_now now emitted)))
  let total_upfront = h.create_fee + price * h.voucher_interval_sec
  release owner h.provider_address total_upfront
  try (
      push_event (record { kind = created; sandbox_id = id; user = owner; amount = total_upfront }))
  pure tt

-- The part of `OnStart` for a sandbox without a session.
unfoldable pub open_on_start :
    Hashing → EventHandler → ℕ → SandboxId → Address → ℕ → ℕ → Action (Unit {0})
open_on_start hash h now id owner cpu mem_gb = do
  let price = compute_price h cpu mem_gb
  emitted ← try (emit_period_voucher hash h id owner price now 1)
  elim emitted [
    | none ↦ pure tt
    | some next_voucher_at ↦ (do
      try (create_session (opened_session h id owner price next_voucher_at))
      release owner h.provider_address (price * h.voucher_interval_sec)
      pure tt)
  ]

-- What both callers of `GetSession` do: nothing if it fails or finds a session.
abbrev pub unless_open : Action (Unit {0}) → Option (Option Session) → Action (Unit {0})
unless_open otherwise none = pure tt
unless_open otherwise (some (some _)) = pure tt
unless_open otherwise (some none) = otherwise

-- `OnStart`
unfoldable pub on_start :
    Hashing → EventHandler → ℕ → SandboxId → Address → ℕ → ℕ → Action (Unit {0})
on_start hash h now id owner cpu mem_gb =
    try (get_session id) >>= unless_open (open_on_start hash h now id owner cpu mem_gb)

-- `OnStop`, `OnDelete`, `OnArchive`
unfoldable pub on_stop : SandboxId → Action (Unit {0})
on_stop id = do try (delete_session id); pure tt

unfoldable pub on_delete : SandboxId → Action (Unit {0})
on_delete id = do try (delete_session id); pure tt

unfoldable pub on_archive : SandboxId → Action (Unit {0})
on_archive id = on_delete id

-- `EnsureSession`
unfoldable pub ensure_session : Hashing → EventHandler → ℕ → SandboxId → Address → Action (Unit {0})
ensure_session hash h now id owner =
    try (get_session id) >>= unless_open (on_create hash h now id owner 0 0)
