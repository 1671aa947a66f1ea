-- ===== src/Proxy/Start.antt =====
-- `handleStart` of internal/proxy/handler.go, up to its reply, and the billing hook behind it. The
-- answers of Daytona and the chain are given; what a broker does besides funding is left out.
pub mod Outcome
use g_sandbox.Base.{ℕ, Bool, true, false, ◌&&◌, not, Option, none, some, if◌then◌else◌}
use g_sandbox.Voucher.{Address, SandboxId, Hashing}
use g_sandbox.Store.{Session, Store, Action, ◌>>=◌, ◌>>◌, pure, try}
use g_sandbox.Billing.Price.{EventHandler}
use g_sandbox.Billing.Session.{get_session}
use g_sandbox.Billing.Events.{on_start}
use g_sandbox.Proxy.Gate.{
  Tariff, interval_cost, Funds, Admission, admitted, balance_error, insufficient, release_if, admit,
}
use g_sandbox.Proxy.Create.{check_ack, is_success}

-- What one start meets; a spec is cores and memory.
pub record StartRequest : Type 0 where
  pub id : SandboxId
  pub user : Address
  pub is_acknowledged : Option (Option Bool)  -- `none` without a checker
  pub spec : Option (ℕ × ℕ)  -- `GetSandbox`
  pub has_bal_check : Bool
  pub funds : Funds
  pub upstream_status : ℕ
  pub spec_again : Option (ℕ × ℕ)  -- `GetSandbox` in the hook

-- The status, whether Daytona was asked, and whether the hook is to run.
pub record StartReply : Type 0 where
  pub status : ℕ
  pub is_forwarded : Bool
  pub starts : Bool

abbrev pub refuse_start : ℕ → StartReply
refuse_start status = record { status = status; is_forwarded = false; starts = false }

abbrev pub spec_or_zero : Option (ℕ × ℕ) → ℕ × ℕ
spec_or_zero none = (0, 0)
spec_or_zero (some spec) = spec

abbrev pub start_required : Tariff → StartRequest → ℕ
start_required h r = interval_cost h (spec_or_zero r.spec).0 (spec_or_zero r.spec).1

-- Whether a session is open already; on an error of Redis it counts as absent.
abbrev pub is_open : Option (Option Session) → Bool
is_open none = false
is_open (some none) = false
is_open (some (some _)) = true

unfoldable pub serve_start : StartRequest → Address → ℕ → Bool → Action StartReply
serve_start r provider required holds =
    if is_success r.upstream_status
    then pure (record { status = r.upstream_status; is_forwarded = true; starts = true })
    else (do
      release_if holds r.user provider required
      pure (record { status = r.upstream_status; is_forwarded = true; starts = false }))

-- The gate's own replies.
unfoldable pub pass_start : StartRequest → Address → ℕ → Admission → Action StartReply
pass_start r provider required (admitted holds) = serve_start r provider required holds
pass_start r provider required balance_error = pure (refuse_start 502)
pass_start r provider required (insufficient _ _ _ _) = pure (refuse_start 402)

-- A start of an open session is not gated: no session would be opened, and none would release.
unfoldable pub gate_start : Bool → Tariff → StartRequest → Action Admission
gate_start false h r = pure (admitted false)
gate_start true h r = admit r.user h.provider_address (start_required h r) r.funds

unfoldable pub start_acked : Tariff → StartRequest → Option ℕ → Action StartReply
start_acked h r (some status) = pure (refuse_start status)
start_acked h r none = do
  existing ← try (get_session r.id)
  a ← gate_start (r.has_bal_check && not (is_open existing)) h r
  pass_start r h.provider_address (start_required h r) a

-- `handleStart`, up to the reply
unfoldable pub handle_start : Tariff → StartRequest → Action StartReply
handle_start h r = start_acked h r (check_ack r.is_acknowledged)

-- The goroutine behind it.
unfoldable pub after_start :
    Hashing → EventHandler → ℕ → StartRequest → StartReply → Action (Unit {0})
after_start hash h now r reply =
    if reply.starts
    then on_start hash h now r.id r.user (spec_or_zero r.spec_again).0 (spec_or_zero r.spec_again).1
    else pure tt
