-- ===== src/Store/State.antt =====
-- The state, and actions on it that may fail.
use g_sandbox.Base.{ℕ, zero, suc, Bool, true, false, Option, none, some, List, [], ◌∷◌}
use g_sandbox.Voucher.{Address, SandboxId, SandboxVoucher, Raw}

-- `Session` of internal/billing/session.go. A price text that is no positive decimal is `none`.
pub record Session : Type 0 where
  pub sandbox_id : SandboxId
  pub owner : Address
  pub provider : Address
  pub next_voucher_at : ℕ
  pub price_per_sec : Option ℕ

pub data Reason : Type 0 where
  insufficient_balance not_acknowledged unread : Reason

-- `StopSignal` of internal/settler/types.go, and a stop marker with its key.
pub record StopSignal : Type 0 where
  pub sandbox_id : SandboxId
  pub reason : Reason

abbrev pub stop_signal : SandboxId → Reason → StopSignal
stop_signal id reason = record { sandbox_id = id; reason = reason }

-- `pendingTx` of internal/settler/pendingtx.go; `none` is the zero hash.
pub record PendingTx : Type 0 where
  pub tx_hash : Option ℕ
  pub account_nonce : ℕ
  pub vouchers : List SandboxVoucher
  pub first_item : Raw
  pub consumed : ℕ

pub data EventType : Type 0 where
  created stopped auto_stopped settled error_event : EventType

pub record Event : Type 0 where
  pub kind : EventType
  pub sandbox_id : SandboxId
  pub user : Address
  pub amount : ℕ

-- `maxEvents`
abbrev pub max_events : ℕ
max_events = 50

pub data AlertKind : Type 0 where
  settler_tx_failure voucher_rejected voucher_invalid_nonce : AlertKind
  stop_persist_failure archive_failure : AlertKind

pub data Severity : Type 0 where
  warning critical : Severity

-- The identity fields among an alert's details.
pub record Alert : Type 0 where
  pub kind : AlertKind
  pub severity : Severity
  pub user : Option Address
  pub provider : Option Address
  pub sandbox : Option SandboxId

pub record Store : Type 0 where
  pub queue : List Raw  -- voucher:queue:<provider>
  pub held : Address → Address → List Raw  -- voucher:held:<user>:<provider>
  pub held_users : Address → List Address  -- voucher:held-users:<provider>
  pub dlq : Address → List Raw  -- voucher:dlq:<provider>
  pub nonces : Address → Address → Option ℕ  -- billing:nonce:<owner>:<provider>
  pub reserved : Address → Address → Option ℕ  -- billing:reserved:<user>:<provider>
  pub sessions : List (SandboxId × Session)  -- billing:compute:<id>
  pub stops : List StopSignal  -- stop:sandbox:<id>
  pub pending : Option PendingTx  -- settler:pending-tx:<provider>
  pub events : List Event  -- billing:events
  pub stop_ch : List StopSignal  -- what stopCh holds
  pub stop_cap : ℕ  -- how much it can hold
  pub alerts : List Alert  -- the calls of Notify, the last first
  pub faults : List Bool  -- whether each of the next Redis commands succeeds
  pub arrivals : List (Option (List Raw))  -- what others push before each of the next EXECs

abbrev pub Action : Type 0 → Type 0
Action A = Store → Option A × Store

infixl 5 ◌>>=◌ ◌>>◌
abbrev pub ◌>>=◌ : {A B : Type 0} → Action A → (A → Action B) → Action B
◌>>=◌ m f s = let (r, s') = m s in elim r [ none ↦ (none, s') | some a ↦ f a s' ]

abbrev pub ◌>>◌ : {A B : Type 0} → Action A → Action B → Action B
m >> k = m >>= λ _. k

abbrev pub pure : {A : Type 0} → A → Action A
pure a s = (some a, s)

abbrev pub fail : {A : Type 0} → Action A
fail s = (none, s)

abbrev pub gets : {A : Type 0} → (Store → A) → Action A
gets f s = (some (f s), s)

abbrev pub modify : (Store → Store) → Action (Unit {0})
modify f s = (some tt, f s)

abbrev pub next_ok : List Bool → Bool
next_ok [] = true
next_ok (b ∷ bs) = b

abbrev pub later_ok : List Bool → List Bool
later_ok [] = []
later_ok (b ∷ bs) = bs

abbrev pub check : Bool → Option (Unit {0})
check true = some tt
check false = none

-- One round trip to Redis.
abbrev pub command : Action (Unit {0})
command s = (check (next_ok s.faults), record s { faults = later_ok s.faults })

-- Some round trips in a row.
abbrev pub commands : ℕ → Action (Unit {0})
commands zero s = (some tt, s)
commands (suc n) s = (command >> commands n) s

-- The call of an action whose error is looked at or ignored by the caller.
abbrev pub try : {A : Type 0} → Action A → Action (Option A)
try m s = let (r, s') = m s in (some r, s')
