-- ===== src/StopHandler.antt =====
-- The stop pipeline of cmd/billing/main.go: `classifySandbox`, `runStopHandler` and
-- `recoverPendingStops`.
pub mod Retry
use g_sandbox.Base.{
  ℕ, Bool, true, false, not, ◌||◌, ◌&&◌, Option, none, some, List, [], ◌∷◌, ◌++◌, if◌then◌else◌,
}
use g_sandbox.Voucher.{SandboxId}
use g_sandbox.Store.{
  Store, Action, ◌>>=◌, ◌>>◌, pure, gets, modify, command, try, StopSignal, Reason, unread,
  stop_signal, Alert, archive_failure, critical, notify, push_event, error_event, auto_stopped,
  delete_stop,
}
use g_sandbox.Billing.Session.{delete_session}

-- What `GetSandbox` answers: a sandbox, archived or not; a definite 404; or another error.
pub data Lookup : Type 0 where
  found : Bool → Lookup
  not_found lookup_failed : Lookup

-- `sandboxDisposition`
pub data Disposition : Type 0 where
  active archived gone : Disposition

-- `classifySandbox`
unfoldable pub classify_sandbox : Lookup → Disposition
classify_sandbox (found true) = archived
classify_sandbox (found false) = active
classify_sandbox not_found = gone
classify_sandbox lookup_failed = active

abbrev pub is_active : Disposition → Bool
is_active active = true
is_active archived = false
is_active gone = false

-- What a signal meets outside: the lookups before and after, whether `ArchiveSandbox` succeeds, and
-- the broker's hook. Stopping and waiting are only logged when they fail.
pub record Daytona : Type 0 where
  pub lookup : Lookup
  pub archives : Bool
  pub lookup_again : Lookup
  pub deregister_broker : SandboxId → Action (Unit {0})

-- Whether the handler finds the sandbox in a terminal state, or brings it there.
abbrev pub is_terminal : Daytona → Bool
is_terminal d =
    not (is_active (classify_sandbox d.lookup))
    || d.archives
    || not (is_active (classify_sandbox d.lookup_again))

abbrev pub archive_alert : SandboxId → Alert
archive_alert id = record {
  kind = archive_failure;
  severity = critical;
  user = none;
  provider = none;
  sandbox = some id;
}

-- The session, the marker and the broker's registration go; errors are ignored.
unfoldable pub clean_up : Daytona → SandboxId → Action (Unit {0})
clean_up d id = do
  try (delete_session id)
  try (command >> modify (λ s. record s { stops = delete_stop id s.stops }))
  d.deregister_broker id

-- An archive that failed: the marker and the session stay.
unfoldable pub keep_for_retry : SandboxId → Action (Unit {0})
keep_for_retry id = do
  notify (archive_alert id)
  try (push_event (record { kind = error_event; sandbox_id = id; user = 0; amount = 0 }))
  pure tt

unfoldable pub finish_stop : Daytona → SandboxId → Action (Unit {0})
finish_stop d id = do
  clean_up d id
  try (push_event (record { kind = auto_stopped; sandbox_id = id; user = 0; amount = 0 }))
  pure tt

-- The body of the loop of `runStopHandler`.
unfoldable pub handle_stop : Daytona → SandboxId → Action (Unit {0})
handle_stop d id =
    if not (is_active (classify_sandbox d.lookup))
    then clean_up d id
    else if not d.archives && is_active (classify_sandbox d.lookup_again)
    then keep_for_retry id
    else finish_stop d id

-- GET of the markers that a scan found, each with a signal; an error leaves the reason empty.
unfoldable pub resend : List StopSignal → Action (List StopSignal)
resend [] = pure []
resend (m ∷ ms) = do
  reason ← try command
  signals ← resend ms
  pure (stop_signal m.sandbox_id (elim reason [ none ↦ unread | some _ ↦ m.reason ]) ∷ signals)

-- `recoverPendingStops`, with the keys in one page; it returns the signals that it sends.
unfoldable pub recover_pending_stops : Action (List StopSignal)
recover_pending_stops = do command; markers ← gets (λ s. s.stops); resend markers
