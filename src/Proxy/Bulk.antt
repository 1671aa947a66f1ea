-- ===== src/Proxy/Bulk.antt =====
-- The routes over all sandboxes in internal/proxy/handler.go: `handleArchiveAll` and `handleList`. What
-- Daytona answers to the calls for one sandbox stands in its record.
pub mod Counts
use Prim.Native.String.{String}
use package.text.Mathlib.Text.{◌==◌}
use g_sandbox.Base.{
  ℕ, ◌⊎◌, inl, inr, Bool, true, false, ◌||◌, Option, none, some, List, [], ◌∷◌, if◌then◌else◌,
}
use g_sandbox.Voucher.{SandboxId}
use g_sandbox.Store.{Action, ◌>>=◌, ◌>>◌, pure}
use g_sandbox.Billing.Events.{on_archive}
use g_sandbox.Proxy.Text.{Folding, equal_fold}

-- A sandbox in Daytona's list; its state is in lower case, a missing owner label empty.
pub record Listed : Type 0 where
  pub id : SandboxId
  pub state : String
  pub owner : String
  pub waits : Bool  -- whether `WaitStopped` succeeds
  pub archives : Bool  -- whether `ArchiveSandbox` succeeds

-- The reply of `handleArchiveAll`.
pub record ArchiveReport : Type 0 where
  pub archived : List SandboxId
  pub skipped : List SandboxId
  pub failed : List SandboxId

abbrev pub empty_report : ArchiveReport
empty_report = record { archived = []; skipped = []; failed = [] }

-- The archiving of a stopped sandbox, with the billing hook behind it.
unfoldable pub archive_stopped : Listed → ArchiveReport → Action ArchiveReport
archive_stopped sb r =
    if sb.archives
    then on_archive sb.id >> pure (record r { archived = sb.id ∷ r.archived })
    else pure (record r { failed = sb.id ∷ r.failed })

-- The switch of the loop; an error of the stop itself is ignored.
unfoldable pub archive_one : Listed → ArchiveReport → Action ArchiveReport
archive_one sb r =
    if sb.state == "started" || sb.state == "starting"
    then (if sb.waits then archive_stopped sb r else pure (record r { failed = sb.id ∷ r.failed }))
    else if sb.state == "stopped"
    then archive_stopped sb r
    else pure (record r { skipped = sb.id ∷ r.skipped })

-- The loop; the lists grow at the front.
unfoldable pub archive_all : List Listed → ArchiveReport → Action ArchiveReport
archive_all [] r = pure r
archive_all (sb ∷ sbs) r = archive_one sb r >>= archive_all sbs

-- `handleArchiveAll`, for an operator or not: a report, or the status of a refusal.
unfoldable pub handle_archive_all : Bool → Option (List Listed) → Action (ArchiveReport ⊎ ℕ)
handle_archive_all false sbs = pure (inr 403)
handle_archive_all true none = pure (inr 502)
handle_archive_all true (some sbs) = do r ← archive_all sbs empty_report; pure (inl r)

-- `handleList`: the caller's own sandboxes.
unfoldable pub own_sandboxes : Folding → String → List Listed → List Listed
own_sandboxes fold wallet [] = []
own_sandboxes fold wallet (sb ∷ sbs) =
    let rest = own_sandboxes fold wallet sbs in
    if equal_fold fold sb.owner wallet then sb ∷ rest else rest

unfoldable pub handle_list : Folding → String → Option (List Listed) → List Listed ⊎ ℕ
handle_list fold wallet none = inr 502
handle_list fold wallet (some sbs) = inl (own_sandboxes fold wallet sbs)
