-- ===== src/Proxy/Routes.antt =====
-- The routes of one sandbox in internal/proxy/handler.go: `isAdmin`, `handleCatchAll`, the three guards
-- and the handlers behind them, but for `handleStart`. Daytona's answers are given.
pub mod Access
use Prim.Native.String.{String}
use package.text.Mathlib.Text.{◌==◌}
use g_sandbox.Base.{
  ℕ, zero, suc, ◌⊎◌, inl, inr, Bool, true, false, ◌&&◌, ◌||◌, not, Option, none, some, List, [],
  ◌∷◌, if◌then◌else◌,
}
use g_sandbox.Voucher.{Address, SandboxId, Hashing}
use g_sandbox.Store.{Action, ◌>>=◌, ◌>>◌, pure, try}
use g_sandbox.Billing.Price.{EventHandler}
use g_sandbox.Billing.Session.{delete_session}
use g_sandbox.Billing.Events.{on_stop, on_delete, on_archive, ensure_session}
use g_sandbox.Proxy.Text.{Folding, equal_fold, contains}
use g_sandbox.Proxy.Json.{Fields, Body}
use g_sandbox.Proxy.Owner.{
  owner_label, Rewritten, rewritten, body_error, panics, merge_protected_labels, check_owner,
  is_sealed_sandbox,
}
use g_sandbox.Proxy.Create.{is_success}

-- `isAdmin`; a wallet in lower case, the configured addresses, and what the two lookups answer.
-- `none` is no lookup, or an error of it.
unfoldable pub is_admin : String → List String → Option String → Option Bool → Bool
is_admin wallet addresses app_owner app_admin =
    not (wallet == "")
    && (contains wallet addresses
        || (elim app_owner [ none ↦ false | some owner ↦ owner == wallet ])
        || (elim app_admin [ none ↦ false | some allowed ↦ allowed ]))

pub data Method : Type 0 where
  get post put delete other_method : Method

-- What a request under /sandbox/:id is routed to: nothing, the two routes without an action, or what
-- `handleCatchAll` dispatches to.
pub data Route : Type 0 where
  unrouted read remove : Route
  blocked start stop archive ensure_billing ssh_access : Route
  force_delete force_stop labels other_action : Route

unfoldable pub post_route : String → Route
post_route action =
    if "/start" == action
    then start
    else if "/stop" == action
    then stop
    else if "/archive" == action
    then archive
    else if "/ensure-billing" == action
    then ensure_billing
    else if "/ssh-access" == action
    then ssh_access
    else if "/force-stop" == action
    then force_stop
    else other_action

-- The switch of `handleCatchAll`.
unfoldable pub method_route : Method → String → Route
method_route post action = post_route action
method_route delete action = if "/force" == action then force_delete else other_action
method_route put action = if "/labels" == action then labels else other_action
method_route _ action = other_action

unfoldable pub route_of : Method → String → Route
route_of method action =
    if "/autostop" == action || "/autoarchive" == action
    then blocked
    else method_route method action

-- The routes that `Register` mounts for one sandbox, without an action or with one; gin's action begins
-- with a slash.
unfoldable pub sandbox_route : Method → Option String → Route
sandbox_route get none = read
sandbox_route delete none = remove
sandbox_route _ none = unrouted
sandbox_route method (some action) = route_of method action

-- Who asks, and for what: the labels of the sandbox, if `GetSandbox` finds it.
pub record Caller : Type 0 where
  pub fold : Folding
  pub wallet : String
  pub is_operator : Bool  -- `isAdmin`
  pub found : Option (String → Option String)

abbrev pub owns : Caller → Bool
owns c = check_owner c.fold c.found c.wallet

-- The guard of `withOwnerNotSealed`; a missing owner label reads as the empty text.
unfoldable pub owner_not_sealed : Caller → Option (String → Option String) → Bool
owner_not_sealed c none = false
owner_not_sealed c (some ls) =
    equal_fold c.fold (elim (ls owner_label) [ none ↦ "" | some owner ↦ owner ]) c.wallet
    && not (is_sealed_sandbox ls)

-- `handleSSHAccess` looks again whether the sandbox is sealed.
abbrev pub is_open_to_ssh : Caller → Bool
is_open_to_ssh c = elim c.found [ none ↦ false | some ls ↦ not (is_sealed_sandbox ls) ]

-- Whether the guards of a route let the caller through to its handler, and that to Daytona.
unfoldable pub grants : Caller → Route → Bool
grants c unrouted = false
grants c read = c.is_operator || owns c
grants c remove = c.is_operator || owns c
grants c blocked = false
grants c start = owns c
grants c stop = c.is_operator || owns c
grants c archive = c.is_operator || owns c
grants c ensure_billing = c.is_operator || owns c
grants c ssh_access = owns c && is_open_to_ssh c
grants c force_delete = c.is_operator
grants c force_stop = c.is_operator
grants c labels = owns c
grants c other_action = owner_not_sealed c c.found

-- `handleStop`, with Daytona's status: the billing hook.
unfoldable pub handle_stop : SandboxId → ℕ → Action ℕ
handle_stop id status = if is_success status then on_stop id >> pure status else pure status

-- `handleDelete`, and `handleForceDelete` behind its check
unfoldable pub handle_delete : SandboxId → ℕ → Action ℕ
handle_delete id status = if is_success status then on_delete id >> pure status else pure status

-- `handleArchive`
unfoldable pub handle_archive : SandboxId → ℕ → Action ℕ
handle_archive id status = if is_success status then on_archive id >> pure status else pure status

-- `handleEnsureBilling`
unfoldable pub handle_ensure_billing : Hashing → EventHandler → ℕ → SandboxId → Address → Action ℕ
handle_ensure_billing hash h now id owner = ensure_session hash h now id owner >> pure 200

-- `handleForceStop` behind its check: whether the stop was taken, and whether it was done in time.
unfoldable pub handle_force_stop : SandboxId → (stopped waited : Bool) → Action ℕ
handle_force_stop id false waited = pure 502
handle_force_stop id true false = pure 504
handle_force_stop id true true = on_stop id >> pure 200

-- `handleCloseSession`, for an operator or not; 0 is the empty id.
unfoldable pub handle_close_session : Bool → SandboxId → Action ℕ
handle_close_session false id = pure 403
handle_close_session true zero = pure 400
handle_close_session true (suc n) = do
  deleted ← try (delete_session (suc n))
  pure (elim deleted [ none ↦ 500 | some _ ↦ 200 ])

-- `handleLabels`: what it forwards, or the status of a refusal. A panic is answered with 500.
unfoldable pub handle_labels : Folding → Option (String → Option String) → Body → Fields ⊎ ℕ
handle_labels fold none b = inr 502
handle_labels fold (some current) b = elim (merge_protected_labels fold b current) [
  | body_error ↦ inr 400
  | panics ↦ inr 500
  | rewritten m ↦ inl m
]
