-- ===== src/Settler/Sweep.antt =====
-- internal/settler/aggregator.go: the sweep that splits users' backlogs against their balances.
use g_sandbox.Base.{
  ℕ, Bool, true, false, not, ◌&&◌, ◌||◌, Option, none, some, List, [], ◌∷◌, ◌++◌, ◌==◌, ltb, mem,
  length, if◌then◌else◌,
}
use g_sandbox.Voucher.{Address, SandboxId, Hashing}
use g_sandbox.Store.{Action, ◌>>=◌, ◌>>◌, pure, gets, command, try, put, insufficient_balance}
use g_sandbox.Backlog.{aggregate_covered, get_held_users}
use g_sandbox.Backlog.Summary.{Summary, summarize_queue}
use g_sandbox.Settler.Stop.{persist_stop}

-- `backlogSweepThreshold`
abbrev pub backlog_sweep_threshold : ℕ
backlog_sweep_threshold = 100

-- `AggregatorChain`: the provider, and `GetBalanceBatch`, `none` on an error; a balance may be nil.
pub record AggregatorChain : Type 0 where
  pub provider_address : Address
  pub get_balance_batch : List Address → Option (List (Option ℕ))

-- `lastBal`; `none` is the nil map.
abbrev pub Memo : Type 0
Memo = Option (Address → Option ℕ)

abbrev same_balance : Option ℕ → Option ℕ → Bool
same_balance (some prev) (some bal) = prev == bal
same_balance _ _ = false

-- Whether the memo lets the sweep skip a user.
unfoldable pub is_unchanged : Memo → List Address → Address → Option ℕ → Bool
is_unchanged none from_queue u bal = false
is_unchanged (some last_bal) from_queue u bal =
    not (mem u from_queue) && same_balance (last_bal u) bal

unfoldable pub remember : Memo → Address → Option ℕ → Memo
remember none u bal = none
remember (some last_bal) u none = some last_bal
remember (some last_bal) u (some b) = some (put u (some b) last_bal)

-- The stop orders for the held sandboxes; a failed one is only logged.
unfoldable pub stop_held : List SandboxId → Action (Unit {0})
stop_held [] = pure tt
stop_held (id ∷ ids) = do try (persist_stop id insufficient_balance); stop_held ids

abbrev next_balance : List (Option ℕ) → Option ℕ
next_balance [] = none
next_balance (b ∷ bs) = b

abbrev later_balances : List (Option ℕ) → List (Option ℕ)
later_balances [] = []
later_balances (b ∷ bs) = bs

-- The split of one user, and the stops that it asks for.
unfoldable pub sweep_user : Hashing → ℕ → Address → Address → Option ℕ → Memo → Action Memo
sweep_user h now provider u bal memo = do
  split ← try (aggregate_covered h now u provider bal)
  elim split [
    | none ↦ pure memo
    | some res ↦ (do stop_held res.held_sandbox_ids; pure (remember memo u bal))
  ]

-- The loop of `sweepUsersMemo`.
unfoldable pub sweep_each :
    Hashing → ℕ → Address → List Address → List Address → List (Option ℕ) → Memo → Action Memo
sweep_each h now provider from_queue [] balances memo = pure memo
sweep_each h now provider from_queue (u ∷ us) balances memo = do
  let bal = next_balance balances
  memo' ←
      (if is_unchanged memo from_queue u bal
        then pure memo
        else sweep_user h now provider u bal memo)
  sweep_each h now provider from_queue us (later_balances balances) memo'

-- `sweepUsersMemo`
unfoldable pub sweep_users_memo :
    Hashing → ℕ → AggregatorChain → List Address → List Address → Memo → Action Memo
sweep_users_memo h now chain [] from_queue memo = pure memo
sweep_users_memo h now chain (u ∷ us) from_queue memo = elim (chain.get_balance_batch (u ∷ us)) [
  | none ↦ pure memo
  | some balances ↦ sweep_each h now chain.provider_address from_queue (u ∷ us) balances memo
]

-- `sweepUsers`
unfoldable pub sweep_users : Hashing → ℕ → AggregatorChain → List Address → Action (Unit {0})
sweep_users h now chain users = do sweep_users_memo h now chain users [] none; pure tt

-- `users` and `seen`: those that are not there yet go behind.
unfoldable pub add_unseen : List Address → List Address → List Address
add_unseen users [] = users
add_unseen users (u ∷ us) = add_unseen (if mem u users then users else users ++ u ∷ []) us

abbrev row_users : List Summary → List Address
row_users [] = []
row_users (r ∷ rs) = r.user ∷ row_users rs

-- The users of a deep or forced queue; `none` ends the sweep.
unfoldable pub users_from_queue : Bool → Action (List Address)
users_from_queue false = pure []
users_from_queue true = do (rows, _, _) ← summarize_queue 1; pure (add_unseen [] (row_users rows))

unfoldable pub users_from_held : Bool → Address → Action (List Address)
users_from_held false provider = pure []
users_from_held true provider = do
  held ← try (get_held_users provider)
  pure (elim held [ none ↦ [] | some us ↦ us ])

-- `maybeSweep`; an error ends it, and the memo is returned.
unfoldable pub maybe_sweep : Hashing → ℕ → AggregatorChain → Bool → Memo → Action Memo
maybe_sweep h now chain force memo = do
  let provider = chain.provider_address
  command
  qlen ← gets (λ s. length s.queue)
  command
  held_user_count ← gets (λ s. length (s.held_users provider))
  let deep = force || ltb backlog_sweep_threshold qlen
  if not deep && held_user_count == 0 then pure memo else (do
    queued ← users_from_queue deep
    held ← users_from_held (ltb 0 held_user_count) provider
    sweep_users_memo h now chain (add_unseen queued held) queued memo)
