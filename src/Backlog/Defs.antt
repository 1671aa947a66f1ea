-- ===== src/Backlog/Defs.antt =====
-- The operations of internal/voucher/aggregate.go.
use g_sandbox.Base.{
  ℕ, zero, suc, ◌+◌, Bool, true, false, not, ◌&&◌, Option, none, some, List, [], ◌∷◌, ◌++◌, map,
  ◌==◌, leb, ltb, mem, or_zero, length, if◌then◌else◌,
}
use g_sandbox.Voucher.{
  Address, SandboxId, SandboxVoucher, Raw, json, malformed, Hashing, fee_of, aggregated_sandbox_id,
  build_usage_hash,
}
use g_sandbox.Store.{
  Store, Action, ◌>>=◌, ◌>>◌, pure, fail, gets, modify, command, commands, put, put₂,
}

-- EqualFold of both addresses with those of the call.
abbrev pub is_mine : Address → Address → SandboxVoucher → Bool
is_mine user provider v = v.user == user && v.provider == provider

-- The loop of `HeldDebt`.
abbrev pub sum_raws : List Raw → ℕ
sum_raws [] = 0
sum_raws (json v ∷ rs) = fee_of v + sum_raws rs
sum_raws (malformed _ ∷ rs) = sum_raws rs

-- `HeldDebt`
unfoldable pub held_debt : Address → Address → Action ℕ
held_debt user provider = do command; gets (λ s. sum_raws (s.held user provider))

-- The loop of `QueuedPending`.
abbrev pub sum_mine : Address → Address → List Raw → ℕ
sum_mine user provider [] = 0
sum_mine user provider (json v ∷ rs) =
    (if is_mine user provider v then fee_of v else 0) + sum_mine user provider rs
sum_mine user provider (malformed _ ∷ rs) = sum_mine user provider rs

-- `QueuedPending`
unfoldable pub queued_pending : Address → Address → Action ℕ
queued_pending user provider = do command; gets (λ s. sum_mine user provider s.queue)

-- SADD and SREM; the members are in no order.
abbrev pub set_add : Address → List Address → List Address
set_add u us = if mem u us then us else us ++ u ∷ []

abbrev pub set_remove : Address → List Address → List Address
set_remove u [] = []
set_remove u (x ∷ us) = if u == x then set_remove u us else x ∷ set_remove u us

-- `PushHeld`
unfoldable pub push_held : SandboxVoucher → Action (Unit {0})
push_held v = do
  let raw = json (record v { nonce = none; signature = none })
  command
  modify (λ s. record s {
    held = put₂ v.user v.provider (s.held v.user v.provider ++ raw ∷ []) s.held;
    held_users = put v.provider (set_add v.user (s.held_users v.provider)) s.held_users;
  })

-- `HeldUsers`
unfoldable pub get_held_users : Address → Action (List Address)
get_held_users provider = do command; gets (λ s. s.held_users provider)

-- The first loop of `AggregateCovered`: the entries of the queue that join `mine`, and `kept`.
unfoldable pub own_entries : Address → Address → List Raw → List Raw
own_entries user provider [] = []
own_entries user provider (json v ∷ rs) =
    if is_mine user provider v
    then json v ∷ own_entries user provider rs
    else own_entries user provider rs
own_entries user provider (malformed t ∷ rs) = own_entries user provider rs

unfoldable pub kept_entries : Address → Address → List Raw → List Raw
kept_entries user provider [] = []
kept_entries user provider (json v ∷ rs) =
    if is_mine user provider v
    then kept_entries user provider rs
    else json v ∷ kept_entries user provider rs
kept_entries user provider (malformed t ∷ rs) = malformed t ∷ kept_entries user provider rs

-- `sandboxGroup`; a list of them is `coveredBySandbox` in the order of `coveredOrder`.
pub record SandboxGroup : Type 0 where
  pub sandbox_id : SandboxId
  pub sum : ℕ
  pub count : ℕ

unfoldable pub add_to_group : SandboxId → ℕ → List SandboxGroup → List SandboxGroup
add_to_group id fee [] = record { sandbox_id = id; sum = fee; count = 1 } ∷ []
add_to_group id fee (g ∷ gs) =
    if g.sandbox_id == id
    then record g { sum = g.sum + fee; count = g.count + 1 } ∷ gs
    else g ∷ add_to_group id fee gs

-- The variables of the second loop.
pub record Split : Type 0 where
  pub covered_sum : ℕ
  pub covered_count : ℕ
  pub groups : List SandboxGroup
  pub holding : Bool
  pub held_raws : List Raw
  pub held_sum : ℕ
  pub held_ids : List SandboxId
  pub dropped : ℕ

unfoldable pub empty_split : Split
empty_split = record {
  covered_sum = 0;
  covered_count = 0;
  groups = [];
  holding = false;
  held_raws = [];
  held_sum = 0;
  held_ids = [];
  dropped = 0;
}

-- `heldSandboxIDs`, with `sbSeen` as membership in it.
abbrev pub add_held_id : SandboxId → List SandboxId → List SandboxId
add_held_id id ids =
    if not (id == aggregated_sandbox_id) && not (mem id ids) then ids ++ id ∷ [] else ids

unfoldable pub cover : SandboxVoucher → Split → Split
cover v st = record st {
  covered_sum = st.covered_sum + fee_of v;
  covered_count = st.covered_count + 1;
  groups = add_to_group v.sandbox_id (fee_of v) st.groups;
}

unfoldable pub hold : SandboxVoucher → Split → Split
hold v st = record st {
  holding = true;
  held_raws = st.held_raws ++ json v ∷ [];
  held_sum = st.held_sum + fee_of v;
  held_ids = add_held_id v.sandbox_id st.held_ids;
}

-- The body of the second loop.
unfoldable pub split_step : ℕ → Raw → Split → Split
split_step balance (malformed _) st = record st { dropped = st.dropped + 1 }
split_step balance (json v) st =
    if not st.holding && leb (st.covered_sum + fee_of v) balance then cover v st else hold v st

unfoldable pub split_loop : ℕ → List Raw → Split → Split
split_loop balance [] st = st
split_loop balance (raw ∷ mine) st = split_loop balance mine (split_step balance raw st)

unfoldable pub aggregate_of : Hashing → ℕ → Address → Address → SandboxGroup → Raw
aggregate_of h now user provider g = json (record {
  sandbox_id = g.sandbox_id;
  user = user;
  provider = provider;
  total_fee = some g.sum;
  usage_hash = build_usage_hash h g.sandbox_id now now 0;
  nonce = none;
  signature = none;
  aggregated = true;
})

-- `CoveredResult`
pub record CoveredResult : Type 0 where
  pub covered : ℕ
  pub covered_fee : ℕ
  pub held : ℕ
  pub held_fee : ℕ
  pub held_sandbox_ids : List SandboxId
  pub dropped : ℕ

-- The split of what a store holds for the pair.
unfoldable pub split_of : Address → Address → ℕ → Store → Split
unfolding split_loop own_entries
split_of user provider balance s =
    split_loop balance (s.held user provider ++ own_entries user provider s.queue) empty_split

-- What the transaction of `AggregateCovered` writes.
unfoldable pub write_split : Hashing → ℕ → Address → Address → Split → Store → Store
unfolding kept_entries
write_split h now user provider sp s =
    let users = s.held_users provider in
    record s {
      queue =
          kept_entries user provider s.queue
          ++ (if ltb 0 sp.covered_count
              then map (aggregate_of h now user provider) sp.groups
              else []);
      held = put₂ user provider sp.held_raws s.held;
      held_users =
          put provider
            (if ltb 0 (length sp.held_raws) then set_add user users else set_remove user users)
            s.held_users;
    }

unfoldable pub result_of : Split → CoveredResult
result_of sp = record {
  covered = sp.covered_count;
  covered_fee = sp.covered_sum;
  held = length sp.held_raws;
  held_fee = sp.held_sum;
  held_sandbox_ids = sp.held_ids;
  dropped = sp.dropped;
}

-- Whether somebody wrote a watched key before EXEC. What they wrote are entries pushed to the queue.
unfoldable pub conflict : Action Bool
conflict s = elim s.arrivals [
  | [] ↦ (some false, s)
  | some new ∷ later ↦ (some true, record s { queue = s.queue ++ new; arrivals = later })
  | none ∷ later ↦ (some false, record s { arrivals = later })
]

-- The commands that EXEC runs.
unfoldable pub write_covered : Hashing → ℕ → Address → Address → Split → Action CoveredResult
write_covered h now user provider sp = do
  command
  modify (write_split h now user provider sp)
  pure (result_of sp)

-- EXEC, and what follows if a watched key was changed.
unfoldable pub exec_covered :
    Action CoveredResult → Hashing → ℕ → Address → Address → Split → Action CoveredResult
exec_covered retry h now user provider sp = do
  lost ← conflict
  elim lost [ true ↦ retry | false ↦ write_covered h now user provider sp ]

-- The attempts of `AggregateCovered`: WATCH, the two LRANGEs, EXEC.
unfoldable pub covered_attempts : ℕ → Hashing → ℕ → Address → Address → ℕ → Action CoveredResult
covered_attempts zero h now user provider balance = fail
covered_attempts (suc n) h now user provider balance = do
  commands 3
  sp ← gets (split_of user provider balance)
  exec_covered (covered_attempts n h now user provider balance) h now user provider sp

-- `maxRetries`
abbrev pub max_retries : ℕ
max_retries = 5

-- `AggregateCovered`; a nil balance counts as zero.
unfoldable pub aggregate_covered : Hashing → ℕ → Address → Address → Option ℕ → Action CoveredResult
aggregate_covered h now user provider balance =
    covered_attempts max_retries h now user provider (or_zero balance)
