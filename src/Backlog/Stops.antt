-- ===== src/Backlog/Stops.antt =====
-- Which sandboxes a split reports for stopping.
use g_sandbox.Base.{ℕ, ◌≡◌, Bool, false, not, ◌&&◌, ◌||◌, List, [], ◌∷◌, ◌++◌, arith, ◌==◌, mem}
use g_sandbox.Voucher.{
  Address, SandboxId, SandboxVoucher, Raw, json, malformed, aggregated_sandbox_id,
}
use g_sandbox.Store.{Store}
use g_sandbox.Backlog.Defs.{
  own_entries, Split, empty_split, cover, hold, split_step, split_loop, split_of,
}

-- Whether an entry of the sandbox stands in a list.
abbrev pub names : SandboxId → List Raw → Bool
names id [] = false
names id (json v ∷ rs) = id == v.sandbox_id || names id rs
names id (malformed _ ∷ rs) = names id rs

mem-append_one : (a x : ℕ) (xs : List ℕ) → mem a (xs ++ x ∷ []) ≡ (mem a xs || a == x)
mem-append_one a x [] = ground arith
mem-append_one a x (y ∷ xs) = ground (arith, mem-append_one a x xs)

names-append_one :
    (id : SandboxId) (v : SandboxVoucher) (rs : List Raw)
    → names id (rs ++ json v ∷ []) ≡ (names id rs || id == v.sandbox_id)
names-append_one id v [] = ground arith
names-append_one id v (json w ∷ rs) = ground (arith, names-append_one id v rs)
names-append_one id v (malformed _ ∷ rs) = names-append_one id v rs

abbrev Listed : SandboxId → Split → Type 0
Listed id st = mem id st.held_ids ≡ (not (id == aggregated_sandbox_id) && names id st.held_raws)

split_step-Listed :
    (id : SandboxId) (balance : ℕ) (raw : Raw) (st : Split)
    → Listed id st
    → Listed id (split_step balance raw st)
unfolding split_step cover hold
split_step-Listed id balance (malformed _) st h = h
split_step-Listed id balance (json v) st h =
    ground (arith, mem-append_one id v.sandbox_id st.held_ids, names-append_one id v st.held_raws)

split_loop-Listed :
    (id : SandboxId) (balance : ℕ) (mine : List Raw) (st : Split)
    → Listed id st
    → Listed id (split_loop balance mine st)
unfolding split_loop
split_loop-Listed id balance [] st h = h
split_loop-Listed id balance (raw ∷ mine) st h =
    split_loop-Listed id balance mine (split_step balance raw st)
      (split_step-Listed id balance raw st h)

-- The sandbox ids that a split reports are exactly the non-empty ids of the entries that it holds:
-- an id is reported if and only if it is not the empty one and some held entry carries it.
pub split_reports_held_sandboxes :
    (user provider : Address) (balance : ℕ) (s : Store) (id : SandboxId)
    → let sp = split_of user provider balance s in
      mem id sp.held_ids ≡ (not (id == aggregated_sandbox_id) && names id sp.held_raws)
unfolding split_of empty_split
split_reports_held_sandboxes user provider balance s id =
    split_loop-Listed id balance (s.held user provider ++ own_entries user provider s.queue)
      empty_split (ground arith)
