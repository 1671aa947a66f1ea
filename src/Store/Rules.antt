-- ===== src/Store/Rules.antt =====
-- How to reason about an action whose commands may fail.
use g_sandbox.Base.{ℕ, zero, suc, List, Bool, true, false, Option, none, some}
use g_sandbox.Store.State.{
  Store, Action, ◌>>=◌, ◌>>◌, command, commands, try, check, next_ok, later_ok,
}

-- The store once a command has been made.
abbrev pub asked : Store → Store
asked s = record s { faults = later_ok s.faults }

-- What holds if the next command fails, and if it succeeds, holds.
pub command_cases :
    {B : Type 0} (Q : Option B × Store → Type 0) (k : Action B) (s : Store)
    → Q (none, asked s)
    → Q (k (asked s))
    → Q ((command >> k) s)
command_cases {B} Q k s bad good = go (next_ok s.faults)
  where
    go : (b : Bool) → Q (elim (check b) [ none ↦ (none, asked s) | some _ ↦ k (asked s) ])
    go true = good
    go false = bad

-- The same for the first command of an action whose error the caller looks at.
pub try_command_cases :
    {A B : Type 0} (Q : Option B × Store → Type 0) (m : Action A) (k : Option A → Action B)
    (s : Store)
    → Q (k none (asked s))
    → Q ((try m >>= k) (asked s))
    → Q ((try (command >> m) >>= k) s)
try_command_cases {A} {B} Q m k s bad good = go (next_ok s.faults)
  where
    go :
        (b : Bool)
        → Q ((try (λ _. elim (check b) [ none ↦ (none, asked s) | some _ ↦ m (asked s) ]) >>= k) s)
    go true = good
    go false = bad

-- Of commands in a row each may fail, and only `faults` changes.
pub commands_cases :
    {B : Type 0} (Q : Option B × Store → Type 0) (n : ℕ) (k : Action B) (s : Store)
    → ((fs : List Bool) → Q (none, record s { faults = fs }))
    → ((fs : List Bool) → Q (k (record s { faults = fs })))
    → Q ((commands n >> k) s)
commands_cases Q zero k s bad good = good s.faults
commands_cases {B} Q (suc n) k s bad good =
    go (next_ok s.faults) (commands_cases Q n k (asked s) bad good)
  where
    head : Bool → Action (Unit {0})
    head b _ = elim (check b) [ none ↦ (none, asked s) | some _ ↦ commands n (asked s) ]

    go : (b : Bool) → Q ((commands n >> k) (asked s)) → Q (◌>>◌ (head b) k s)
    go true rest = rest
    go false rest = bad (later_ok s.faults)
