-- ===== src/Examples/Split.antt =====
-- The split of the backlog, collapsing and the held-users index at concrete stores.
use g_sandbox.Base.{◌+◌, ◌≤◌, ◌≡◌, ◌⊎◌, some, List, [], ◌∷◌, ◌++◌, length}
use g_sandbox.Voucher.{Raw, json, raw_fees}
use g_sandbox.Store.{Store}
use g_sandbox.Backlog.{sum_raws, split_of, write_split, aggregate_covered}
use g_sandbox.Backlog.Operator.{aggregate}
use g_sandbox.Backlog.Operator.Merged.{Balanced, aggregate-Balanced}
use g_sandbox.Backlog.Conserves.{write_split_conserves_fees}
use g_sandbox.Backlog.Prefix.{backlog, Overflows, split_is_longest_prefix}
use g_sandbox.Backlog.Attempts.{Atomic, aggregate_covered-Atomic}
use g_sandbox.Examples.{voucher, hashing, everything, busy}

write_split_conserves_fees_example :
    let s' = write_split hashing 50 1 9 (split_of 1 9 35 busy) busy in
    raw_fees everything s'.queue + raw_fees everything (s'.held 1 9) ≡ 63
write_split_conserves_fees_example = write_split_conserves_fees everything hashing 50 35 1 9 busy tt

split_is_longest_prefix_example :
    let sp = split_of 1 9 35 busy in
    (covered : List Raw) × (backlog 1 9 busy ≡ covered ++ sp.held_raws)
    × (sp.covered_count ≡ length covered)
    × (sp.covered_sum ≡ sum_raws covered)
    × (sp.covered_sum ≤ 35)
    × ((sp.held_raws ≡ []) ⊎ Overflows 35 sp.covered_sum sp.held_raws)
    × (sp.held_sum ≡ sum_raws sp.held_raws)
split_is_longest_prefix_example = split_is_longest_prefix 1 9 35 busy

-- Somebody pushes before the first EXEC.
aggregate_covered-Atomic_example :
    let s : Store = record busy { arrivals = some (json (voucher 2 7 8) ∷ []) ∷ [] } in
    Atomic hashing 50 1 9 35 s (aggregate_covered hashing 50 1 9 (some 35) s)
aggregate_covered-Atomic_example =
    aggregate_covered-Atomic hashing 50 1 9 (some 35)
      (record busy { arrivals = some (json (voucher 2 7 8) ∷ []) ∷ [] })

-- Somebody pushes before the first EXEC.
aggregate-Balanced_example :
    let s : Store = record busy { arrivals = some (json (voucher 2 7 8) ∷ []) ∷ [] } in
    Balanced s (aggregate hashing 50 1 9 s)
aggregate-Balanced_example =
    aggregate-Balanced hashing 50 1 9
      (record busy { arrivals = some (json (voucher 2 7 8) ∷ []) ∷ [] })
