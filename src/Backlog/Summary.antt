-- ===== src/Backlog/Summary.antt =====
-- `SummarizeQueue` of internal/voucher/aggregate.go: the queue's fees by (user, provider).
use g_sandbox.Base.{
  ℕ, ◌+◌, ◌≡◌, Bool, false, ◌&&◌, List, [], ◌∷◌, arith, ◌==◌, ltb, take, length, if◌then◌else◌,
}
use g_sandbox.Voucher.{Address, SandboxVoucher, Raw, json, malformed, fee_of}
use g_sandbox.Store.{Action, ◌>>=◌, ◌>>◌, pure, gets, command}
use g_sandbox.Backlog.Defs.{is_mine, sum_mine}

-- `MaxScanItems`
abbrev pub max_scan_items : ℕ
max_scan_items = 10000

-- `Summary` with its `Group`.
pub record Summary : Type 0 where
  pub user : Address
  pub provider : Address
  pub count : ℕ
  pub total_fee : ℕ

abbrev pub is_group : SandboxVoucher → Summary → Bool
is_group v row = v.user == row.user && v.provider == row.provider

-- The bucket of a voucher, found or made.
unfoldable pub add_to_bucket : SandboxVoucher → List Summary → List Summary
add_to_bucket v [] =
    record { user = v.user; provider = v.provider; count = 1; total_fee = fee_of v } ∷ []
add_to_bucket v (row ∷ rows) =
    if is_group v row
    then record row { count = row.count + 1; total_fee = row.total_fee + fee_of v } ∷ rows
    else row ∷ add_to_bucket v rows

unfoldable pub buckets : List Raw → List Summary → List Summary
buckets [] rows = rows
buckets (json v ∷ rs) rows = buckets rs (add_to_bucket v rows)
buckets (malformed _ ∷ rs) rows = buckets rs rows

unfoldable pub at_least : ℕ → List Summary → List Summary
at_least min_count [] = []
at_least min_count (row ∷ rows) =
    if ltb row.count min_count then at_least min_count rows else row ∷ at_least min_count rows

-- `SummarizeQueue`: the rows, how many items were scanned, and whether there are more.
unfoldable pub summarize_queue : ℕ → Action (List Summary × ℕ × Bool)
summarize_queue min_count = do
  command
  total ← gets (λ s. length s.queue)
  if total == 0 then pure ([], 0, false) else (do
    command
    items ← gets (λ s. take max_scan_items s.queue)
    pure (at_least min_count (buckets items []), length items, ltb max_scan_items total))

-- The fees and the vouchers that rows give a pair.
abbrev pub row_fees : Address → Address → List Summary → ℕ
row_fees user provider [] = 0
row_fees user provider (row ∷ rows) =
    (if row.user == user && row.provider == provider then row.total_fee else 0)
    + row_fees user provider rows

row_fees-add_to_bucket :
    (user provider : Address) (v : SandboxVoucher) (rows : List Summary)
    → row_fees user provider (add_to_bucket v rows)
      ≡ row_fees user provider rows + (if is_mine user provider v then fee_of v else 0)
unfolding add_to_bucket
row_fees-add_to_bucket user provider v [] = omega arith
row_fees-add_to_bucket user provider v (row ∷ rows) =
    ground (arith, row_fees-add_to_bucket user provider v rows)

-- Adding scanned items to rows raises what the rows give each pair by the sum of the fees of the
-- pair's vouchers among the items.
row_fees-buckets :
    (user provider : Address) (items : List Raw) (rows : List Summary)
    → row_fees user provider (buckets items rows)
      ≡ row_fees user provider rows + sum_mine user provider items
unfolding buckets
row_fees-buckets user provider [] rows = omega arith
row_fees-buckets user provider (json v ∷ items) rows = omega (
  arith,
  row_fees-buckets user provider items (add_to_bucket v rows),
  row_fees-add_to_bucket user provider v rows,
)
row_fees-buckets user provider (malformed _ ∷ items) rows =
    row_fees-buckets user provider items rows
