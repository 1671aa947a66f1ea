-- ===== src/Chain/Events.antt =====
-- The events of settled vouchers: `GetVoucherEvents` of internal/chain/client.go, and `handleEvents` of
-- internal/proxy/handler.go. The chain's answers are given, and so is what the average block time, a
-- float, makes of a duration. Integers are natural; `page * pageSize` keeps 64 bits.
pub mod Pages
use mathlib.Core.List.{reverse}
use g_sandbox.Base.{
  ℕ, zero, suc, ◌+◌, ◌-◌, ◌*◌, ◌%◌, ◌^◌, ◌⊎◌, inl, inr, Bool, true, false, ◌&&◌, ◌||◌, not, ◌==◌,
  ltb, leb, Option, none, some, List, [], ◌∷◌, length, take, drop, if◌then◌else◌,
}
use g_sandbox.Voucher.{Address}

-- `VoucherEvent`, without the hash of its transaction.
pub record VoucherEvent : Type 0 where
  pub user : Address
  pub provider : Address
  pub total_fee : ℕ
  pub nonce : ℕ
  pub status : ℕ
  pub block : ℕ
  pub timestamp : ℕ

-- A log: its block, and the event if it parses.
pub record Log : Type 0 where
  pub block : ℕ
  pub parsed : Option VoucherEvent

-- What a query meets. `timestamp` is 0 for a header that cannot be read.
pub record Logs : Type 0 where
  pub latest : Option ℕ
  pub now : ℕ
  pub lookback : ℕ → ℕ
  pub filter_logs : ℕ → Option (List Log)
  pub timestamp : ℕ → ℕ

-- The first block that is asked for.
unfoldable pub from_block : Logs → ℕ → ℕ → ℕ
from_block c since latest =
    if ltb 0 since && ltb since c.now && ltb (c.lookback (c.now - since)) latest
    then latest - c.lookback (c.now - since)
    else 1

unfoldable pub filter_since : (ℕ → ℕ) → ℕ → List Log → List Log
filter_since timestamp since [] = []
filter_since timestamp since (l ∷ ls) =
    let rest = filter_since timestamp since ls in
    if timestamp l.block == 0 || leb since (timestamp l.block) then l ∷ rest else rest

unfoldable pub since_logs : Logs → ℕ → List Log → List Log
since_logs c zero ls = ls
since_logs c (suc n) ls = filter_since c.timestamp (suc n) ls

-- The end of a page, by the sum `end`.
abbrev pub last_of : (total end' : ℕ) → ℕ
last_of total end' = if ltb total end' then total else end'

-- The logs of the page from `start` on, newest last. `none` is where a product or a sum leaves int64: the
-- slice then ends behind the logs, which panics unless its backing array holds more.
unfoldable pub page_from : (start page_size : ℕ) → List Log → Option (List Log)
page_from start page_size ls =
    let total = length ls in
    let end' = (start + page_size) % 2 ^ 64 in
    if leb (2 ^ 63) start
    then none
    else if leb total start
    then some []
    else if leb (2 ^ 63) end'
    then none
    else some (take (last_of total end' - start) (drop (total - last_of total end') ls))

unfoldable pub page_logs : (page page_size : ℕ) → List Log → Option (List Log)
page_logs page zero ls = some ls
page_logs page (suc k) ls = page_from (page * suc k % 2 ^ 64) (suc k) ls

-- The loop over the page, from its end.
unfoldable pub events_of : (ℕ → ℕ) → List Log → List VoucherEvent
events_of timestamp [] = []
events_of timestamp (l ∷ ls) =
    let rest = events_of timestamp ls in
    elim l.parsed [
      | none ↦ rest
      | some e ↦ record e { block = l.block; timestamp = timestamp l.block } ∷ rest
    ]

-- What `GetVoucherEvents` returns.
pub data Answer : Type 0 where
  query_failed : Answer
  overflows : Answer
  found : (events : List VoucherEvent) → (total latest : ℕ) → Answer

unfoldable pub page_found : Logs → (total latest : ℕ) → Option (List Log) → Answer
page_found c total latest none = overflows
page_found c total latest (some on_page) =
    found (events_of c.timestamp (reverse on_page)) total latest

abbrev pub page_of : Logs → (page page_size latest : ℕ) → List Log → Answer
page_of c page page_size latest ls = page_found c (length ls) latest (page_logs page page_size ls)

unfoldable pub answer_found : Logs → (since page page_size latest : ℕ) → Option (List Log) → Answer
answer_found c since page page_size latest none = query_failed
answer_found c since page page_size latest (some ls) =
    page_of c page page_size latest (since_logs c since ls)

unfoldable pub answer_at : Logs → (since page page_size : ℕ) → Option ℕ → Answer
answer_at c since page page_size none = query_failed
answer_at c since page page_size (some latest) =
    answer_found c since page page_size latest (c.filter_logs (from_block c since latest))

-- `GetVoucherEvents`
unfoldable pub get_voucher_events : Logs → (since page page_size : ℕ) → Answer
get_voucher_events c since page page_size = answer_at c since page page_size c.latest

-- A query parameter.
pub data Param : Type 0 where
  missing : Param
  invalid : Param
  value : ℕ → Param

unfoldable pub param : ℕ → Param → Option ℕ
param default missing = some default
param default invalid = none
param default (value n) = some n

-- `since`, with the window of seven days for 0.
unfoldable pub since_param : ℕ → Param → Option ℕ
since_param now p = elim (param 0 p) [
  | none ↦ none
  | some n ↦ if n == 0 then some (now - 604800) else some n
]

unfoldable pub events_reply : Answer → (List VoucherEvent × ℕ × ℕ) ⊎ ℕ
events_reply query_failed = inr 502
events_reply overflows = inr 500
events_reply (found events total latest) = inl (events, total, latest)

-- `handleEvents`: the events, their number and the block, or the status of a refusal.
unfoldable pub handle_events :
    (has_fetcher : Bool) → Logs → (since page page_size : Param) → (List VoucherEvent × ℕ × ℕ) ⊎ ℕ
handle_events has_fetcher c since page page_size =
    if not has_fetcher then inr 501 else elim (since_param c.now since) [
      | none ↦ inr 400
      | some s ↦ elim (param 0 page) [
        | none ↦ inr 400
        | some p ↦ elim (param 50 page_size) [
          | none ↦ inr 400
          | some k ↦ events_reply (get_voucher_events c s p k)
        ]
      ]
    ]
