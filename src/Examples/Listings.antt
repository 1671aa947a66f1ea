-- ===== src/Examples/Listings.antt =====
-- The second page of four logs, one of which does not parse.
use mathlib.Core.List.{reverse}
use g_sandbox.Base.{ℕ, ◌≡◌, refl, none, some, List, [], ◌∷◌, length, take, drop, arith}
use g_sandbox.Chain.Events.{
  VoucherEvent, Log, Logs, found, since_logs, events_of, get_voucher_events,
}
use g_sandbox.Chain.Events.Pages.{get_voucher_events_lem}

abbrev event : ℕ → VoucherEvent
event nonce = record {
  user = 1;
  provider = 9;
  total_fee = 10;
  nonce = nonce;
  status = 0;
  block = 0;
  timestamp = 0;
}

abbrev log : ℕ → Log
log block = record { block = block; parsed = some (event block) }

abbrev logs_of_four : List Log
logs_of_four = log 11 ∷ record (log 12) { parsed = none } ∷ log 13 ∷ log 14 ∷ []

abbrev rpc : Logs
rpc = record {
  latest = some 20;
  now = 1000;
  lookback = λ seconds. seconds;
  filter_logs = λ from. some logs_of_four;
  timestamp = λ block. 900;
}

get_voucher_events_lem_example :
    get_voucher_events rpc 500 1 2
    ≡ found
        (events_of rpc.timestamp (take 2 (drop 2 (reverse (since_logs rpc 500 logs_of_four)))))
        (length (since_logs rpc 500 logs_of_four))
        20
get_voucher_events_lem_example =
    get_voucher_events_lem rpc 500 1 1 20 logs_of_four refl refl (omega arith)
