-- ===== src/Examples/Accounts.antt =====
-- The generator, the lifecycle handlers, the reservations and the nonces at concrete stores.
use g_sandbox.Base.{
  ℕ, ◌+◌, ◌*◌, ◌<◌, ◌≤◌, ◌≡◌, refl, ◌⊎◌, true, false, none, some, List, [], ◌∷◌, arith,
}
use g_sandbox.Voucher.{Raw, raw_fees}
use g_sandbox.Store.{Store, Sessions, put, pure, find_session}
use g_sandbox.Billing.Generator.{Runtime, Skips, price_of, bill_session}
use g_sandbox.Billing.Generator.Backlog.{healthy, tick_bills_what_is_due}
use g_sandbox.Billing.Price.{compute_price}
use g_sandbox.Billing.Events.{opened_session, on_create}
use g_sandbox.Billing.Events.Opened.{on_create_opens}
use g_sandbox.Billing.Reserved.{reserve, release, reserved_of, release-reserve}
use g_sandbox.Examples.{hashing, everything, empty_store, busy, handler, due_session}

abbrev runtime : Runtime
runtime = record {
  live = some (5 ∷ []);
  confirm_gone = λ id. false;
  on_phantom_closed = λ id. pure tt;
}

abbrev no_skips : Skips
no_skips id = 0

abbrev with_session : Store
with_session = record busy { sessions = (5, due_session) ∷ [] }

tick_bills_what_is_due_example :
    (units : ℕ) × (q : List Raw) × (ss : Sessions) × (bill_session hashing handler runtime 5000
        due_session no_skips
        (healthy with_session)
      ≡ (some (put 5 0 no_skips), record with_session { queue = q; sessions = ss; faults = [] }))
    × (raw_fees everything q ≡ 63 + 3 * units)
    × (find_session 5 ss ≡ some (record due_session { next_voucher_at = 1000 + units }))
    × (1000 + units ≤ 5060)
    × (((5000 < 37000) × (5000 < 1000 + units)) ⊎ ((37000 ≤ 5000) × (units ≡ 36000)))
unfolding find_session price_of
tick_bills_what_is_due_example =
    tick_bills_what_is_due everything hashing handler runtime 5000 due_session no_skips with_session
      (omega arith) (omega arith) (omega arith) refl refl

-- The create-fee voucher is lost, the first period's is not.
on_create_opens_example :
    let s' =
      (on_create hashing handler 1000 5 1 4 8 (record busy { faults = false ∷ true ∷ [] })).1 in
    (find_session 5 s'.sessions ≡ some (opened_session handler 5 1 2 1060))
    × (raw_fees everything s'.queue ≡ 183)
    × (reserved_of s' 1 9 ≡ 0)
unfolding compute_price
on_create_opens_example =
    on_create_opens everything hashing handler 1000 5 1 4 8 busy false true (omega arith)
      (omega arith) (omega arith)

abbrev reserving : Store
reserving = record empty_store { reserved = put 1 (put 9 (some 100) (λ p. none)) (λ u p. none) }

release-reserve_example : reserved_of (release 1 9 50 (reserve 1 9 50 reserving).1).1 1 9 ≡ 100
unfolding reserve release
release-reserve_example = release-reserve 1 9 50 reserving (omega arith) refl refl
