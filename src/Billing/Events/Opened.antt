-- ===== src/Billing/Events/Opened.antt =====
-- A created sandbox is billed whatever becomes of its first vouchers.
use g_sandbox.Base.{
  ℕ, ◌+◌, ◌-◌, ◌*◌, ◌^◌, ◌<◌, ◌≡◌, Bool, true, false, none, some, [], ◌∷◌, ◌++◌, arith, ltb, ◌==◌,
  if◌then◌else◌,
}
use g_sandbox.Voucher.{Address, SandboxId, json, Hashing, Choice, raw_fees, raw_fees-append}
use g_sandbox.Store.{Store, find_session, push_queue, push_event}
use g_sandbox.Billing.Price.{
  EventHandler, int64, int64_small, period_voucher, compute_price, emit_period_voucher,
}
use g_sandbox.Billing.Session.{create_session, find_session-set_session}
use g_sandbox.Billing.Reserved.{release, reserved_of}
use g_sandbox.Billing.Signer.{enqueue}
use g_sandbox.Billing.Events.{create_voucher, opened_session, on_create}

-- What the emission of a first period that costs something comes to.
emit_first :
    (hash : Hashing) (h : EventHandler) (id : SandboxId) (owner : Address) (price now : ℕ)
    (s : Store) (sent : Bool)
    → 0 < price * h.voucher_interval_sec
    → now + h.voucher_interval_sec < 2 ^ 63
    → let i = h.voucher_interval_sec in
      emit_period_voucher hash h id owner price now 1 (record s { faults = sent ∷ [] }) ≡ (
        if sent
        then (
          some (now + i),
          record s {
            queue = s.queue ++ json (period_voucher hash h id owner (price * i) now (now + i)) ∷ [];
            faults = [];
          },
        )
        else (none, record s { faults = [] }))
unfolding emit_period_voucher push_queue
emit_first hash h id owner price now s true pos small =
    let i = h.voucher_interval_sec in
    let one : i * 1 ≡ i = omega arith in
    let units_small : int64 i ≡ i = int64_small i (omega arith) in
    let end_small : int64 (now + i) ≡ now + i = int64_small (now + i) small in
    let paid : (price * i == 0) ≡ false = ground arith in rw (one, units_small, paid, end_small)
emit_first hash h id owner price now s false pos small =
    let i = h.voucher_interval_sec in
    let one : i * 1 ≡ i = omega arith in
    let units_small : int64 i ≡ i = int64_small i (omega arith) in
    let paid : (price * i == 0) ≡ false = ground arith in rw (one, units_small, paid)

-- If Redis takes all commands but for the pushes of the create-fee and of the first-period voucher,
-- each of which may fail, the first period costs something, and it together with the create fee, and
-- the end of the period, are int64: a created sandbox gets a session of its price, owner and provider;
-- the session's NextVoucherAt is one interval after now if the period's voucher was queued, and now if
-- not. The queue has grown by exactly the fees of the vouchers that were queued, for every choice of
-- keys, and the whole upfront amount is no longer reserved.
pub on_create_opens :
    (c : Choice) (hash : Hashing) (h : EventHandler) (now : ℕ) (id : SandboxId) (owner : Address)
    (cpu mem_gb : ℕ) (s : Store) (fee_sent period_sent : Bool)
    → let price = compute_price h cpu mem_gb in
      let first = price * h.voucher_interval_sec in
      0 < first
      → h.create_fee + first < 2 ^ 63
      → now + h.voucher_interval_sec < 2 ^ 63
      → let s' =
          (on_create hash h now id owner cpu mem_gb
            (record s { faults = fee_sent ∷ period_sent ∷ [] })).1 in
        (find_session id s'.sessions
          ≡ some (
              opened_session h id owner price
                (if period_sent then now + h.voucher_interval_sec else now)))
        × (raw_fees c s'.queue
            ≡ raw_fees c s.queue
              + (if c owner h.provider_address id
                  then (if fee_sent then h.create_fee else 0) + (if period_sent then first else 0)
                  else 0))
        × (reserved_of s' owner h.provider_address
            ≡ reserved_of s owner h.provider_address - (h.create_fee + first))
unfolding on_create enqueue push_queue create_session release push_event
on_create_opens c hash h now id owner cpu mem_gb s true true pos small small' =
    let price = compute_price h cpu mem_gb in
    let i = h.voucher_interval_sec in
    let x = opened_session h id owner price (now + i) in
    let fee = json (create_voucher hash h now id owner) in
    let v = json (period_voucher hash h id owner (price * i) now (now + i)) in
    let fits : ltb (h.create_fee + price * i) (2 ^ 63) ≡ true = ground arith in
    rw
      (
        emit_first hash h id owner price now (record s { queue = s.queue ++ fee ∷ [] }) true pos
            small',
        fits,
      )
      (
        ground (arith, find_session-set_session id x s.sessions),
        ground (
          arith,
          raw_fees-append c s.queue (fee ∷ []),
          raw_fees-append c (s.queue ++ fee ∷ []) (v ∷ []),
        ),
        ground arith,
      )
on_create_opens c hash h now id owner cpu mem_gb s true false pos small small' =
    let price = compute_price h cpu mem_gb in
    let i = h.voucher_interval_sec in
    let x = opened_session h id owner price now in
    let fee = json (create_voucher hash h now id owner) in
    let fits : ltb (h.create_fee + price * i) (2 ^ 63) ≡ true = ground arith in
    rw
      (
        emit_first hash h id owner price now (record s { queue = s.queue ++ fee ∷ [] }) false pos
            small',
        fits,
      )
      (
        ground (arith, find_session-set_session id x s.sessions),
        ground (arith, raw_fees-append c s.queue (fee ∷ [])),
        ground arith,
      )
on_create_opens c hash h now id owner cpu mem_gb s false true pos small small' =
    let price = compute_price h cpu mem_gb in
    let i = h.voucher_interval_sec in
    let x = opened_session h id owner price (now + i) in
    let v = json (period_voucher hash h id owner (price * i) now (now + i)) in
    let fits : ltb (h.create_fee + price * i) (2 ^ 63) ≡ true = ground arith in
    rw (emit_first hash h id owner price now s true pos small', fits)
      (
        ground (arith, find_session-set_session id x s.sessions),
        ground (arith, raw_fees-append c s.queue (v ∷ [])),
        ground arith,
      )
on_create_opens c hash h now id owner cpu mem_gb s false false pos small small' =
    let price = compute_price h cpu mem_gb in
    let i = h.voucher_interval_sec in
    let x = opened_session h id owner price now in
    let fits : ltb (h.create_fee + price * i) (2 ^ 63) ≡ true = ground arith in
    rw (emit_first hash h id owner price now s false pos small', fits)
      (ground (arith, find_session-set_session id x s.sessions), ground arith, ground arith)
