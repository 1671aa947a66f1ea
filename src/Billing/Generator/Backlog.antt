-- ===== src/Billing/Generator/Backlog.antt =====
-- What a tick charges a session for, while Redis answers: all that is overdue, up to 600 periods,
-- each second once, and the session moves on by exactly what was charged.
use g_sandbox.Base.{
  ℕ, zero, suc, ◌+◌, ◌-◌, ◌*◌, ◌/◌, ◌^◌, ◌<◌, ◌≤◌, ◌≡◌, refl, ap, ◌∙◌, min, false, Option, none,
  some, ◌⊎◌, inl, inr, List, [], ◌∷◌, ◌++◌, arith, ◌==◌, ltb, if◌then◌else◌, Bool-cases,
}
use native.Mathlib.Nat.{div-add-mod, mod-lt, mul-le-mul_left}
use native.Mathlib.Decide.{dec_lt}
use g_sandbox.Voucher.{Address, SandboxId, Raw, json, Hashing, Choice, raw_fees, raw_fees-append}
use g_sandbox.Store.{
  Store, Session, Sessions, try, put, ◌>>=◌, push_queue, find_session, set_next_voucher_at,
}
use g_sandbox.Billing.Price.{EventHandler, int64, int64_small, period_voucher, emit_period_voucher}
use g_sandbox.Billing.Session.{update_next_voucher_at, find_session-set_next}
use g_sandbox.Billing.Generator.{
  Runtime, Skips, absent, price_of, bill_session, advance_session, emit_loop,
}

-- A store whose Redis answers all commands.
abbrev pub healthy : Store → Store
healthy s = record s { faults = [] }

-- How many periods a loop of `n` vouchers charges of those overdue.
abbrev pub charged : ℕ → ℕ → ℕ
charged n overdue = min overdue (60 * n)

mul_split : (i a b t : ℕ) → a + b ≡ t → i * a + i * b ≡ i * t
mul_split i a b t e = rw (← e) (omega arith)

charged-zero : (n : ℕ) → charged n 0 ≡ 0
charged-zero n = omega arith

charged_none : (overdue : ℕ) → charged 0 overdue ≡ 0
charged_none overdue = omega arith

charged_step :
    (n k : ℕ) → min (suc k) 60 + charged n (suc k - min (suc k) 60) ≡ charged (suc n) (suc k)
charged_step n k = omega arith

module _ (c : Choice) (hash : Hashing) (h : EventHandler) (id : SandboxId) (owner : Address)
    (price : ℕ) where
  abbrev pub owed : ℕ → ℕ
  owed fee = if c owner h.provider_address id then fee else 0

  -- An emission in which no product or sum passes the int64 range.
  emit_healthy :
      (start n : ℕ) (s : Store)
      → 0 < n
      → start + h.voucher_interval_sec * n < 2 ^ 63
      → (q : List Raw) × (emit_period_voucher hash h id owner price start n (healthy s)
          ≡ (some (start + h.voucher_interval_sec * n), record s { queue = q; faults = [] }))
        × (raw_fees c q ≡ raw_fees c s.queue + owed (price * (h.voucher_interval_sec * n)))
  unfolding emit_period_voucher push_queue
  emit_healthy start n s pos small =
      let units = h.voucher_interval_sec * n in
      let one : ltb n 1 ≡ false = ground arith in
      let units_small : int64 units ≡ units = int64_small units (omega arith) in
      let end_small : int64 (start + units) ≡ start + units = int64_small (start + units) small in
      elim (Bool-cases (price * units == 0)) [
        | inl free ↦ (s.queue, rw (one, units_small, free, end_small), ground arith)
        | inr paid ↦
            let v = period_voucher hash h id owner (price * units) start (start + units) in
            (
              s.queue ++ json v ∷ [],
              rw (one, units_small, paid, end_small),
              ground (arith, raw_fees-append c s.queue (json v ∷ [])),
            )
      ]

  -- One chunk, and then the rest of the loop.
  next_chunk :
      (x : Session) (n chunk rest start : ℕ) (s : Store)
      → 0 < chunk
      → start + h.voucher_interval_sec * chunk < 2 ^ 63
      → find_session id s.sessions ≡ some x
      → (q : List Raw) × (ss : Sessions) × ((try
                (emit_period_voucher hash h id owner price start chunk)
              >>= advance_session id (emit_loop n hash h id owner price rest))
            (healthy s)
          ≡ emit_loop n hash h id owner price rest
              (start + h.voucher_interval_sec * chunk)
              (record s { queue = q; sessions = ss; faults = [] }))
        × (raw_fees c q ≡ raw_fees c s.queue + owed (price * (h.voucher_interval_sec * chunk)))
        × (find_session id ss
            ≡ some (record x { next_voucher_at = start + h.voucher_interval_sec * chunk }))
  unfolding advance_session update_next_voucher_at
  next_chunk x n chunk rest start s pos small found =
      let (q, e, f) = emit_healthy start chunk s pos small in
      let t = start + h.voucher_interval_sec * chunk in
      (
        q,
        set_next_voucher_at id t s.sessions,
        ap (λ r. advance_session id (emit_loop n hash h id owner price rest) r.0 r.1) e,
        f,
        find_session-set_next id t x s.sessions found,
      )

  -- Charging nothing.
  nothing_owed : (i m : ℕ) → m ≡ 0 → owed (price * (i * m)) ≡ 0
  nothing_owed i m e = rw e (ground arith)

  owed_split :
      (i a b t : ℕ)
      → a + b ≡ t
      → owed (price * (i * a)) + owed (price * (i * b)) ≡ owed (price * (i * t))
  owed_split i a b t e =
      ground (arith, mul_split price (i * a) (i * b) (i * t) (mul_split i a b t e))

  -- The whole loop.
  emit_loop-healthy :
      (x : Session) (n overdue start : ℕ) (s : Store)
      → start + h.voucher_interval_sec * overdue < 2 ^ 63
      → find_session id s.sessions ≡ some (record x { next_voucher_at = start })
      → let units = h.voucher_interval_sec * charged n overdue in
        (q : List Raw) × (ss : Sessions) × (emit_loop n hash h id owner price overdue start
            (healthy s)
          ≡ (some tt, record s { queue = q; sessions = ss; faults = [] }))
        × (raw_fees c q ≡ raw_fees c s.queue + owed (price * units))
        × (find_session id ss ≡ some (record x { next_voucher_at = start + units }))
  unfolding emit_loop
  emit_loop-healthy x zero overdue start s small found =
      let i = h.voucher_interval_sec in
      (
        s.queue,
        s.sessions,
        refl,
        omega (arith, nothing_owed i (charged 0 overdue) (charged_none overdue)),
        found
            ∙ ap (λ t. some (record x { next_voucher_at = t }))
                (rw (charged_none overdue) (omega arith)),
      )
  emit_loop-healthy x (suc n) zero start s small found =
      let i = h.voucher_interval_sec in
      (
        s.queue,
        s.sessions,
        refl,
        omega (arith, nothing_owed i (charged (suc n) 0) (charged-zero (suc n))),
        found
            ∙ ap (λ t. some (record x { next_voucher_at = t }))
                (rw (charged-zero (suc n)) (omega arith)),
      )
  emit_loop-healthy x (suc n) (suc k) start s small found =
      let i = h.voucher_interval_sec in
      let chunk = min (suc k) 60 in
      let rest = suc k - chunk in
      let whole : i * chunk + i * rest ≡ i * suc k = mul_split i chunk rest (suc k) (omega arith) in
      let (q, ss, e, f, g) =
        next_chunk (record x { next_voucher_at = start }) n chunk rest start s (omega arith)
          (omega arith) found in
      let (q', ss', e', f', g') =
        emit_loop-healthy x n rest (start + i * chunk) (record s { queue = q; sessions = ss })
          (omega arith) g in
      (
        q',
        ss',
        e ∙ e',
        omega (
          arith,
          f,
          f',
          owed_split i chunk (charged n rest) (charged (suc n) (suc k)) (charged_step n k),
        ),
        g'
            ∙ ap (λ t. some (record x { next_voucher_at = t }))
                (omega (
                  arith,
                  mul_split i chunk (charged n rest) (charged (suc n) (suc k)) (charged_step n k),
                )),
      )

div_bounds : (a i : ℕ) → 0 < i → (i * (a / i) ≤ a) × (a < i * (a / i) + i)
div_bounds a i pos = (omega (arith, div-add-mod a i), omega (arith, div-add-mod a i, mod-lt a pos))

-- `d` whole periods have passed in a time `a`.
capped_units :
    (a d i : ℕ)
    → i * d ≤ a
    → a < i * d + i
    → let units = i * charged 10 (d + 1) in
      (units ≤ a + i) × (a < 600 * i → a < units) × (600 * i ≤ a → units ≡ 600 * i)
capped_units a d i low high = elim (dec_lt d 600) [
  | yes few ↦
      let m : charged 10 (d + 1) ≡ d + 1 = omega arith in
      let cap : i * (d + 1) ≤ i * 600 = mul-le-mul_left i (omega arith) in
      rw m (omega arith, λ _. omega arith, λ long. absurd (omega arith))
  | no many ↦
      let m : charged 10 (d + 1) ≡ 600 = omega arith in
      let cap : i * 600 ≤ i * d = mul-le-mul_left i (omega arith) in
      rw m (omega arith, λ short. absurd (omega arith), λ _. omega arith)
]

due_units :
    (t now i : ℕ)
    → t ≤ now
    → 0 < i
    → let units = i * charged 10 ((now - t) / i + 1) in
      (t + units ≤ now + i)
      × (((now < t + 600 * i) × (now < t + units)) ⊎ ((t + 600 * i ≤ now) × (units ≡ 600 * i)))
due_units t now i le pos =
    let (low, high) = div_bounds (now - t) i pos in
    let (a, b, c) = capped_units (now - t) ((now - t) / i) i low high in
    (
      omega (arith, a),
      elim (dec_lt now (t + 600 * i)) [
        | yes short ↦ inl (short, omega (arith, b (omega arith)))
        | no long ↦ inr (omega arith, c (omega arith))
      ],
    )

-- A tick of the generator, while Redis answers, for a stored session that is due and not known to be
-- absent: it appends vouchers to the queue whose fees for every choice of keys are the session's
-- price times some seconds, owed by the session's owner for its sandbox, and moves the session's
-- NextVoucherAt on by those same seconds. That ends at most one interval after `now`; it ends after
-- `now` if fewer than 600 intervals were due, and else covers 600 intervals exactly.
pub tick_bills_what_is_due :
    (c : Choice) (hash : Hashing) (h : EventHandler) (rt : Runtime) (now : ℕ) (x : Session)
    (skips : Skips) (s : Store)
    → 0 < h.voucher_interval_sec
    → x.next_voucher_at ≤ now
    → now + h.voucher_interval_sec < 2 ^ 63
    → absent rt x.sandbox_id ≡ false
    → find_session x.sandbox_id s.sessions ≡ some x
    → let t = x.next_voucher_at in
      let i = h.voucher_interval_sec in
      (units : ℕ) × (q : List Raw) × (ss : Sessions) × (bill_session hash h rt now x skips
          (healthy s)
        ≡ (some (put x.sandbox_id 0 skips), record s { queue = q; sessions = ss; faults = [] }))
      × (raw_fees c q
          ≡ raw_fees c s.queue
            + (if c x.owner h.provider_address x.sandbox_id then price_of h x * units else 0))
      × (find_session x.sandbox_id ss ≡ some (record x { next_voucher_at = t + units }))
      × (t + units ≤ now + i)
      × (((now < t + 600 * i) × (now < t + units)) ⊎ ((t + 600 * i ≤ now) × (units ≡ 600 * i)))
unfolding bill_session
tick_bills_what_is_due c hash h rt now x skips s pos due small here found =
    let t = x.next_voucher_at in
    let i = h.voucher_interval_sec in
    let overdue = (now - t) / i + 1 in
    let (low, high) = div_bounds (now - t) i pos in
    let (q, ss, e, f, g) =
      emit_loop-healthy c hash h x.sandbox_id x.owner (price_of h x) x 10 overdue t s (omega arith)
        found in
    let (a, b) = due_units t now i due pos in
    let not_early : ltb now t ≡ false = ground arith in
    (
      i * charged 10 overdue,
      q,
      ss,
      rw (not_early, here)
          (ap
            (λ r. elim r.0 as (λ _. Option Skips × Store) [
              | none ↦ (none, r.1)
              | some _ ↦ (some (put x.sandbox_id 0 skips), r.1)
            ])
            e),
      f,
      g,
      a,
      b,
    )
