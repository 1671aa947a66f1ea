-- ===== src/Proxy/Gate/Admits.antt =====
-- What one pass through the gate does, while Redis answers.
use g_sandbox.Base.{
  ℕ, ◌+◌, ◌-◌, ◌≤◌, ◌<◌, ◌^◌, ◌≡◌, refl, sym, subst, true, false, ◌⊎◌, inl, inr, Option, none, some,
  [], arith, ltb, leb, ==_refl, if◌then◌else◌, Bool-cases,
}
use g_sandbox.Voucher.{Address}
use g_sandbox.Store.{Store, put₂}
use g_sandbox.Backlog.{sum_raws, sum_mine, held_debt, queued_pending}
use g_sandbox.Billing.Reserved.{reserve, release, reserved_of}
use g_sandbox.Proxy.Gate.{
  outstanding_debt, Funds, Admission, admitted, balance_error, insufficient, release_if, Claim,
  is_short, turn_away, rejudge, judge, claim, admit,
}

-- What the pair owes: parked, and queued.
abbrev pub debt_of : Store → Address → Address → ℕ
debt_of s user provider = sum_raws (s.held user provider) + sum_mine user provider s.queue

-- A balance that the gate judges by: the one that it reads first, or the one after a top-up.
abbrev pub IsRead : Funds → ℕ → Type 0
IsRead funds balance =
    (funds.balance ≡ some balance)
    ⊎ ((funds.topped_up ≡ true) × (funds.balance_again ≡ some balance))

-- What an admission says of the store after it: an admitted request is reserved, a balance that was
-- read covers the debt and all reservations, and Redis still answers; any other leaves what was
-- reserved before.
abbrev pub Gated : Address → Address → ℕ → Funds → Store → Option Admission × Store → Type 0
Gated user provider required funds s (none, s') = ⊥
Gated user provider required funds s (some (admitted holds), s') =
    (holds ≡ true)
    × (s'.faults ≡ [])
    × (reserved_of s' user provider ≡ reserved_of s user provider + required)
    × ((balance : ℕ) × IsRead funds balance
        × (debt_of s user provider + reserved_of s' user provider ≤ balance))
Gated user provider required funds s (some _, s') =
    reserved_of s' user provider ≡ reserved_of s user provider

module _ (user provider : Address) (required : ℕ) (s : Store)
    (small : reserved_of s user provider + required < 2 ^ 63) where
  abbrev total : ℕ
  total = reserved_of s user provider + required

  abbrev reserving : Store
  reserving = record s { faults = []; reserved = put₂ user provider (some total) s.reserved }

  abbrev the_claim : Claim
  the_claim = record {
    user = user;
    provider = provider;
    required = required;
    held = sum_raws (s.held user provider);
    pending = sum_mine user provider s.queue;
    total_reserved = total;
    holds = true;
  }

  claim_lem :
      claim user provider required
        (sum_raws (s.held user provider))
        (sum_mine user provider s.queue)
        (record s { faults = [] })
      ≡ (some the_claim, reserving)
  unfolding claim reserve
  claim_lem = let fits : ltb total (2 ^ 63) ≡ true = ground arith in rw fits

  release_lem :
      (r : Store) × (release_if true user provider required reserving ≡ (some tt, r))
      × (reserved_of r user provider ≡ reserved_of s user provider)
  unfolding release_if release
  release_lem =
      let fits : ltb required (2 ^ 63) ≡ true = ground arith in
      (
        record reserving {
          reserved =
              put₂ user provider (if leb total required then none else some (total - required))
                reserving.reserved;
        },
        rw (fits, ==_refl user, ==_refl provider),
        ground arith,
      )

  -- The ways out that release.
  released :
      (funds : Funds) (out : Admission)
      → ((r : Store)
          → reserved_of r user provider ≡ reserved_of s user provider
          → Gated user provider required funds s (some out, r))
      → Gated user provider required funds s
          (elim (release_if true user provider required reserving).0
            as (λ _. Option Admission × Store) [
              | none ↦ (none, (release_if true user provider required reserving).1)
              | some _ ↦ (some out, (release_if true user provider required reserving).1)
            ])
  released funds out good =
      let (r, e, f) = release_lem in
      subst
        (λ x. Gated user provider required funds s (elim x.0 as (λ _. Option Admission × Store) [
          | none ↦ (none, x.1)
          | some _ ↦ (some out, x.1)
        ]))
        (sym e) (good r f)

  turn_away-Gated :
      (funds : Funds) (balance : ℕ)
      → Gated user provider required funds s (turn_away the_claim balance reserving)
  unfolding turn_away
  turn_away-Gated funds balance =
      released funds
        (insufficient (balance + required - (debt_of s user provider + total)) required
          (sum_raws (s.held user provider)) (sum_mine user provider s.queue))
        (λ r f. f)

  -- The way out that keeps the reservation.
  kept :
      (funds : Funds) (balance : ℕ)
      → is_short the_claim balance ≡ false
      → IsRead funds balance
      → Gated user provider required funds s (some (admitted true), reserving)
  kept funds balance enough read = (refl, refl, ground arith, (balance, read, ground arith))

  rejudge-Gated :
      (funds : Funds) (answer : Option ℕ)
      → funds.topped_up ≡ true
      → funds.balance_again ≡ answer
      → Gated user provider required funds s (rejudge the_claim answer reserving)
  unfolding rejudge
  rejudge-Gated funds none funded read = released funds balance_error (λ r f. f)
  rejudge-Gated funds (some balance) funded read = elim (Bool-cases (is_short the_claim balance)) [
    | inl short ↦ rw short (turn_away-Gated funds balance)
    | inr enough ↦ rw enough (kept funds balance enough (inr (funded, read)))
  ]

  judge-Gated :
      (funds : Funds) (balance : ℕ)
      → funds.balance ≡ some balance
      → Gated user provider required funds s (judge the_claim funds balance reserving)
  unfolding judge
  judge-Gated funds balance read = elim (Bool-cases (is_short the_claim balance)) [
    | inr enough ↦ rw enough (kept funds balance enough (inl read))
    | inl short ↦ elim (Bool-cases funds.topped_up) [
      | inl funded ↦ simp (short, funded) (rejudge-Gated funds funds.balance_again funded refl)
      | inr alone ↦ simp (short, alone) (turn_away-Gated funds balance)
    ]
  ]

  admit-balance :
      (funds : Funds) (answer : Option ℕ)
      → let funds' = record funds { balance = answer } in
        Gated user provider required funds' s
          (admit user provider required funds' (record s { faults = [] }))
  unfolding admit outstanding_debt held_debt queued_pending
  admit-balance funds none = refl
  admit-balance funds (some balance) =
      let funds' = record funds { balance = some balance } in
      subst
        (λ x. Gated user provider required funds' s (elim x.0 as (λ _. Option Admission × Store) [
          | none ↦ (none, x.1)
          | some c ↦ judge c funds' balance x.1
        ]))
        (sym claim_lem) (judge-Gated funds' balance refl)

-- While Redis answers and the totals are int64: an admitted request is reserved, and the last balance
-- that the gate read covers the pair's debt and all its reservations, this one included; a request
-- that is turned away, or whose balance cannot be read, leaves what was reserved as it was.
pub admit-Gated :
    (user provider : Address) (required : ℕ) (funds : Funds) (s : Store)
    → reserved_of s user provider + required < 2 ^ 63
    → Gated user provider required funds s
        (admit user provider required funds (record s { faults = [] }))
admit-Gated user provider required funds s small =
    admit-balance user provider required s small funds funds.balance
