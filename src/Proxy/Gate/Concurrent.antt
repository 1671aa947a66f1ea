-- ===== src/Proxy/Gate/Concurrent.antt =====
-- Requests of one user that pass the gate at the same time. A request makes its claim in one step and
-- is judged in a later one, in any order with those of other requests, and each command that it sends
-- may fail.
use g_sandbox.Base.{
  ℕ, ◌+◌, ◌≤◌, ◌≡◌, ◌≢◌, refl, sym, ap, ◌∙◌, subst, Bool, true, false, Option, none, some, List, [],
  ◌∷◌, ◌++◌, arith, if◌then◌else◌, inl, inr, Bool-cases, Option-cases, or_zero,
}
use g_sandbox.Voucher.{Address}
use g_sandbox.Store.{Store}
use g_sandbox.Billing.Reserved.{reserve, release, reserved_of, reserve_total, get_reserved}
use g_sandbox.Proxy.Gate.{
  Funds, Admission, admitted, release_if, Claim, is_short, turn_away, rejudge, judge, claim,
}
use g_sandbox.Proxy.Gate.Admits.{IsRead}

-- A request that has made its claim, and whether it has been admitted.
pub record Flight : Type 0 where
  pub claim : Claim
  pub is_admitted : Bool

-- What a request holds reserved.
abbrev pub reserved_for : Flight → ℕ
reserved_for f = if f.claim.holds then f.claim.required else 0

abbrev pub sum_required : List Flight → ℕ
sum_required [] = 0
sum_required (f ∷ fs) = reserved_for f + sum_required fs

abbrev pub sum_admitted : List Flight → ℕ
sum_admitted [] = 0
sum_admitted (f ∷ fs) = (if f.is_admitted then reserved_for f else 0) + sum_admitted fs

-- No balance that a request may be judged by exceeds the debt that it read by more than `spendable`.
abbrev pub AtMost : ℕ → Claim → Funds → Type 0
AtMost spendable c funds =
    (balance : ℕ) → IsRead funds balance → balance ≤ spendable + c.held + c.pending

-- One step: a claim, which makes a reservation if Redis takes it, and goes without one otherwise; and
-- a judgement, after which the request is admitted, or no longer there. The latest request stands
-- first.
pub data Step (user provider : Address) (spendable : ℕ)
    : Store → List Flight → Store → List Flight → Type 0 where
  claims :
      {s t : Store} {fs : List Flight} (required held pending : ℕ) (c : Claim)
      → claim user provider required held pending s ≡ (some c, t)
      → Step user provider spendable s fs t (record { claim = c; is_admitted = false } ∷ fs)
  admits :
      {s t : Store} (before : List Flight) (f : Flight) (after : List Flight) (funds : Funds)
      (balance : ℕ) (holds : Bool)
      → f.is_admitted ≡ false
      → funds.balance ≡ some balance
      → AtMost spendable f.claim funds
      → judge f.claim funds balance s ≡ (some (admitted holds), t)
      → Step user provider spendable s
          (before ++ f ∷ after)
          t
          (before ++ record f { is_admitted = true } ∷ after)
  refuses :
      {s t : Store} (before : List Flight) (f : Flight) (after : List Flight) (funds : Funds)
      (balance : ℕ) (out : Option Admission)
      → f.is_admitted ≡ false
      → funds.balance ≡ some balance
      → judge f.claim funds balance s ≡ (out, t)
      → ((holds : Bool) → out ≢ some (admitted holds))
      → Step user provider spendable s (before ++ f ∷ after) t (before ++ after)

pub data Steps (user provider : Address) (spendable : ℕ)
    : Store → List Flight → Store → List Flight → Type 0 where
  done : {s : Store} {fs : List Flight} → Steps user provider spendable s fs s fs
  more :
      {s t u : Store} {fs gs hs : List Flight}
      → Steps user provider spendable s fs t gs
      → Step user provider spendable t gs u hs
      → Steps user provider spendable s fs u hs

-- The total of a reservation covers the request and those before it, and an admitted total is
-- spendable.
abbrev Fits : ℕ → List Flight → Type 0
Fits spendable [] = Unit
Fits spendable (f ∷ fs) =
    (f.claim.holds ≡ true → f.claim.required + sum_required fs ≤ f.claim.total_reserved)
    × (f.is_admitted ≡ true → f.claim.total_reserved ≤ spendable)
    × Fits spendable fs

sum_required-mark :
    (before : List Flight) (f : Flight) (after : List Flight)
    → sum_required (before ++ record f { is_admitted = true } ∷ after)
      ≡ sum_required (before ++ f ∷ after)
sum_required-mark [] f after = refl
sum_required-mark (g ∷ gs) f after = omega (arith, sum_required-mark gs f after)

sum_required-drop :
    (before : List Flight) (f : Flight) (after : List Flight)
    → sum_required (before ++ f ∷ after) ≡ reserved_for f + sum_required (before ++ after)
sum_required-drop [] f after = refl
sum_required-drop (g ∷ gs) f after = omega (arith, sum_required-drop gs f after)

Fits-mark :
    (spendable : ℕ) (before : List Flight) (f : Flight) (after : List Flight)
    → f.claim.total_reserved ≤ spendable
    → Fits spendable (before ++ f ∷ after)
    → Fits spendable (before ++ record f { is_admitted = true } ∷ after)
Fits-mark spendable [] f after ok (a, b, c) = (a, (λ _. ok), c)
Fits-mark spendable (g ∷ gs) f after ok (a, b, c) = (
  λ holds. (let le = a holds in omega (arith, sum_required-mark gs f after)),
  b,
  Fits-mark spendable gs f after ok c,
)

Fits-drop :
    (spendable : ℕ) (before : List Flight) (f : Flight) (after : List Flight)
    → Fits spendable (before ++ f ∷ after)
    → Fits spendable (before ++ after)
Fits-drop spendable [] f after (a, b, c) = c
Fits-drop spendable (g ∷ gs) f after (a, b, c) = (
  λ holds. (let le = a holds in omega (arith, sum_required-drop gs f after)),
  b,
  Fits-drop spendable gs f after c,
)

admitted-le-required : (fs : List Flight) → sum_admitted fs ≤ sum_required fs
admitted-le-required [] = omega arith
admitted-le-required (f ∷ fs) = ground (arith, admitted-le-required fs)

-- A release takes away what it releases, at most.
release_least :
    (user provider : Address) (amount : ℕ) (s : Store) (u p : Address)
    → reserved_of s u p ≤ reserved_of (release user provider amount s).1 u p + amount
unfolding release
release_least user provider amount s u p = ground arith

release_if_least :
    (holds : Bool) (user provider : Address) (amount : ℕ) (s : Store) (u p : Address)
    → reserved_of s u p
      ≤ reserved_of (release_if holds user provider amount s).1 u p + (if holds then amount else 0)
unfolding release_if
release_if_least holds user provider amount s u p =
    ground (arith, release_least user provider amount s u p)

turn_away_least :
    (c : Claim) (balance : ℕ) (s : Store) (u p : Address)
    → reserved_of s u p
      ≤ reserved_of (turn_away c balance s).1 u p + (if c.holds then c.required else 0)
unfolding turn_away
turn_away_least c balance s u p =
    ground (arith, release_if_least c.holds c.user c.provider c.required s u p)

rejudge_least :
    (c : Claim) (answer : Option ℕ) (s : Store) (u p : Address)
    → reserved_of s u p
      ≤ reserved_of (rejudge c answer s).1 u p + (if c.holds then c.required else 0)
unfolding rejudge
rejudge_least c none s u p =
    ground (arith, release_if_least c.holds c.user c.provider c.required s u p)
rejudge_least c (some balance) s u p = ground (arith, turn_away_least c balance s u p)

judge_least :
    (c : Claim) (funds : Funds) (balance : ℕ) (s : Store) (u p : Address)
    → reserved_of s u p
      ≤ reserved_of (judge c funds balance s).1 u p + (if c.holds then c.required else 0)
unfolding judge
judge_least c funds balance s u p =
    ground (arith, turn_away_least c balance s u p, rejudge_least c funds.balance_again s u p)

turn_away-refuses :
    (c : Claim) (balance : ℕ) (s : Store) (holds : Bool)
    → (turn_away c balance s).0 ≢ some (admitted holds)
unfolding turn_away
turn_away-refuses c balance s holds h = ground arith

-- A request is admitted, without a change of the store, by a balance that it read and that is enough.
judge-admitted :
    (c : Claim) (funds : Funds) (balance : ℕ) (s : Store) (holds : Bool)
    → funds.balance ≡ some balance
    → (judge c funds balance s).0 ≡ some (admitted holds)
    → ((judge c funds balance s).1 ≡ s) × ((b : ℕ) × IsRead funds b × (is_short c b ≡ false))
unfolding judge rejudge
judge-admitted c funds balance s holds read h = elim (Bool-cases (is_short c balance)) [
  | inr enough ↦ (rw enough refl, (balance, inl read, enough))
  | inl short ↦ elim (Bool-cases funds.topped_up) [
    | inr alone ↦ absurd (turn_away-refuses c balance s holds (ground arith))
    | inl funded ↦ elim (Option-cases funds.balance_again) [
      | inl e ↦ absurd (ground arith)
      | inr (b, e) ↦ elim (Bool-cases (is_short c b)) [
        | inl short' ↦ absurd (turn_away-refuses c b s holds (ground arith))
        | inr enough ↦ (rw (short, funded, e, enough) refl, (b, inr (funded, e), enough))
      ]
    ]
  ]
]

reserve-none :
    (user provider : Address) (required : ℕ) (s : Store)
    → (reserve user provider required s).0 ≡ none
    → reserved_of (reserve user provider required s).1 user provider ≡ reserved_of s user provider
unfolding reserve
reserve-none user provider required s h = ground arith

get_reserved_keeps :
    (user provider : Address) (s : Store)
    → reserved_of (get_reserved user provider s).1 user provider ≡ reserved_of s user provider
unfolding get_reserved
get_reserved_keeps user provider s = ground arith

-- The claim that the gate makes of what Redis says to the reservation.
abbrev made : Address → Address → ℕ → ℕ → ℕ → Option ℕ → ℕ → Claim
made user provider required held pending reserved now = record {
  user = user;
  provider = provider;
  required = required;
  held = held;
  pending = pending;
  total_reserved = elim reserved [ some total ↦ total | none ↦ now + required ];
  holds = elim reserved [ some total ↦ true | none ↦ false ];
}

claim_some :
    (user provider : Address) (required held pending : ℕ) (s : Store) (total : ℕ)
    → (reserve user provider required s).0 ≡ some total
    → claim user provider required held pending s ≡ (
      some (made user provider required held pending (some total) 0),
      (reserve user provider required s).1,
    )
unfolding claim
claim_some user provider required held pending s total e = rw e refl

claim_none :
    (user provider : Address) (required held pending : ℕ) (s : Store)
    → (reserve user provider required s).0 ≡ none
    → (now : ℕ) × (claim user provider required held pending s ≡ (
      some (made user provider required held pending none now),
      (get_reserved user provider (reserve user provider required s).1).1,
    ))
unfolding claim get_reserved
claim_none user provider required held pending s e =
    (or_zero (get_reserved user provider (reserve user provider required s).1).0, rw e refl)

-- What a claim has reserved, and what its total says.
Claimed : Address → Address → Store → Claim → Store → Type 0
Claimed user provider s c t =
    (reserved_of s user provider + (if c.holds then c.required else 0)
      ≤ reserved_of t user provider)
    × (c.holds ≡ true → c.total_reserved ≡ reserved_of s user provider + c.required)

claim-Claimed :
    (user provider : Address) (required held pending : ℕ) (s : Store) (c : Claim) (t : Store)
    → claim user provider required held pending s ≡ (some c, t)
    → Claimed user provider s c t
unfolding Claimed
claim-Claimed user provider required held pending s c t h =
    elim (Option-cases (reserve user provider required s).0) [
      | inl e ↦
          let keeps = reserve-none user provider required s e in
          let kept = get_reserved_keeps user provider (reserve user provider required s).1 in
          let (now, run) = claim_none user provider required held pending s e in
          of (made user provider required held pending none now) _ (sym run ∙ h)
            (omega arith, λ holds. ground arith)
      | inr (total, e) ↦
          let (a, b) = reserve_total user provider required s user provider e in
          of (made user provider required held pending (some total) 0) _
            (sym (claim_some user provider required held pending s total e) ∙ h)
            (ground arith, λ holds. a)
    ]
  where
    of :
        (c' : Claim) (t' : Store)
        → (◌≡◌ {A = Option Claim × Store} (some c', t') (some c, t))
        → Claimed user provider s c' t'
        → Claimed user provider s c t
    of c' t' same good =
        subst
          (λ x. elim x.0 as (λ _. Type 0) [ none ↦ Unit | some d ↦ Claimed user provider s d x.1 ])
          same good

admitted-le-spendable :
    (spendable : ℕ) (fs : List Flight) → Fits spendable fs → sum_admitted fs ≤ spendable
admitted-le-spendable spendable [] fits = omega arith
admitted-le-spendable spendable (f ∷ fs) (a, b, c) =
    let most = admitted-le-spendable spendable fs c in
    let least = admitted-le-required fs in
    elim (Bool-cases f.is_admitted) [
      | inr waiting ↦ rw waiting (omega arith)
      | inl accepted ↦ elim (Bool-cases f.claim.holds) [
        | inr bare ↦ rw (accepted, bare) (omega arith)
        | inl held ↦
            let total = a held in let within = b accepted in rw (accepted, held) (omega arith)
      ]
    ]

-- What holds between the store and the requests in flight.
abbrev Sound : Address → Address → ℕ → Store → List Flight → Type 0
Sound user provider spendable s fs =
    (sum_required fs ≤ reserved_of s user provider) × Fits spendable fs

Step-Sound :
    (user provider : Address) (spendable : ℕ) {s t : Store} {fs gs : List Flight}
    → Step user provider spendable s fs t gs
    → Sound user provider spendable s fs
    → Sound user provider spendable t gs
unfolding Claimed
Step-Sound user provider spendable (claims required held pending c run) (low, fits) =
    let (a, b) = claim-Claimed user provider required held pending _ c _ run in
    (omega arith, ((λ holds. (let total = b holds in omega arith)), (λ never. ground arith), fits))
Step-Sound user provider spendable {s} {t}
      (admits before f after funds balance holds new read most run) (low, fits) =
    let (same, (b, at, enough)) =
      judge-admitted f.claim funds balance s holds read (ap (λ x. x.0) run) in
    let least = most b at in
    let now : reserved_of s user provider ≡ reserved_of t user provider =
      ap (λ x. reserved_of x user provider) (sym same ∙ ap (λ x. x.1) run) in
    (
      omega (arith, sum_required-mark before f after),
      Fits-mark spendable before f after (ground arith) fits,
    )
Step-Sound user provider spendable {s} {t}
      (refuses before f after funds balance out new read run other) (low, fits) =
    let least = judge_least f.claim funds balance s user provider in
    let now : reserved_of (judge f.claim funds balance s).1 user provider
        ≡ reserved_of t user provider =
      ap (λ x. reserved_of x.1 user provider) run in
    (omega (arith, sum_required-drop before f after), Fits-drop spendable before f after fits)

Steps-Sound :
    (user provider : Address) (spendable : ℕ) {s t : Store} {fs gs : List Flight}
    → Steps user provider spendable s fs t gs
    → Sound user provider spendable s fs
    → Sound user provider spendable t gs
Steps-Sound user provider spendable done sound = sound
Steps-Sound user provider spendable (more steps step) sound =
    Step-Sound user provider spendable step (Steps-Sound user provider spendable steps sound)

-- However the claims, admissions and refusals of a user's requests interleave, whatever commands to
-- Redis fail, from a store with any reservations, and while no balance that is read exceeds the debt
-- read with it by more than `spendable` and the admitted requests' reservations stay: what the admitted
-- requests that hold a reservation require together is within `spendable`, and all requests in flight
-- that hold one are reserved. A request whose reservation Redis does not take is not counted.
pub admitted_are_covered :
    (user provider : Address) (spendable : ℕ) {s t : Store} {fs : List Flight}
    → Steps user provider spendable s [] t fs
    → (sum_admitted fs ≤ spendable) × (sum_required fs ≤ reserved_of t user provider)
admitted_are_covered user provider spendable steps =
    let (low, fits) = Steps-Sound user provider spendable steps (omega arith, tt) in
    (admitted-le-spendable spendable _ fits, low)
