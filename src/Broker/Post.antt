-- ===== src/Broker/Post.antt =====
-- What a request for a session does.
use mathlib.Core.Option.{some-injective}
use package.text.Mathlib.TextPositions.{eq_refl}
use g_sandbox.Base.{
  ℕ, zero, suc, ◌+◌, ◌*◌, ◌%◌, ◌^◌, ◌==◌, ◌&&◌, ◌≤◌, or_zero, ◌-◌, ◌≡◌, ◌≢◌, refl, sym, ap, subst,
  ◌∙◌, ◌⊎◌, inl, inr, true, false, ==_refl, Option, none, some, List, ◌∷◌, ltb, if◌then◌else◌,
  Bool-cases, Option-cases, arith,
}
use g_sandbox.Broker.{
  SeenKey, session_key, fund_key, same_key, has_key, Deposit, Broker, PostSessionReq, Pricing,
  PostCall, is_fresh, seen_key, refusal, needed, wait_for_balance, PostReply, reply, register, fund,
  serve, post_request, handle_post,
}

-- What a request that is served has shown.
abbrev pub Authorized : PostCall → PostSessionReq → List SeenKey → Type 0
Authorized c q seen =
    (c.signer ≡ some q.provider)
    × (c.is_active ≡ some true)
    × (is_fresh c.now q.start_time ≡ true)
    × ((c.exists_ok ≡ false) ⊎ (has_key (seen_key q) seen ≡ false))

refusal-none :
    (c : PostCall) (q : PostSessionReq) (seen : List SeenKey)
    → refusal c q seen ≡ none
    → Authorized c q seen
unfolding refusal
refusal-none c q seen h = (ground arith, ground arith, ground arith, ground arith)

-- The deposit for a deficit.
abbrev pub deposit : PostSessionReq → ℕ → Deposit
deposit q amount = record { user = q.user; provider = q.provider; amount = amount }

-- How a request that is served ends: what is asked of the payment layer is the deficit, if there is
-- one; the anti-replay key is written with a success only.
abbrev pub Served : PostCall → PostSessionReq → ℕ → ℕ → Broker → PostReply × Broker → Type 0
Served c q amount balance s (r, s') =
    (s'.deposits
      ≡ (if ltb balance amount then deposit q (amount - balance) ∷ s.deposits else s.deposits))
    × (((r.status ≡ 200) × (s'.seen ≡ (if c.set_ok then seen_key q ∷ s.seen else s.seen)))
        ⊎ ((r.status ≢ 200) × (s'.seen ≡ s.seen) × (s'.sessions ≡ s.sessions)))

fund-Served :
    (c : PostCall) (q : PostSessionReq) (p : Pricing) (amount balance : ℕ) (s : Broker)
    → ltb balance amount ≡ true
    → Served c q amount balance s (fund c q p amount (amount - balance) s)
unfolding fund register
fund-Served c q p amount balance s short = elim (Bool-cases c.deposit_ok) [
  | inr refused ↦ simp (refused, short) (refl, inr ((λ e. ground arith), refl, refl))
  | inl taken ↦ elim (Bool-cases (wait_for_balance amount c.polls)) [
    | inr late ↦ simp (taken, late, short) (refl, inr ((λ e. ground arith), refl, refl))
    | inl landed ↦ simp (taken, landed, short) (refl, inl (refl, refl))
  ]
]

serve-Served :
    (topup : ℕ) (c : PostCall) (q : PostSessionReq) (p : Pricing) (balance : ℕ) (s : Broker)
    → Served c q (needed topup p q) balance s (serve topup c q (some (some p)) (some balance) s)
unfolding serve register
serve-Served topup c q p balance s = elim (Bool-cases (ltb balance (needed topup p q))) [
  | inl short ↦
      subst
        (λ b. Served c q (needed topup p q) balance s (
          if b
          then fund c q p (needed topup p q) (needed topup p q - balance) s
          else (record { status = 200; amount_funded = some 0 }, register c q p s)))
        (sym short) (fund-Served c q p (needed topup p q) balance s short)
  | inr enough ↦ simp enough (refl, inl (refl, refl))
]

-- The spec that is paid for, at least one of each if none is given.
abbrev pub billed : ℕ → ℕ → ℕ × ℕ
billed zero zero = (1, 1)
billed cpu mem_gb = (cpu, mem_gb)

-- What the balance must reach: so many intervals of the spec, and before a create its fee.
abbrev pub due : ℕ → Pricing → PostSessionReq → ℕ
due topup p q =
    let (cpu, mem_gb) = billed q.cpu q.mem_gb in
    (p.per_cpu * cpu + p.per_mem_gb * mem_gb) * (q.voucher_interval_sec * topup)
    + (if q.sandbox_id == 0 then or_zero p.create_fee else 0)

billed_lem :
    (cpu mem_gb : ℕ)
    → (if cpu == 0 && mem_gb == 0 then (1, 1) else (cpu, mem_gb)) ≡ billed cpu mem_gb
billed_lem zero zero = refl
billed_lem zero (suc m) = ground arith
billed_lem (suc c) m = ground arith

needed-due :
    (topup : ℕ) (p : Pricing) (q : PostSessionReq)
    → (2 ^ 63 ≤ q.voucher_interval_sec * topup) ⊎ (needed topup p q ≡ due topup p q)
unfolding needed
needed-due topup p q = elim (Bool-cases (ltb (q.voucher_interval_sec * topup) (2 ^ 63))) [
  | inr big ↦ inl (ground arith)
  | inl small ↦
      let seconds : ℕ = q.voucher_interval_sec * topup in
      let whole : seconds % 2 ^ 64 ≡ seconds = ground arith in
      inr (rw (whole, small, billed_lem q.cpu q.mem_gb) refl)
]

-- How a request ends: refused, with nothing done; or authorized, with a deposit only for a deficit
-- that was computed from the prices and the balance on chain.
abbrev pub Ends : ℕ → PostCall → Broker → PostReply × Broker → Type 0
Ends topup c s (r, s') =
    ((r.status ≢ 200) × (s' ≡ s))
    ⊎ ((q : PostSessionReq) × (p : Pricing) × (balance : ℕ) × (c.request ≡ some q)
        × (c.pricing ≡ some (some p))
        × (c.balance ≡ some balance)
        × Authorized c q s.seen
        × ((2 ^ 63 ≤ q.voucher_interval_sec * topup) ⊎ (needed topup p q ≡ due topup p q))
        × Served c q (needed topup p q) balance s (r, s'))

refusal-some :
    (c : PostCall) (q : PostSessionReq) (seen : List SeenKey) (status : ℕ)
    → refusal c q seen ≡ some status
    → status ≢ 200
unfolding refusal
refusal-some c q seen status h = ground arith

served-Ends :
    (topup : ℕ) (c : PostCall) (q : PostSessionReq) (s : Broker)
    → c.request ≡ some q
    → refusal c q s.seen ≡ none
    → (pricing : Option (Option Pricing)) (balance : Option ℕ) → c.pricing ≡ pricing
    → c.balance ≡ balance
    → Ends topup c s (serve topup c q pricing balance s)
unfolding serve
served-Ends topup c q s asked passes none balance a b = inl ((λ e. ground arith), refl)
served-Ends topup c q s asked passes (some none) balance a b = inl ((λ e. ground arith), refl)
served-Ends topup c q s asked passes (some (some p)) none a b = inl ((λ e. ground arith), refl)
served-Ends topup c q s asked passes (some (some p)) (some balance) a b = inr (
  q,
  p,
  balance,
  asked,
  a,
  b,
  refusal-none c q s.seen passes,
  needed-due topup p q,
  serve-Served topup c q p balance s,
)

judged-Ends :
    (topup : ℕ) (c : PostCall) (q : PostSessionReq) (s : Broker)
    → c.request ≡ some q
    → (refused : Option ℕ) → refusal c q s.seen ≡ refused
    → Ends topup c s (elim refused as (λ _. PostReply × Broker) [
      | some status ↦ (reply status, s)
      | none ↦ serve topup c q c.pricing c.balance s
    ])
judged-Ends topup c q s asked (some status) h = inl (refusal-some c q s.seen status h, refl)
judged-Ends topup c q s asked none h = served-Ends topup c q s asked h c.pricing c.balance refl refl

request-Ends :
    (topup : ℕ) (c : PostCall) (s : Broker) (request : Option PostSessionReq)
    → c.request ≡ request
    → Ends topup c s (post_request topup c request s)
unfolding post_request
request-Ends topup c s none asked = inl ((λ e. ground arith), refl)
request-Ends topup c s (some q) asked = judged-Ends topup c q s asked (refusal c q s.seen) refl

-- Any request for a session: either it does not succeed and changes nothing; or it is authorized (its
-- signer is the provider, active, the start time is fresh, and the key was not seen if Redis answers),
-- the deposit asked for is the deficit of the balance against what is needed, if there is one, which is
-- the price of the spec over the intervals and the create fee unless their product leaves int64, and
-- either it succeeds and the anti-replay key is written, if Redis takes it, or it does not, and neither
-- a key nor a session is written.
pub handle_post-Ends :
    (topup : ℕ) (c : PostCall) (s : Broker) → Ends topup c s (handle_post topup c s)
unfolding handle_post
handle_post-Ends topup c s = request-Ends topup c s c.request refl

same_key_refl : (k : SeenKey) → same_key k k ≡ true
same_key_refl (session_key id t) = simp ==_refl
same_key_refl (fund_key a t) = simp (==_refl, eq_refl)

seen-refused :
    (c : PostCall) (q : PostSessionReq) (seen : List SeenKey)
    → c.exists_ok ≡ true
    → has_key (seen_key q) seen ≡ true
    → (status : ℕ) × (refusal c q seen ≡ some status)
seen-refused c q seen ok old = elim (Option-cases (refusal c q seen)) [
  | inl passes ↦
      let (_, _, _, replay) = refusal-none c q seen passes in
      elim replay [ inl lost ↦ ground arith | inr new ↦ ground arith ]
  | inr refused ↦ refused
]

success_is_seen :
    (topup : ℕ) (c : PostCall) (q : PostSessionReq) (s : Broker)
    → c.request ≡ some q
    → (handle_post topup c s).0.status ≡ 200
    → c.set_ok ≡ true
    → has_key (seen_key q) (handle_post topup c s).1.seen ≡ true
success_is_seen topup c q s asked good kept = elim (handle_post-Ends topup c s) [
  | inl (failed, _) ↦ elim (failed good) [ ]
  | inr (q', p, balance, asked', _, _, _, _, (_, out)) ↦ elim out [
    | inr (failed, _, _) ↦ elim (failed good) [ ]
    | inl (_, now) ↦
        let same : q' ≡ q = some-injective q' q (sym asked' ∙ asked) in
        subst (λ b. has_key (seen_key q) b ≡ true)
          (sym (now ∙ ap (λ b. if b then seen_key q' ∷ s.seen else s.seen) kept))
          (subst (λ k. has_key (seen_key q) (seen_key k ∷ s.seen) ≡ true) (sym same)
            (simp (same_key_refl (seen_key q))))
  ]
]

old_request_does_nothing :
    (topup : ℕ) (c : PostCall) (q : PostSessionReq) (t : Broker)
    → c.request ≡ some q
    → c.exists_ok ≡ true
    → has_key (seen_key q) t.seen ≡ true
    → let (r, t') = handle_post topup c t in (r.status ≢ 200) × (t' ≡ t)
unfolding handle_post post_request
old_request_does_nothing topup c q t asked ok old =
    let (status, e) = seen-refused c q t.seen ok old in
    subst (λ x. ((post_request topup c x t).0.status ≢ 200) × ((post_request topup c x t).1 ≡ t))
      (sym asked)
      (subst
        (λ x.
          let (r, t') = elim x as (λ _. PostReply × Broker) [
            | some status ↦ (reply status, t)
            | none ↦ serve topup c q c.pricing c.balance t
          ] in
          (r.status ≢ 200) × (t' ≡ t))
        (sym e) (refusal-some c q t.seen status e, refl))

-- A request that was answered with success does nothing a second time, in the same spelling, whoever
-- sends it and whatever the chain answers by then, if Redis took the anti-replay key and answers about it.
pub replay_does_nothing :
    (topup : ℕ) (c c' : PostCall) (q : PostSessionReq) (s : Broker)
    → c.request ≡ some q
    → c'.request ≡ some q
    → (handle_post topup c s).0.status ≡ 200
    → c.set_ok ≡ true
    → c'.exists_ok ≡ true
    → let (r, s') = handle_post topup c' (handle_post topup c s).1 in
      (r.status ≢ 200) × (s' ≡ (handle_post topup c s).1)
replay_does_nothing topup c c' q s asked again good kept ok =
    old_request_does_nothing topup c' q (handle_post topup c s).1 again ok
      (success_is_seen topup c q s asked good kept)
