-- ===== src/Broker/Monitor/Once.antt =====
-- How often a tick tops up a pair.
use g_sandbox.Base.{
  ℕ, ◌+◌, ◌≡◌, refl, suc, sym, subst, ◌∙◌, ◌⊎◌, Bool, true, false, ◌&&◌, ◌||◌, ◌==◌, Option, none,
  some, List, [], ◌∷◌, leb, if◌then◌else◌, Bool-cases, inl, inr, arith,
}
use g_sandbox.Voucher.{Address}
use g_sandbox.Broker.{SessionEntry, Deposit}
use g_sandbox.Broker.Monitor.{
  TopUps, has_pair, use_of, deficit_of, users_of, providers_of, Tick, is_inflight_or_backoff,
  request_deposit, check_user, check_users, check_provider, check_providers, check,
}

-- The deposits taken for a pair.
abbrev pub count_of : Address → Address → List Deposit → ℕ
count_of user provider [] = 0
count_of user provider (d ∷ ds) =
    (if d.user == user && d.provider == provider then 1 else 0) + count_of user provider ds

-- What a part of a tick may do to a pair: nothing, if a deposit is on its way, and then it stays so;
-- and otherwise take one at most, which is then on its way.
abbrev pub Once : Address → Address → TopUps → TopUps → Type 0
Once user provider s s' =
    let c = count_of user provider s.deposits in
    let c' = count_of user provider s'.deposits in
    let b = has_pair user provider s.inflight || has_pair user provider s.backoff in
    let b' = has_pair user provider s'.inflight || has_pair user provider s'.backoff in
    (c' ≡ c × (b ≡ true → b' ≡ true)) ⊎ ((b ≡ false) × (b' ≡ true) × (c' ≡ suc c))

once_trans :
    (c d e : ℕ) (x y z : Bool)
    → ((d ≡ c) × (x ≡ true → y ≡ true)) ⊎ ((x ≡ false) × (y ≡ true) × (d ≡ suc c))
    → ((e ≡ d) × (y ≡ true → z ≡ true)) ⊎ ((y ≡ false) × (z ≡ true) × (e ≡ suc d))
    → ((e ≡ c) × (x ≡ true → z ≡ true)) ⊎ ((x ≡ false) × (z ≡ true) × (e ≡ suc c))
once_trans c d e x y z (inl (a, f)) (inl (b, g)) = inl (b ∙ a, (λ h. g (f h)))
once_trans c d e x y z (inl (a, f)) (inr (b, g, h)) = inr (ground arith, g, omega (arith, a, h))
once_trans c d e x y z (inr (a, f, g)) (inl (b, h)) = inr (a, h f, b ∙ g)
once_trans c d e x y z (inr (a, f, g)) (inr (b, h, i)) = ground arith

Once-trans :
    (user provider : Address) (s t u : TopUps)
    → Once user provider s t
    → Once user provider t u
    → Once user provider s u
Once-trans user provider s t u a b =
    once_trans (count_of user provider s.deposits) (count_of user provider t.deposits)
      (count_of user provider u.deposits)
      (has_pair user provider s.inflight || has_pair user provider s.backoff)
      (has_pair user provider t.inflight || has_pair user provider t.backoff)
      (has_pair user provider u.inflight || has_pair user provider u.backoff) a b

module _ (t : Tick) (answers : t.answers ≡ true) (kept : t.set_ok ≡ true) (es : List SessionEntry)
    (user provider : Address) where
  abbrev blocked : Address → Address → TopUps → Bool
  blocked u p s = has_pair u p s.inflight || has_pair u p s.backoff

  request-Once :
      (p u : Address) (amount : ℕ) (s : TopUps)
      → blocked u p s ≡ false
      → Once user provider s (request_deposit t u p amount s)
  unfolding request_deposit
  request-Once p u amount s free = elim (Bool-cases (t.accepts u p)) [
    | inr refused ↦ simp refused (inl (refl, (λ h. h)))
    | inl taken ↦ elim (Bool-cases (u == user && p == provider)) [
      | inr other ↦ simp (taken, kept, other) (inl (omega arith, (λ h. h)))
      | inl same ↦
          let a : u ≡ user = ground arith in
          let b : p ≡ provider = ground arith in
          let free' : blocked user provider s ≡ false =
            subst (λ x. blocked user x s ≡ false) b (subst (λ x. blocked x p s ≡ false) a free) in
          simp (taken, kept, same, free') (inr (refl, refl, omega arith))
    ]
  ]

  check_user-Once :
      (p u : Address) (balance : ℕ) (s : TopUps)
      → Once user provider s (check_user t es p u balance s)
  unfolding check_user is_inflight_or_backoff
  check_user-Once p u balance s =
      let topup = deficit_of (use_of es u p t.topup_intervals) balance in
      elim (Bool-cases (leb (use_of es u p t.threshold_intervals) balance)) [
        | inl enough ↦ simp enough (inl (refl, (λ h. h)))
        | inr low ↦ elim (Bool-cases (blocked u p s)) [
          | inl busy ↦ simp (low, answers, busy) (inl (refl, (λ h. h)))
          | inr free ↦
              let skip : leb (use_of es u p t.threshold_intervals) balance
                    || (t.answers && blocked u p s)
                  ≡ false =
                simp (low, answers, free) in
              subst (λ b. Once user provider s (if b then s else request_deposit t u p topup s))
                (sym skip) (request-Once p u topup s free)
        ]
      ]

  check_users-Once :
      (p : Address) (us : List Address) (bs : List ℕ) (s : TopUps)
      → Once user provider s (check_users t es p us bs s)
  unfolding check_users
  check_users-Once p [] bs s = inl (refl, (λ h. h))
  check_users-Once p (u ∷ us) [] s = inl (refl, (λ h. h))
  check_users-Once p (u ∷ us) (b ∷ bs) s =
      let s1 = check_user t es p u b s in
      Once-trans user provider s s1 (check_users t es p us bs s1) (check_user-Once p u b s)
        (check_users-Once p us bs s1)

  check_provider-Once :
      (p : Address) (service : Option Bool) (bs : Option (List ℕ)) (s : TopUps)
      → Once user provider s (check_provider t es p service bs s)
  unfolding check_provider
  check_provider-Once p (some true) (some bs) s = check_users-Once p (users_of p [] es) bs s
  check_provider-Once p (some true) none s = inl (refl, (λ h. h))
  check_provider-Once p (some false) bs s = inl (refl, (λ h. h))
  check_provider-Once p none bs s = inl (refl, (λ h. h))

  check_providers-Once :
      (ps : List Address) (s : TopUps) → Once user provider s (check_providers t es ps s)
  unfolding check_providers
  check_providers-Once [] s = inl (refl, (λ h. h))
  check_providers-Once (p ∷ ps) s =
      let s1 = check_provider t es p (t.has_service p) (t.balances p) s in
      Once-trans user provider s s1 (check_providers t es ps s1)
        (check_provider-Once p (t.has_service p) (t.balances p) s) (check_providers-Once ps s1)

-- While Redis answers and takes the markers: a tick tops up no pair with a deposit on its way or a
-- backoff, and any other at most once, after which that deposit is on its way.
pub check-Once :
    (t : Tick) (es : List SessionEntry) (user provider : Address) (s : TopUps)
    → t.answers ≡ true
    → t.set_ok ≡ true
    → Once user provider s (check t es s)
unfolding check
check-Once t es user provider s answers kept =
    check_providers-Once t answers kept es user provider (providers_of [] es) s
