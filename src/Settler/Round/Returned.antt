-- ===== src/Settler/Round/Returned.antt =====
-- A batch that does not go out is returned to the queue.
use g_sandbox.Base.{
  ℕ, ◌≡◌, refl, ap, ◌∙◌, ◌⊎◌, inl, inr, true, Option, none, some, List, [], ◌∷◌, arith, is_some,
  Option-cases,
}
use g_sandbox.Voucher.{Address, SandboxVoucher, Raw}
use g_sandbox.Store.{Store, Action, ◌>>=◌, pure, push_front, notify}
use g_sandbox.Billing.Signer.{Signing, seed_nonce, next_nonce, incr_nonce, seal, sign}
use g_sandbox.Settler.Pending.{save_pending_tx, clear_pending_tx}
use g_sandbox.Settler.Round.{
  Env, RoundEnd, intent_of, sign_batch, put_back, after_submit_error, submit_batch, sign_and_submit,
}

-- While Redis answers, an action leaves the queue as it is, and Redis answers after it.
abbrev Calm : {A : Type 0} → Action A → Type 0
Calm m = (s : Store) → s.faults ≡ [] → ((m s).1.faults ≡ []) × ((m s).1.queue ≡ s.queue)

Calm-bind :
    {A B : Type 0} (m : Action A) (k : A → Action B)
    → Calm m
    → ((a : A) → Calm (k a))
    → Calm (m >>= k)
Calm-bind {A} {B} m k cm ck s up = go (m s).0 (m s).1 (cm s up)
  where
    go :
        (r : Option A) (s' : Store)
        → (s'.faults ≡ []) × (s'.queue ≡ s.queue)
        → let s'' = (elim r as (λ _. Option B × Store) [ none ↦ (none, s') | some a ↦ k a s' ]).1 in
          (s''.faults ≡ []) × (s''.queue ≡ s.queue)
    go none s' e = e
    go (some a) s' (e, f) = let (e', f') = ck a s' e in (e', f' ∙ f)

incr_nonce-Calm : (sg : Signing) (owner provider : Address) → Calm (incr_nonce sg owner provider)
unfolding incr_nonce next_nonce seed_nonce
incr_nonce-Calm sg owner provider s up = elim (Option-cases (s.nonces owner provider)) [
  | inr (n, e) ↦ (ground arith, ground arith)
  | inl e ↦ elim (Option-cases (sg.get_last_nonce owner provider)) [
    | inl f ↦ (ground arith, ground arith)
    | inr (n, f) ↦ (ground arith, ground arith)
  ]
]

seal-Calm : (sg : Signing) (v : SandboxVoucher) (n : ℕ) → Calm (seal sg v n)
unfolding seal
seal-Calm sg v n s up = (ground arith, ground arith)

sign_batch-Calm : (sg : Signing) (vs : List SandboxVoucher) → Calm (sign_batch sg vs)
unfolding sign_batch sign
sign_batch-Calm sg [] s up = (up, refl)
sign_batch-Calm sg (v ∷ vs) s up =
    let add : SandboxVoucher → List SandboxVoucher → Action (List SandboxVoucher) =
      λ w us. pure (w ∷ us) in
    Calm-bind (sign sg v) (λ w. sign_batch sg vs >>= add w)
      (Calm-bind (incr_nonce sg v.user v.provider) (seal sg v)
        (incr_nonce-Calm sg v.user v.provider) (seal-Calm sg v))
      (λ w. Calm-bind (sign_batch sg vs) (add w) (sign_batch-Calm sg vs) (λ us s' up'. (up', refl)))
      s up

put_back_lem :
    (first_item : Raw) (s : Store)
    → s.faults ≡ []
    → (put_back first_item s).1.queue ≡ first_item ∷ s.queue
unfolding put_back push_front
put_back_lem first_item s up = ground arith

after_submit_error_lem :
    (env : Env) (first_item : Raw) (s : Store)
    → s.faults ≡ []
    → (after_submit_error env first_item s).1.queue ≡ first_item ∷ s.queue
unfolding after_submit_error put_back push_front clear_pending_tx notify
after_submit_error_lem env first_item s up = ground arith

-- The batch is signed and the submission of the signed vouchers succeeds.
abbrev pub Submits : Env → List SandboxVoucher → Store → Type 0
Submits env vs s =
    (ws : List SandboxVoucher) × ((sign_batch env.signing vs s).0 ≡ some ws)
    × (is_some (env.submit ws) ≡ true)

-- A batch that is submitted from a store whose Redis answers.
submit_healthy :
    (env : Env) (first_item : Raw) (consumed : ℕ) (vs : List SandboxVoucher) (s : Store)
    → (is_some (env.submit vs) ≡ true)
      ⊎ ((submit_batch env first_item consumed vs (record s { faults = [] })).1.queue
          ≡ first_item ∷ s.queue)
unfolding submit_batch save_pending_tx
submit_healthy env first_item consumed vs s = elim (Option-cases (env.submit vs)) [
  | inr (tx, e) ↦ inl (rw e)
  | inl e ↦
      let saved : Store = record s {
        faults = [];
        pending = some (intent_of first_item consumed vs);
      } in
      inr (rw e (after_submit_error_lem env first_item saved refl))
]

-- While Redis answers, a batch whose first item has been popped is signed and its submission
-- succeeds, or its first item is in front of the queue again: so it is if a signature fails, and if
-- the submission does.
pub unsubmitted_batch_returns :
    (env : Env) (first_item : Raw) (consumed : ℕ) (vs : List SandboxVoucher) (s : Store)
    → s.faults ≡ []
    → Submits env vs s
      ⊎ ((sign_and_submit env first_item consumed vs s).1.queue ≡ first_item ∷ s.queue)
unfolding sign_and_submit
unsubmitted_batch_returns env first_item consumed vs s up =
    go (sign_batch env.signing vs s).0 (sign_batch env.signing vs s).1 refl
      (sign_batch-Calm env.signing vs s up)
  where
    go :
        (signed : Option (List SandboxVoucher)) (s' : Store)
        → (sign_batch env.signing vs s).0 ≡ signed
        → (s'.faults ≡ []) × (s'.queue ≡ s.queue)
        → let submit : Action RoundEnd = elim signed as (λ _. Action RoundEnd) [
          | none ↦ put_back first_item
          | some ws ↦ submit_batch env first_item consumed ws
        ] in
          Submits env vs s ⊎ ((submit s').1.queue ≡ first_item ∷ s.queue)
    go none s' signed (calm, same) =
        inr (put_back_lem first_item s' calm ∙ ap (λ q. first_item ∷ q) same)
    go (some ws) s' signed (calm, same) =
        let healthy : s' ≡ record s' { faults = [] } = ap (λ f. record s' { faults = f }) calm in
        elim (submit_healthy env first_item consumed ws s') [
          | inl accepted ↦ inl (ws, signed, accepted)
          | inr back ↦ inr (rw (healthy, ← same) back)
        ]
