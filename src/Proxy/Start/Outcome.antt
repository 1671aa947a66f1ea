-- ===== src/Proxy/Start/Outcome.antt =====
-- What a start leaves reserved.
use g_sandbox.Base.{
  ℕ, ◌+◌, ◌≤◌, ◌<◌, ◌^◌, ◌≡◌, refl, sym, subst, ◌⊎◌, inl, inr, true, false, not, Option, none, some,
  [], arith, ◌&&◌, if◌then◌else◌, Bool-cases,
}
use g_sandbox.Voucher.{Address}
use g_sandbox.Store.{Store, ◌>>=◌, find_session}
use g_sandbox.Billing.Session.{get_session}
use g_sandbox.Billing.Reserved.{release, reserved_of}
use g_sandbox.Proxy.Gate.{
  Tariff, Admission, admitted, balance_error, insufficient, release_if, admit,
}
use g_sandbox.Proxy.Gate.Admits.{debt_of, IsRead, Gated, admit-Gated}
use g_sandbox.Proxy.Create.{check_ack, is_success}
use g_sandbox.Proxy.Create.Outcome.{release_script-calm}
use g_sandbox.Proxy.Start.{
  StartRequest, StartReply, is_open, start_required, serve_start, pass_start, gate_start,
  start_acked, handle_start,
}

-- How a gated start ends: turned away before Daytona with the reservations as they were, or admitted,
-- acknowledged and covered; a reservation is left if Daytona started the sandbox.
abbrev pub Ends : StartRequest → Address → ℕ → Store → Option StartReply × Store → Type 0
Ends r provider required s (none, s') = ⊥
Ends r provider required s (some reply, s') =
    ((reply.is_forwarded ≡ false)
      × (reply.starts ≡ false)
      × (reserved_of s' r.user provider ≡ reserved_of s r.user provider))
    ⊎ ((check_ack r.is_acknowledged ≡ none)
        × ((balance : ℕ) × IsRead r.funds balance
            × (debt_of s r.user provider + reserved_of s r.user provider + required ≤ balance))
        × (reply.is_forwarded ≡ true)
        × (reply.starts ≡ is_success r.upstream_status)
        × (reserved_of s' r.user provider
            ≡ reserved_of s r.user provider
              + (if is_success r.upstream_status then required else 0)))

module _ (r : StartRequest) (provider : Address) (required : ℕ) (s : Store)
    (small : reserved_of s r.user provider + required < 2 ^ 63)
    (acked : check_ack r.is_acknowledged ≡ none) where
  serve-Ends :
      (t : Store)
      → t.faults ≡ []
      → reserved_of t r.user provider ≡ reserved_of s r.user provider + required
      → ((balance : ℕ) × IsRead r.funds balance
          × (debt_of s r.user provider + reserved_of s r.user provider + required ≤ balance))
      → Ends r provider required s (serve_start r provider required true t)
  unfolding serve_start release_if release
  serve-Ends t calm now covered =
      let fits : required < 2 ^ 63 = omega (arith, small) in
      elim (Bool-cases (is_success r.upstream_status)) [
        | inl started ↦ simp started (inr (acked, covered, refl, refl, now))
        | inr failed ↦ simp failed (
            inr (
              acked,
              covered,
              refl,
              refl,
              omega (arith, now, release_script-calm r.user provider required t fits calm),
            ))
      ]

  pass-Ends :
      (x : Option Admission × Store)
      → Gated r.user provider required r.funds s x
      → Ends r provider required s (elim x.0 as (λ _. Option StartReply × Store) [
        | none ↦ (none, x.1)
        | some a ↦ pass_start r provider required a x.1
      ])
  unfolding pass_start
  pass-Ends (none, t) gated = gated
  pass-Ends (some balance_error, t) gated = inl (refl, refl, gated)
  pass-Ends (some (insufficient _ _ _ _), t) gated = inl (refl, refl, gated)
  pass-Ends (some (admitted holds), t) (held, calm, now, (balance, read, covered)) =
      rw held (serve-Ends t calm now (balance, read, omega (arith, now, covered)))

start_acked-Ends :
    (h : Tariff) (r : StartRequest) (s : Store)
    → r.has_bal_check ≡ true
    → find_session r.id s.sessions ≡ none
    → reserved_of s r.user h.provider_address + start_required h r < 2 ^ 63
    → (e : Option ℕ) → check_ack r.is_acknowledged ≡ e
    → Ends r h.provider_address
        (start_required h r)
        s
        (start_acked h r e (record s { faults = [] }))
unfolding start_acked get_session gate_start
start_acked-Ends h r s checks absent small (some status) acked = inl (refl, refl, refl)
start_acked-Ends h r s checks absent small none acked =
    let required = start_required h r in
    let gated : r.has_bal_check && not (is_open (some (find_session r.id s.sessions))) ≡ true =
      simp (checks, absent) in
    subst
      (λ c. Ends r h.provider_address required s (
        (gate_start c h r >>= pass_start r h.provider_address required) (record s { faults = [] })))
      (sym gated)
      (pass-Ends r h.provider_address required s small acked
        (admit r.user h.provider_address required r.funds (record s { faults = [] }))
        (admit-Gated r.user h.provider_address required r.funds s small))

-- A start with a balance check of a sandbox without a session, while Redis answers and if the totals
-- are int64: either nothing is forwarded or to be started and the reservations are as before; or it is
-- acknowledged, the balance that was read, or read again after a top-up, covers the debt, the
-- reservations and what it requires, it was forwarded, and what it requires stays reserved if and only
-- if Daytona answered with success, as the hook runs.
pub handle_start-Ends :
    (h : Tariff) (r : StartRequest) (s : Store)
    → r.has_bal_check ≡ true
    → find_session r.id s.sessions ≡ none
    → reserved_of s r.user h.provider_address + start_required h r < 2 ^ 63
    → Ends r h.provider_address (start_required h r) s (handle_start h r (record s { faults = [] }))
unfolding handle_start
handle_start-Ends h r s checks absent small =
    start_acked-Ends h r s checks absent small (check_ack r.is_acknowledged) refl
