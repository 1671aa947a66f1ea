-- ===== src/Proxy/Create/Outcome.antt =====
-- What a create forwards and leaves reserved.
use g_sandbox.Base.{
  ℕ, ◌+◌, ◌-◌, ◌≤◌, ◌<◌, ◌^◌, ◌≡◌, refl, sym, subst, ◌⊎◌, inl, inr, Bool, true, false, ◌||◌, not,
  Option, none, some, [], arith, ==_refl, is_some, if◌then◌else◌, Bool-cases, Option-cases,
}
use g_sandbox.Voucher.{Address}
use g_sandbox.Store.{Store, ◌>>=◌}
use g_sandbox.Billing.Reserved.{release_script, release, reserved_of}
use g_sandbox.Proxy.Json.{Fields, Body}
use g_sandbox.Proxy.CreatePolicy.{Refusal, require_snapshot_create}
use g_sandbox.Proxy.Gate.{
  Tariff, Admission, admitted, balance_error, insufficient, release_if, admit,
}
use g_sandbox.Proxy.Gate.Admits.{debt_of, IsRead, Gated, admit-Gated}
use g_sandbox.Proxy.Create.Prepare.{Gateway, Prepared, ready, rejected, prepare}
use g_sandbox.Proxy.Create.{
  Upstream, CreateRequest, Reply, billed_spec, check_ack, create_required, opened_id, dropped_ports,
  answer, forward, pass, gate, create_acked, create_priced, create_allowed, create_body,
  handle_create,
}

-- Whether the reservation of an admitted create is left when the reply is sent: behind an opened
-- sandbox, for its hook to release; and behind the refusals that do not release it.
unfoldable pub leaves : (Fields → Upstream) → Prepared → Bool
leaves upstream (rejected status releases) = not releases
leaves upstream (ready with_ports m) =
    dropped_ports with_ports (upstream m) || is_some (opened_id (upstream m))

abbrev pub forwarded_of : Prepared → Option Fields
forwarded_of (rejected _ _) = none
forwarded_of (ready _ m) = some m

-- How a create ends: turned away before Daytona with the reservations as they were, or admitted, with
-- policy, acknowledgement and balance in order.
abbrev pub Ends :
    Gateway → CreateRequest → Body → Address → ℕ → Store → Option Reply × Store → Type 0
Ends g r b provider required s (none, s') = ⊥
Ends g r b provider required s (some reply, s') =
    ((reply.forwarded ≡ none)
      × (reply.opens ≡ none)
      × (reserved_of s' r.user provider ≡ reserved_of s r.user provider))
    ⊎ ((require_snapshot_create g.fold b ≡ none)
        × (check_ack r.is_acknowledged ≡ none)
        × ((balance : ℕ) × IsRead r.funds balance
            × (debt_of s r.user provider + reserved_of s r.user provider + required ≤ balance))
        × (reply.forwarded ≡ forwarded_of (prepare g r.sealing b))
        × (reserved_of s' r.user provider
            ≡ reserved_of s r.user provider
              + (if leaves r.upstream (prepare g r.sealing b) then required else 0)))

pub release_script-calm :
    (user provider : Address) (amount : ℕ) (s : Store)
    → amount < 2 ^ 63
    → s.faults ≡ []
    → reserved_of (release_script user provider amount s).1 user provider
      ≡ reserved_of s user provider - amount
unfolding release_script
release_script-calm user provider amount s small calm =
    ground (arith, ==_refl user, ==_refl provider)

module _ (g : Gateway) (r : CreateRequest) (provider : Address) (required : ℕ) (spec : ℕ × ℕ)
    (small : required < 2 ^ 63) where
  -- What an admitted create leaves.
  abbrev Left : Prepared → Store → Option Reply × Store → Type 0
  Left p s (none, t) = ⊥
  Left p s (some reply, t) =
      (reply.forwarded ≡ forwarded_of p)
      × (reserved_of t r.user provider + (if leaves r.upstream p then 0 else required)
          ≡ reserved_of s r.user provider)

  answer-Left :
      (with_ports : Bool) (m : Fields) (s : Store)
      → s.faults ≡ []
      → required ≤ reserved_of s r.user provider
      → Left
          (ready with_ports m)
          s
          (answer r.user provider required true spec with_ports m (r.upstream m) s)
  unfolding answer leaves release_if release
  answer-Left with_ports m s calm enough =
      elim (Bool-cases (dropped_ports with_ports (r.upstream m))) [
        | inl dropped ↦ simp dropped (refl, omega arith)
        | inr keeps ↦ elim (Option-cases (opened_id (r.upstream m))) [
          | inl unopened ↦
              simp (keeps, unopened)
                (refl, omega (arith, release_script-calm r.user provider required s small calm))
          | inr (id, e) ↦ simp (keeps, e) (refl, omega arith)
        ]
      ]

  forward-Left :
      (p : Prepared) (s : Store)
      → s.faults ≡ []
      → required ≤ reserved_of s r.user provider
      → Left p s (forward r provider required spec true p s)
  unfolding forward leaves release_if release
  forward-Left (rejected status false) s calm enough = (refl, omega arith)
  forward-Left (rejected status true) s calm enough =
      (refl, omega (arith, release_script-calm r.user provider required s small calm))
  forward-Left (ready with_ports m) s calm enough = answer-Left with_ports m s calm enough

module _ (g : Gateway) (r : CreateRequest) (b : Body) (provider : Address) (s : Store)
    (spec : ℕ × ℕ) (required : ℕ) (small : reserved_of s r.user provider + required < 2 ^ 63)
    (passes : require_snapshot_create g.fold b ≡ none)
    (acked : check_ack r.is_acknowledged ≡ none) where
  abbrev p : Prepared
  p = prepare g r.sealing b

  -- What is left against what was reserved before.
  Left-Ends :
      (t : Store) (x : Option Reply × Store)
      → reserved_of t r.user provider ≡ reserved_of s r.user provider + required
      → ((balance : ℕ) × IsRead r.funds balance
          × (debt_of s r.user provider + reserved_of t r.user provider ≤ balance))
      → Left g r provider required spec (omega (arith, small)) p t x
      → Ends g r b provider required s x
  Left-Ends t (none, u) now (balance, read, covered) left = left
  Left-Ends t (some reply, u) now (balance, read, covered) (sent, same) =
      inr (passes, acked, (balance, read, omega (arith, now, covered)), sent, ground arith)

  pass-Ends :
      (x : Option Admission × Store)
      → Gated r.user provider required r.funds s x
      → Ends g r b provider required s (elim x.0 as (λ _. Option Reply × Store) [
        | none ↦ (none, x.1)
        | some a ↦ pass r provider required spec p a x.1
      ])
  unfolding pass
  pass-Ends (none, t) gated = gated
  pass-Ends (some balance_error, t) gated = inl (refl, refl, gated)
  pass-Ends (some (insufficient _ _ _ _), t) gated = inl (refl, refl, gated)
  pass-Ends (some (admitted holds), t) (held, calm, now, (balance, read, covered)) = rw held (
      Left-Ends t (forward r provider required spec true p t) now (balance, read, covered)
        (forward-Left g r provider required spec (omega (arith, small)) p t calm
          (omega (arith, now))))

create_acked-Ends :
    (g : Gateway) (h : Tariff) (r : CreateRequest) (b : Body) (spec : ℕ × ℕ) (s : Store)
    → r.has_bal_check ≡ true
    → reserved_of s r.user h.provider_address + create_required h spec < 2 ^ 63
    → require_snapshot_create g.fold b ≡ none
    → (e : Option ℕ) → check_ack r.is_acknowledged ≡ e
    → Ends g r b h.provider_address
        (create_required h spec)
        s
        (create_acked g h r b spec e (record s { faults = [] }))
unfolding create_acked gate
create_acked-Ends g h r b spec s checks small passes (some status) acked = inl (refl, refl, refl)
create_acked-Ends g h r b spec s checks small passes none acked =
    let required = create_required h spec in
    let go = pass r h.provider_address required spec (prepare g r.sealing b) in
    subst
      (λ c.
        Ends g r b h.provider_address required s
          ((gate c r h.provider_address required >>= go) (record s { faults = [] })))
      (sym checks)
      (pass-Ends g r b h.provider_address s spec required small passes acked
        (admit r.user h.provider_address required r.funds (record s { faults = [] }))
        (admit-Gated r.user h.provider_address required r.funds s small))

create_allowed-Ends :
    (g : Gateway) (h : Tariff) (r : CreateRequest) (b : Body) (spec : ℕ × ℕ) (s : Store)
    → r.has_bal_check ≡ true
    → billed_spec r.has_bal_check r.get_snapshot ≡ inl spec
    → reserved_of s r.user h.provider_address + create_required h spec < 2 ^ 63
    → (e : Option Refusal) → require_snapshot_create g.fold b ≡ e
    → Ends g r b h.provider_address
        (create_required h spec)
        s
        (create_allowed g h r b e (record s { faults = [] }))
unfolding create_allowed create_priced
create_allowed-Ends g h r b spec s checks known small (some e) passes = inl (refl, refl, refl)
create_allowed-Ends g h r b spec s checks known small none passes =
    subst
      (λ e.
        Ends g r b h.provider_address (create_required h spec) s
          (create_priced g h r b e (record s { faults = [] })))
      (sym known)
      (create_acked-Ends g h r b spec s checks small passes (check_ack r.is_acknowledged) refl)

-- A create with a balance check, while Redis answers and if the totals are int64, whose body is read
-- and whose spec is known: either nothing is forwarded or to be opened and the reservations are as
-- before; or it passed the policy and the acknowledgement, the balance that was read, or read again
-- after a top-up, covers the debt, the reservations and what it requires, the prepared body was
-- forwarded if there is one, and what it requires stays reserved exactly where `leaves` says.
pub handle_create-Ends :
    (g : Gateway) (h : Tariff) (r : CreateRequest) (b : Body) (spec : ℕ × ℕ) (s : Store)
    → r.body ≡ some b
    → r.has_bal_check ≡ true
    → billed_spec r.has_bal_check r.get_snapshot ≡ inl spec
    → reserved_of s r.user h.provider_address + create_required h spec < 2 ^ 63
    → Ends g r b h.provider_address
        (create_required h spec)
        s
        (handle_create g h r (record s { faults = [] }))
unfolding handle_create create_body
handle_create-Ends g h r b spec s read checks known small =
    subst
      (λ x.
        Ends g r b h.provider_address (create_required h spec) s
          (create_body g h r x (record s { faults = [] })))
      (sym read)
      (create_allowed-Ends g h r b spec s checks known small (require_snapshot_create g.fold b)
        refl)
