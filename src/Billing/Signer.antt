-- ===== src/Billing/Signer.antt =====
-- internal/billing/signer.go: the queue, the nonces and the signatures.
use g_sandbox.Base.{ℕ, suc, ◌+◌, ◌≡◌, refl, ap, ◌∙◌, Option, none, some, arith}
use g_sandbox.Voucher.{Address, SandboxVoucher, json}
use g_sandbox.Store.{
  Store, Action, ◌>>=◌, ◌>>◌, pure, fail, gets, modify, command, command_cases, asked, push_queue,
  put₂,
}

-- What the signer calls: the contract's last nonce of a pair, `none` if the chain does not answer;
-- and the signature of a voucher under EIP-712, `none` if signing fails.
pub record Signing : Type 0 where
  pub get_last_nonce : Address → Address → Option ℕ
  pub signature_of : SandboxVoucher → Option ℕ

-- `Enqueue`
unfoldable pub enqueue : SandboxVoucher → Action (Unit {0})
enqueue v = push_queue (json v)

-- SET or INCR of the counter to `n`, which is returned.
abbrev set_nonce : Address → Address → ℕ → Action ℕ
set_nonce owner provider n = do
  modify (λ s. record s { nonces = put₂ owner provider (some n) s.nonces })
  pure n

-- The slow path of `IncrNonce`, from what the contract says: the script sets the counter to the
-- contract's nonce and increments it.
unfoldable pub seed_nonce : Address → Address → Option ℕ → Action ℕ
seed_nonce owner provider none = fail
seed_nonce owner provider (some chain_nonce) = command >> set_nonce owner provider (chain_nonce + 1)

-- `IncrNonce` once it is known whether there is a counter.
unfoldable pub next_nonce : Signing → Address → Address → Option ℕ → Action ℕ
next_nonce sg owner provider (some n) = command >> set_nonce owner provider (n + 1)
next_nonce sg owner provider none = seed_nonce owner provider (sg.get_last_nonce owner provider)

-- `IncrNonce`; that the counter passes int64 is left out.
unfoldable pub incr_nonce : Signing → Address → Address → Action ℕ
incr_nonce sg owner provider = do
  command
  counter ← gets (λ s. s.nonces owner provider)
  next_nonce sg owner provider counter

-- `Sign` once the nonce is known.
unfoldable pub seal : Signing → SandboxVoucher → ℕ → Action SandboxVoucher
seal sg v n =
    let w = record v { nonce = some n } in
    elim (sg.signature_of w) [ none ↦ fail | some sig ↦ pure (record w { signature = some sig }) ]

-- `Sign`
unfoldable pub sign : Signing → SandboxVoucher → Action SandboxVoucher
sign sg v = do n ← incr_nonce sg v.user v.provider; seal sg v n

abbrev or_else : Option ℕ → Option ℕ → Option ℕ
or_else none other = other
or_else (some n) other = some n

-- The nonce that the next one follows: the counter, or the contract's where there is none.
abbrev pub last_nonce : Signing → Store → Address → Address → Option ℕ
last_nonce sg s owner provider =
    or_else (s.nonces owner provider) (sg.get_last_nonce owner provider)

-- What a call of `IncrNonce` has done: an error changes no counter; a nonce follows the last one, is
-- the new counter, and leaves the other counters alone.
abbrev pub Incremented : Signing → Address → Address → Store → Option ℕ × Store → Type 0
Incremented sg owner provider s (none, s') = s' ≡ record s { faults = s'.faults }
Incremented sg owner provider s (some n, s') =
    (last : ℕ) × (last_nonce sg s owner provider ≡ some last)
    × (n ≡ suc last)
    × (s' ≡ record s { faults = s'.faults; nonces = put₂ owner provider (some n) s.nonces })

seed_nonce-Incremented :
    (sg : Signing) (owner provider : Address) (s : Store) (chain : Option ℕ)
    → s.nonces owner provider ≡ none
    → sg.get_last_nonce owner provider ≡ chain
    → Incremented sg owner provider s (seed_nonce owner provider chain (asked s))
unfolding seed_nonce
seed_nonce-Incremented sg owner provider s none e f = refl
seed_nonce-Incremented sg owner provider s (some last) e f =
    command_cases (Incremented sg owner provider s) (set_nonce owner provider (last + 1)) (asked s)
      refl (last, ap (λ o. or_else o (sg.get_last_nonce owner provider)) e ∙ f, omega arith, refl)

next_nonce-Incremented :
    (sg : Signing) (owner provider : Address) (s : Store) (counter : Option ℕ)
    → s.nonces owner provider ≡ counter
    → Incremented sg owner provider s (next_nonce sg owner provider counter (asked s))
unfolding next_nonce
next_nonce-Incremented sg owner provider s (some n) e =
    command_cases (Incremented sg owner provider s) (set_nonce owner provider (n + 1)) (asked s)
      refl (n, ap (λ o. or_else o (sg.get_last_nonce owner provider)) e, omega arith, refl)
next_nonce-Incremented sg owner provider s none e =
    seed_nonce-Incremented sg owner provider s (sg.get_last_nonce owner provider) e refl

pub incr_nonce-Incremented :
    (sg : Signing) (owner provider : Address) (s : Store)
    → Incremented sg owner provider s (incr_nonce sg owner provider s)
unfolding incr_nonce
incr_nonce-Incremented sg owner provider s =
    command_cases (Incremented sg owner provider s)
      (gets (λ x. x.nonces owner provider) >>= next_nonce sg owner provider) s refl
      (next_nonce-Incremented sg owner provider s (s.nonces owner provider) refl)
