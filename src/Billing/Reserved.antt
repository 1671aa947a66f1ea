-- ===== src/Billing/Reserved.antt =====
-- internal/billing/reserved.go: what is reserved for creates in flight, of each (user, provider).
-- The expiry of a reservation is left out.
use g_sandbox.Base.{
  ℕ, ◌+◌, ◌-◌, ◌^◌, ◌<◌, ◌≡◌, ◌&&◌, Option, none, some, ◌⊎◌, arith, ltb, leb, ◌==◌, or_zero,
  if◌then◌else◌,
}
use g_sandbox.Voucher.{Address}
use g_sandbox.Store.{Store, Action, ◌>>=◌, ◌>>◌, pure, fail, gets, modify, command, try, put₂}

abbrev write_reserved : Address → Address → Option ℕ → Action (Unit {0})
write_reserved user provider r =
    modify (λ s. record s { reserved = put₂ user provider r s.reserved })

-- `Reserve`: INCRBY, an error where the sum is no int64; it returns the new total.
unfoldable pub reserve : Address → Address → ℕ → Action ℕ
reserve user provider amount = do
  command
  now ← gets (λ s. or_zero (s.reserved user provider))
  let total = now + amount
  if ltb total (2 ^ 63) then (do write_reserved user provider (some total); pure total) else fail

-- The script of `Release`: DECRBY, and DEL if nothing is left.
unfoldable pub release_script : Address → Address → ℕ → Action (Unit {0})
release_script user provider amount = do
  command
  now ← gets (λ s. or_zero (s.reserved user provider))
  if ltb amount (2 ^ 63)
      then write_reserved user provider (if leb now amount then none else some (now - amount))
      else fail

-- `Release`
unfoldable pub release : Address → Address → ℕ → Action (Option (Unit {0}))
unfolding release_script
release user provider amount = try (release_script user provider amount)

-- `GetReserved`: zero on an error.
unfoldable pub get_reserved : Address → Address → Action ℕ
get_reserved user provider = do
  found ← try (command >> gets (λ s. or_zero (s.reserved user provider)))
  pure (or_zero found)

-- What is reserved, as the store has it.
abbrev pub reserved_of : Store → Address → Address → ℕ
reserved_of s user provider = or_zero (s.reserved user provider)

-- A successful reservation returns the old total and the amount, and after it that is what is
-- reserved for the pair, while every other pair's reservation is as it was.
pub reserve_total :
    (user provider : Address) (amount : ℕ) (s : Store) (u p : Address) {total : ℕ}
    → (reserve user provider amount s).0 ≡ some total
    → (total ≡ reserved_of s user provider + amount)
      × (reserved_of (reserve user provider amount s).1 u p
          ≡ (if u == user && p == provider then total else reserved_of s u p))
unfolding reserve
reserve_total user provider amount s u p h = (ground arith, ground arith)

-- A release of an int64 amount, if the script runs, leaves the old total less the amount, or nothing
-- if the amount is larger; and if it does not run, it leaves the total as it was.
release_clamps :
    (user provider : Address) (amount : ℕ) (s : Store)
    → amount < 2 ^ 63
    → let (r, s') = release user provider amount s in
      ((r ≡ some (some tt)) × (reserved_of s' user provider ≡ reserved_of s user provider - amount))
      ⊎ ((r ≡ some none) × (reserved_of s' user provider ≡ reserved_of s user provider))
unfolding release
release_clamps user provider amount s h = ground arith

-- Releasing what was reserved gives the pair back its total from before, if both scripts run and the
-- amount is an int64.
pub release-reserve :
    (user provider : Address) (amount : ℕ) (s : Store) {total : ℕ}
    → amount < 2 ^ 63
    → (reserve user provider amount s).0 ≡ some total
    → (release user provider amount (reserve user provider amount s).1).0 ≡ some (some tt)
    → reserved_of (release user provider amount (reserve user provider amount s).1).1 user provider
      ≡ reserved_of s user provider
unfolding reserve release
release-reserve user provider amount s small ok ok' = ground arith
