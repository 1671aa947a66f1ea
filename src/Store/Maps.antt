-- ===== src/Store/Maps.antt =====
-- Maps from addresses, as functions.
use g_sandbox.Base.{ℕ, ◌≡◌, ◌≢◌, arith, ◌==◌, if◌then◌else◌}

module _ {ℓ} {A : Type ℓ} where
  abbrev pub put : ℕ → A → (ℕ → A) → ℕ → A
  put k a m j = if j == k then a else m j

  pub put_self : (k : ℕ) (a : A) (m : ℕ → A) → put k a m k ≡ a
  put_self k a m = ground arith

  pub put_ne : (k : ℕ) (a : A) (m : ℕ → A) (j : ℕ) → j ≢ k → put k a m j ≡ m j
  put_ne k a m j h = ground arith

-- A map from (user, provider).
abbrev pub put₂ {ℓ} : {A : Type ℓ} → ℕ → ℕ → A → (ℕ → ℕ → A) → ℕ → ℕ → A
put₂ k l a m = put k (put l a (m k)) m
