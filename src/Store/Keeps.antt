-- ===== src/Store/Keeps.antt =====
-- Parts of the state that an action leaves as they are, whichever commands fail.
use g_sandbox.Base.{◌≡◌, refl, ◌∙◌, Option, none, some}
use g_sandbox.Store.State.{Store, Action, ◌>>=◌, pure, try}

-- `f` of the state is the same after `m` as before.
abbrev pub Keeps : {A B : Type 0} → (Store → B) → Action A → Type 0
Keeps f m = (s : Store) → f (m s).1 ≡ f s

module _ {B : Type 0} (f : Store → B) where
  -- A continuation that keeps it leaves what the action before it has made of it.
  pub Keeps-after :
      {A C : Type 0} (m : Action A) (k : A → Action C) (s : Store)
      → ((a : A) → Keeps f (k a))
      → f ((m >>= k) s).1 ≡ f (m s).1
  Keeps-after {A} {C} m k s kk = go (m s).0 (m s).1
    where
      go :
          (r : Option A) (s' : Store)
          → f (elim r as (λ _. Option C × Store) [ none ↦ (none, s') | some a ↦ k a s' ]).1 ≡ f s'
      go none s' = refl
      go (some a) s' = kk a s'

  pub Keeps-bind :
      {A C : Type 0} (m : Action A) (k : A → Action C)
      → Keeps f m
      → ((a : A) → Keeps f (k a))
      → Keeps f (m >>= k)
  Keeps-bind m k km kk s = Keeps-after m k s kk ∙ km s

  pub Keeps-try : {A : Type 0} (m : Action A) → Keeps f m → Keeps f (try m)
  Keeps-try m km = km

  pub Keeps-pure : {A : Type 0} (a : A) → Keeps f (pure a)
  Keeps-pure a s = refl
