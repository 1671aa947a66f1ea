-- ===== src/Base/Assoc.antt =====
-- Maps as lists of keys and values, over any type of values.
use Prim.Native.Nat.{ℕ}
use mathlib.Core.Path.{◌≡◌, refl, subst, ◌∙◌}
use mathlib.Core.Logic.{inl, inr}
use mathlib.Core.Option.{Option, none, some}
use mathlib.Core.List.{List, [], ◌∷◌}
use native.Mathlib.Omega.{arith}
use g_sandbox.Base.Tests.{◌==◌, ==_iff, if◌then◌else◌, Bool-cases}

module _ {ℓ} {A : Type ℓ} where
  unfoldable pub erase : ℕ → List (ℕ × A) → List (ℕ × A)
  erase key [] = []
  erase key (entry ∷ es) = let kept = erase key es in if entry.0 == key then kept else entry ∷ kept

  unfoldable pub lookup : ℕ → List (ℕ × A) → Option A
  lookup key [] = none
  lookup key (entry ∷ es) =
      let later = lookup key es in if entry.0 == key then some entry.1 else later

  -- A new key goes to the end.
  unfoldable pub insert : ℕ → A → List (ℕ × A) → List (ℕ × A)
  insert key a [] = (key, a) ∷ []
  insert key a (entry ∷ es) =
      let placed = insert key a es in if entry.0 == key then (key, a) ∷ es else entry ∷ placed

  pub lookup-erase :
      (key other : ℕ) (es : List (ℕ × A))
      → lookup other (erase key es) ≡ (if key == other then none else lookup other es)
  unfolding lookup erase
  lookup-erase key other [] = ground arith
  lookup-erase key other (entry ∷ es) = ground (arith, lookup-erase key other es)

  pub lookup-insert :
      (key other : ℕ) (a : A) (es : List (ℕ × A))
      → lookup other (insert key a es) ≡ (if key == other then some a else lookup other es)
  unfolding lookup insert
  lookup-insert key other a [] = refl
  lookup-insert key other a (entry ∷ es) = ground (arith, lookup-insert key other a es)

  -- No key stands twice.
  abbrev pub Distinct : List (ℕ × A) → Type ℓ
  Distinct [] = Unit
  Distinct (entry ∷ es) = (lookup entry.0 es ≡ none) × Distinct es

  pub insert-Distinct :
      (key : ℕ) (a : A) (es : List (ℕ × A)) → Distinct es → Distinct (insert key a es)
  unfolding insert
  insert-Distinct key a [] d = (unfold lookup in refl, tt)
  insert-Distinct key a (entry ∷ es) d = elim (Bool-cases (entry.0 == key)) [
    | inl e ↦ rw e (subst (λ i. lookup i es ≡ none) ((==_iff entry.0 key).0 e) d.0, d.1)
    | inr e ↦
        rw e (lookup-insert key entry.0 a es ∙ ground (arith, d.0), insert-Distinct key a es d.1)
  ]

  pub erase-Distinct : (key : ℕ) (es : List (ℕ × A)) → Distinct es → Distinct (erase key es)
  unfolding erase
  erase-Distinct key [] d = tt
  erase-Distinct key (entry ∷ es) d = elim (Bool-cases (entry.0 == key)) [
    | inl e ↦ rw e (erase-Distinct key es d.1)
    | inr e ↦ rw e (lookup-erase key entry.0 es ∙ ground (arith, d.0), erase-Distinct key es d.1)
  ]
