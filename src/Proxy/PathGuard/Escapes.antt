-- ===== src/Proxy/PathGuard/Escapes.antt =====
-- Which parts occur in a text, for the guard's tests on the escaped path.
use g_sandbox.Base.{
  ◌≡◌, refl, sym, ap, subst, inl, inr, true, false, List, [], ◌∷◌, ◌++◌, Bool-cases, arith,
}
use g_sandbox.Proxy.PathGuard.{Bytes, starts, has_part, has_any}

-- A part stands somewhere in the text.
abbrev pub Occurs : Bytes → Bytes → Type 0
Occurs part s = (before : Bytes) × (after : Bytes) × (s ≡ before ++ (part ++ after))

starts-split : (part s : Bytes) → starts part s ≡ true → (after : Bytes) × (s ≡ part ++ after)
unfolding starts
starts-split [] s h = (s, refl)
starts-split (a ∷ part) [] h = absurd (ground arith)
starts-split (a ∷ part) (b ∷ s) h =
    let (after, e) = starts-split part s (ground arith) in (after, ground arith)

starts-append : (part after : Bytes) → starts part (part ++ after) ≡ true
unfolding starts
starts-append [] after = refl
starts-append (a ∷ part) after = ground (arith, starts-append part after)

has_part-Occurs : (part s : Bytes) → has_part part s ≡ true → Occurs part s
unfolding has_part
has_part-Occurs part [] h = let (after, e) = starts-split part [] h in ([], after, e)
has_part-Occurs part (c ∷ s) h = elim (Bool-cases (starts part (c ∷ s))) [
  | inl e ↦ let (after, q) = starts-split part (c ∷ s) e in ([], after, q)
  | inr e ↦
      let (before, after, q) = has_part-Occurs part s (ground arith) in
      (c ∷ before, after, ap (λ r. c ∷ r) q)
]

Occurs-has_part : (part before after : Bytes) → has_part part (before ++ (part ++ after)) ≡ true
unfolding has_part
Occurs-has_part [] [] [] = unfold starts in refl
Occurs-has_part [] [] (d ∷ after) = unfold starts in refl
Occurs-has_part (a ∷ part) [] after = ground (arith, starts-append (a ∷ part) after)
Occurs-has_part part (c ∷ before) after = ground (arith, Occurs-has_part part before after)

-- None of the parts occurs in the text.
abbrev pub Absent : List Bytes → Bytes → Type 0
Absent [] s = Unit
Absent (part ∷ parts) s = (Occurs part s → ⊥) × Absent parts s

pub has_any-Absent : (parts : List Bytes) (s : Bytes) → has_any parts s ≡ false → Absent parts s
unfolding has_any
has_any-Absent [] s h = tt
has_any-Absent (part ∷ parts) s h = (
  λ (before, after, e).
      ground
        (arith, subst (λ x. has_part part x ≡ true) (sym e) (Occurs-has_part part before after)),
  has_any-Absent parts s (ground arith),
)

pub Absent-has_any : (parts : List Bytes) (s : Bytes) → Absent parts s → has_any parts s ≡ false
unfolding has_any
Absent-has_any [] s h = refl
Absent-has_any (part ∷ parts) s h = elim (Bool-cases (has_part part s)) [
  | inl e ↦ absurd (h.0 (has_part-Occurs part s e))
  | inr e ↦ rw e (Absent-has_any parts s h.1)
]
