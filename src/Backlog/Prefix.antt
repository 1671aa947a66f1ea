-- ===== src/Backlog/Prefix.antt =====
-- The covered part of a backlog is its longest prefix, oldest first, that the balance pays for.
use g_sandbox.Base.{
  ℕ, ◌+◌, ◌<◌, ◌≤◌, ◌≡◌, refl, ap, ◌∙◌, ◌⊎◌, inl, inr, true, false, not, ◌&&◌, List, [], ◌∷◌, ◌++◌,
  append-nil, append_assoc, arith, leb, length, length-append, Bool-cases,
}
use g_sandbox.Voucher.{Address, SandboxVoucher, Raw, json, malformed, fee_of}
use g_sandbox.Store.{Store}
use g_sandbox.Backlog.Defs.{
  sum_raws, own_entries, Split, empty_split, cover, hold, split_step, split_loop, split_of,
}

-- The entries that parse.
abbrev pub parsed : List Raw → List Raw
parsed [] = []
parsed (json v ∷ rs) = json v ∷ parsed rs
parsed (malformed _ ∷ rs) = parsed rs

pub sum_raws-append : (xs ys : List Raw) → sum_raws (xs ++ ys) ≡ sum_raws xs + sum_raws ys
sum_raws-append [] ys = omega arith
sum_raws-append (json v ∷ xs) ys = omega (arith, sum_raws-append xs ys)
sum_raws-append (malformed _ ∷ xs) ys = sum_raws-append xs ys

-- The first entry that is held costs more than is left of the balance.
abbrev pub Overflows : ℕ → ℕ → List Raw → Type 0
Overflows balance covered [] = ⊥
Overflows balance covered (raw ∷ _) = balance < covered + sum_raws (raw ∷ [])

-- What a split of `mine` has to be, where `pre` is what it covers.
abbrev IsSplit : ℕ → List Raw → List Raw → Split → Type 0
IsSplit balance mine pre st =
    (parsed mine ≡ pre ++ st.held_raws)
    × (st.covered_count ≡ length pre)
    × (st.covered_sum ≡ sum_raws pre)
    × (st.covered_sum ≤ balance)
    × (st.held_sum ≡ sum_raws st.held_raws)

-- Where the loop stands: nothing is held yet, or the first held entry has overflowed the balance.
abbrev Phase : ℕ → Split → Type 0
Phase balance st =
    ((st.holding ≡ false) × (st.held_raws ≡ []))
    ⊎ ((st.holding ≡ true) × Overflows balance st.covered_sum st.held_raws)

abbrev Inv : ℕ → List Raw → Split → Type 0
Inv balance seen st = ((pre : List Raw) × IsSplit balance seen pre st) × Phase balance st

parsed-append : (xs ys : List Raw) → parsed (xs ++ ys) ≡ parsed xs ++ parsed ys
parsed-append [] ys = refl
parsed-append (json v ∷ xs) ys = ap (λ rs. json v ∷ rs) (parsed-append xs ys)
parsed-append (malformed _ ∷ xs) ys = parsed-append xs ys

Overflows-append :
    (balance covered : ℕ) (xs ys : List Raw)
    → Overflows balance covered xs
    → Overflows balance covered (xs ++ ys)
Overflows-append balance covered [] ys h = absurd h
Overflows-append balance covered (x ∷ xs) ys h = h

cover-Inv :
    (balance : ℕ) (seen : List Raw) (v : SandboxVoucher) (st : Split)
    → st.holding ≡ false
    → st.covered_sum + fee_of v ≤ balance
    → Inv balance seen st
    → Inv balance (seen ++ json v ∷ []) (cover v st)
unfolding cover
cover-Inv balance seen v st free fits ((pre, (e, n, sum, le, hs)), inr (busy, _)) = cc
cover-Inv balance seen v st free fits ((pre, (e, n, sum, le, hs)), inl (_, nothing)) =
    let all : parsed seen ≡ pre = e ∙ ap (λ rs. pre ++ rs) nothing ∙ append-nil pre in
    (
      (
        pre ++ json v ∷ [],
        (
          rw (nothing, append-nil, parsed-append, all),
          omega (arith, n, length-append {0} pre (json v ∷ [])),
          omega (arith, sum, sum_raws-append pre (json v ∷ [])),
          fits,
          hs,
        ),
      ),
      inl (free, nothing),
    )

hold-Inv :
    (balance : ℕ) (seen : List Raw) (v : SandboxVoucher) (st : Split)
    → (st.holding ≡ false → balance < st.covered_sum + fee_of v)
    → Inv balance seen st
    → Inv balance (seen ++ json v ∷ []) (hold v st)
unfolding hold
hold-Inv balance seen v st over ((pre, (e, n, sum, le, hs)), phase) = (
  (
    pre,
    (
      parsed-append seen (json v ∷ [])
          ∙ ap (λ rs. rs ++ json v ∷ []) e
          ∙ append_assoc pre st.held_raws (json v ∷ []),
      n,
      sum,
      le,
      omega (arith, hs, sum_raws-append st.held_raws (json v ∷ [])),
    ),
  ),
  inr (
    refl,
    elim phase [
      | inl (free, nothing) ↦ rw nothing (omega (arith, over free))
      | inr (busy, o) ↦ Overflows-append balance st.covered_sum st.held_raws (json v ∷ []) o
    ],
  ),
)

split_step-Inv :
    (balance : ℕ) (seen : List Raw) (raw : Raw) (st : Split)
    → Inv balance seen st
    → Inv balance (seen ++ raw ∷ []) (split_step balance raw st)
unfolding split_step
split_step-Inv balance seen (malformed t) st ((pre, (e, n, sum, le, hs)), phase) = (
  (pre, (parsed-append seen (malformed t ∷ []) ∙ append-nil (parsed seen) ∙ e, n, sum, le, hs)),
  phase,
)
split_step-Inv balance seen (json v) st h =
    elim (Bool-cases (not st.holding && leb (st.covered_sum + fee_of v) balance)) [
      | inl fits ↦ rw fits (cover-Inv balance seen v st (ground arith) (ground arith) h)
      | inr over ↦ rw over (hold-Inv balance seen v st (λ free. ground arith) h)
    ]

split_loop-Inv :
    (balance : ℕ) (seen mine : List Raw) (st : Split)
    → Inv balance seen st
    → Inv balance (seen ++ mine) (split_loop balance mine st)
unfolding split_loop
split_loop-Inv balance seen [] st h = rw append-nil h
split_loop-Inv balance seen (raw ∷ mine) st h = rw (← append_assoc seen (raw ∷ []) mine) (
    split_loop-Inv balance (seen ++ raw ∷ []) mine (split_step balance raw st)
      (split_step-Inv balance seen raw st h))

-- The backlog of a pair, oldest first: what is held, then what it has in the queue.
abbrev pub backlog : Address → Address → Store → List Raw
backlog user provider s = parsed (s.held user provider ++ own_entries user provider s.queue)

-- A split cuts the pair's backlog (held first, then queued, entries that do not parse left out)
-- into a covered part and the held rest. The covered part's fees are summed and counted, and are
-- at most the balance; and either nothing is held or the first held entry would exceed it, so no
-- longer prefix is affordable. The held sum is the sum of the held fees.
pub split_is_longest_prefix :
    (user provider : Address) (balance : ℕ) (s : Store)
    → let sp = split_of user provider balance s in
      (covered : List Raw) × (backlog user provider s ≡ covered ++ sp.held_raws)
      × (sp.covered_count ≡ length covered)
      × (sp.covered_sum ≡ sum_raws covered)
      × (sp.covered_sum ≤ balance)
      × ((sp.held_raws ≡ []) ⊎ Overflows balance sp.covered_sum sp.held_raws)
      × (sp.held_sum ≡ sum_raws sp.held_raws)
unfolding split_of empty_split
split_is_longest_prefix user provider balance s =
    let mine = s.held user provider ++ own_entries user provider s.queue in
    let ((pre, (e, n, sum, le, hs)), phase) =
      split_loop-Inv balance [] mine empty_split
        (([], (refl, refl, refl, omega arith, refl)), inl (refl, refl)) in
    (
      pre,
      e,
      n,
      sum,
      le,
      elim phase [ inl (_, nothing) ↦ inl nothing | inr (_, over) ↦ inr over ],
      hs,
    )
