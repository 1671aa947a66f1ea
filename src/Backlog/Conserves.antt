-- ===== src/Backlog/Conserves.antt =====
-- The split of a backlog moves fees between the queue and the held list, and changes no amount.
use g_sandbox.Base.{
  ℕ, ◌+◌, ◌≡◌, refl, inl, inr, not, ◌&&◌, List, [], ◌∷◌, ◌++◌, map, arith, leb, ltb, if◌then◌else◌,
  Bool-cases,
}
use g_sandbox.Voucher.{
  Address, SandboxId, SandboxVoucher, Raw, json, malformed, Hashing, Choice, fee_of, share,
  raw_fees, raw_fees-append,
}
use g_sandbox.Store.{Store}
use g_sandbox.Backlog.Defs.{
  is_mine, own_entries, kept_entries, SandboxGroup, add_to_group, Split, empty_split, cover, hold,
  split_step, split_loop, aggregate_of, split_of, write_split,
}

-- Every entry that parses is a voucher of the pair.
abbrev pub AllOf : Address → Address → List Raw → Type 0
AllOf user provider [] = Unit
AllOf user provider (json v ∷ rs) =
    (v.user ≡ user) × (v.provider ≡ provider) × AllOf user provider rs
AllOf user provider (malformed _ ∷ rs) = AllOf user provider rs

AllOf-append :
    (user provider : Address) (xs ys : List Raw)
    → AllOf user provider xs
    → AllOf user provider ys
    → AllOf user provider (xs ++ ys)
AllOf-append user provider [] ys hx hy = hy
AllOf-append user provider (json v ∷ xs) ys hx hy =
    (hx.0, hx.1, AllOf-append user provider xs ys hx.2 hy)
AllOf-append user provider (malformed _ ∷ xs) ys hx hy = AllOf-append user provider xs ys hx hy

own_entries-AllOf :
    (user provider : Address) (q : List Raw) → AllOf user provider (own_entries user provider q)
unfolding own_entries
own_entries-AllOf user provider [] = tt
own_entries-AllOf user provider (json v ∷ q) = elim (Bool-cases (is_mine user provider v)) [
  | inl own ↦ rw own (ground arith, ground arith, own_entries-AllOf user provider q)
  | inr other ↦ rw other (own_entries-AllOf user provider q)
]
own_entries-AllOf user provider (malformed _ ∷ q) = own_entries-AllOf user provider q

fees-partition :
    (c : Choice) (user provider : Address) (q : List Raw)
    → raw_fees c (kept_entries user provider q) + raw_fees c (own_entries user provider q)
      ≡ raw_fees c q
unfolding own_entries kept_entries
fees-partition c user provider [] = refl
fees-partition c user provider (json v ∷ q) = elim (Bool-cases (is_mine user provider v)) [
  | inl own ↦ rw own (omega (arith, fees-partition c user provider q))
  | inr other ↦ rw other (omega (arith, fees-partition c user provider q))
]
fees-partition c user provider (malformed _ ∷ q) = fees-partition c user provider q

module _ (c : Choice) (user provider : Address) where
  -- What the groups owe under the choice.
  abbrev group_fees : List SandboxGroup → ℕ
  group_fees [] = 0
  group_fees (g ∷ gs) = (if c user provider g.sandbox_id then g.sum else 0) + group_fees gs

  group_fees-add_to_group :
      (id : SandboxId) (fee : ℕ) (gs : List SandboxGroup)
      → group_fees (add_to_group id fee gs)
        ≡ group_fees gs + (if c user provider id then fee else 0)
  unfolding add_to_group
  group_fees-add_to_group id fee [] = omega arith
  group_fees-add_to_group id fee (g ∷ gs) = ground (arith, group_fees-add_to_group id fee gs)

  abbrev split_fees : Split → ℕ
  split_fees st = group_fees st.groups + raw_fees c st.held_raws

  split_fees-cover :
      (v : SandboxVoucher) (st : Split)
      → v.user ≡ user
      → v.provider ≡ provider
      → split_fees (cover v st) ≡ split_fees st + share c v
  unfolding cover
  split_fees-cover v st u p =
      rw (u, p) (omega (arith, group_fees-add_to_group v.sandbox_id (fee_of v) st.groups))

  split_fees-hold :
      (v : SandboxVoucher) (st : Split) → split_fees (hold v st) ≡ split_fees st + share c v
  unfolding hold
  split_fees-hold v st = omega (arith, raw_fees-append c st.held_raws (json v ∷ []))

  -- The fees of one entry.
  abbrev entry_fees : Raw → ℕ
  entry_fees (json v) = share c v
  entry_fees (malformed _) = 0

  split_fees-split_step :
      (balance : ℕ) (raw : Raw) (st : Split)
      → AllOf user provider (raw ∷ [])
      → split_fees (split_step balance raw st) ≡ split_fees st + entry_fees raw
  unfolding split_step
  split_fees-split_step balance (malformed _) st h = omega arith
  split_fees-split_step balance (json v) st h =
      elim (Bool-cases (not st.holding && leb (st.covered_sum + fee_of v) balance)) [
        | inl fits ↦ rw fits (split_fees-cover v st h.0 h.1)
        | inr over ↦ rw over (split_fees-hold v st)
      ]

  split_fees-split_loop :
      (balance : ℕ) (mine : List Raw) (st : Split)
      → AllOf user provider mine
      → split_fees (split_loop balance mine st) ≡ split_fees st + raw_fees c mine
  unfolding split_loop
  split_fees-split_loop balance [] st h = omega arith
  split_fees-split_loop balance (malformed t ∷ mine) st h = omega (
    arith,
    split_fees-split_loop balance mine (split_step balance (malformed t) st) h,
    split_fees-split_step balance (malformed t) st tt,
  )
  split_fees-split_loop balance (json v ∷ mine) st h = omega (
    arith,
    split_fees-split_loop balance mine (split_step balance (json v) st) h.2,
    split_fees-split_step balance (json v) st (h.0, h.1, tt),
  )

  raw_fees-aggregates :
      (h : Hashing) (now : ℕ) (gs : List SandboxGroup)
      → raw_fees c (map (aggregate_of h now user provider) gs) ≡ group_fees gs
  unfolding aggregate_of
  raw_fees-aggregates h now [] = refl
  raw_fees-aggregates h now (g ∷ gs) = omega (arith, raw_fees-aggregates h now gs)

-- With no covered voucher there is no group.
abbrev Counted : Split → Type 0
Counted st = (st.covered_count ≡ 0) → st.groups ≡ []

split_step-Counted :
    (balance : ℕ) (raw : Raw) (st : Split) → Counted st → Counted (split_step balance raw st)
unfolding split_step cover hold
split_step-Counted balance (malformed _) st h = h
split_step-Counted balance (json v) st h =
    elim (Bool-cases (not st.holding && leb (st.covered_sum + fee_of v) balance)) [
      | inl fits ↦ rw fits (λ e. absurd (omega arith))
      | inr over ↦ rw over h
    ]

split_loop-Counted :
    (balance : ℕ) (mine : List Raw) (st : Split) → Counted st → Counted (split_loop balance mine st)
unfolding split_loop
split_loop-Counted balance [] st h = h
split_loop-Counted balance (raw ∷ mine) st h =
    split_loop-Counted balance mine (split_step balance raw st)
      (split_step-Counted balance raw st h)

-- The aggregates that are written owe what the groups owe.
written_fees :
    (c : Choice) (h : Hashing) (now : ℕ) (user provider : Address) (sp : Split)
    → Counted sp
    → raw_fees c
        (if ltb 0 sp.covered_count then map (aggregate_of h now user provider) sp.groups else [])
      ≡ group_fees c user provider sp.groups
written_fees c h now user provider sp k = elim (Bool-cases (ltb 0 sp.covered_count)) [
  | inl some_covered ↦ rw some_covered (raw_fees-aggregates c user provider h now sp.groups)
  | inr none_covered ↦ rw (none_covered, k (ground arith))
]

-- A split of a pair's backlog against any balance conserves fees: for every choice of users,
-- providers and sandboxes, the queue and the pair's held list owe together after it what they owed
-- before it, if the held list holds vouchers of the pair only.
pub write_split_conserves_fees :
    (c : Choice) (h : Hashing) (now balance : ℕ) (user provider : Address) (s : Store)
    → AllOf user provider (s.held user provider)
    → let s' = write_split h now user provider (split_of user provider balance s) s in
      raw_fees c s'.queue + raw_fees c (s'.held user provider)
      ≡ raw_fees c s.queue + raw_fees c (s.held user provider)
unfolding write_split split_of empty_split
write_split_conserves_fees c h now balance user provider s own =
    let mine = s.held user provider ++ own_entries user provider s.queue in
    let sp = split_loop balance mine empty_split in
    let all =
      AllOf-append user provider (s.held user provider) (own_entries user provider s.queue) own
        (own_entries-AllOf user provider s.queue) in
    ground (
      arith,
      raw_fees-append c (kept_entries user provider s.queue)
          (if ltb 0 sp.covered_count then map (aggregate_of h now user provider) sp.groups else []),
      written_fees c h now user provider sp
          (split_loop-Counted balance mine empty_split (λ e. refl)),
      split_fees-split_loop c user provider balance mine empty_split all,
      raw_fees-append c (s.held user provider) (own_entries user provider s.queue),
      fees-partition c user provider s.queue,
    )
