-- ===== src/Backlog/Index.antt =====
-- The held-users index names exactly the users with a held list.
use g_sandbox.Base.{
  ℕ, ◌≡◌, not, ◌&&◌, ◌||◌, List, [], ◌∷◌, ◌++◌, arith, ◌==◌, ltb, mem, length, length-append, none,
}
use g_sandbox.Voucher.{Address, SandboxVoucher, json, Hashing}
use g_sandbox.Store.{Store, command_cases, modify, put, put₂}
use g_sandbox.Backlog.Defs.{set_add, set_remove, push_held, split_of, write_split}

-- A user is in a provider's index if and only if their held list has an entry.
abbrev pub IndexIsExact : Store → Type 0
IndexIsExact s = (u p : Address) → mem u (s.held_users p) ≡ ltb 0 (length (s.held u p))

mem-append_one : (a x : ℕ) (xs : List ℕ) → mem a (xs ++ x ∷ []) ≡ (mem a xs || a == x)
mem-append_one a x [] = ground arith
mem-append_one a x (y ∷ xs) = ground (arith, mem-append_one a x xs)

mem-set_add : (a u : Address) (us : List Address) → mem a (set_add u us) ≡ (a == u || mem a us)
mem-set_add a u us = ground (arith, mem-append_one a u us)

mem-set_remove :
    (a u : Address) (us : List Address) → mem a (set_remove u us) ≡ (not (a == u) && mem a us)
mem-set_remove a u [] = ground arith
mem-set_remove a u (x ∷ us) = ground (arith, mem-set_remove a u us)

-- The write of a split keeps the held-users index exact, for every user and provider.
pub write_split-IndexIsExact :
    (h : Hashing) (now balance : ℕ) (user provider : Address) (s : Store)
    → IndexIsExact s
    → IndexIsExact (write_split h now user provider (split_of user provider balance s) s)
unfolding write_split
write_split-IndexIsExact h now balance user provider s exact u p =
    let sp = split_of user provider balance s in
    ground (
      arith,
      exact u p,
      mem-set_add u user (s.held_users provider),
      mem-set_remove u user (s.held_users provider),
    )

-- Parking a voucher keeps the held-users index exact, whether or not Redis answers.
pub push_held-IndexIsExact :
    (v : SandboxVoucher) (s : Store) → IndexIsExact s → IndexIsExact (push_held v s).1
unfolding push_held
push_held-IndexIsExact v s exact =
    let raw = json (record v { nonce = none; signature = none }) in
    command_cases (λ r. IndexIsExact r.1)
      (modify (λ x. record x {
        held = put₂ v.user v.provider (x.held v.user v.provider ++ raw ∷ []) x.held;
        held_users = put v.provider (set_add v.user (x.held_users v.provider)) x.held_users;
      }))
      s exact
      (λ u p. ground (
        arith,
        exact u p,
        mem-set_add u v.user (s.held_users v.provider),
        length-append {0} (s.held v.user v.provider) (raw ∷ []),
      ))
