-- ===== src/Dlq/Discard.antt =====
-- What a discard removes.
use mathlib.Core.Option.{some-injective}
use g_sandbox.Base.{
  ℕ, ◌≡◌, refl, sym, ap, subst, ◌∙◌, Bool, true, false, ◌==◌, ==_refl, Option, none, some, List, [],
  ◌∷◌, if◌then◌else◌, Bool-cases, inl, inr, arith,
}
use g_sandbox.Voucher.{Address, Raw, json, malformed}
use g_sandbox.Store.{Store}
use g_sandbox.Dlq.{
  same_option, same_bool, same_raw, is_target, find_target, lrem, lrem_count, discard_raw,
  discard_from_dlq,
}

-- The queue without its first target, and how many that takes away.
abbrev pub without : Address → Address → ℕ → List Raw → List Raw
without user provider nonce [] = []
without user provider nonce (r ∷ rs) =
    if is_target user provider nonce r then rs else r ∷ without user provider nonce rs

abbrev pub target_count : Address → Address → ℕ → List Raw → ℕ
target_count user provider nonce [] = 0
target_count user provider nonce (r ∷ rs) =
    if is_target user provider nonce r then 1 else target_count user provider nonce rs

same_option_refl : (a : Option ℕ) → same_option a a ≡ true
same_option_refl none = refl
same_option_refl (some a) = ==_refl a

same_bool_refl : (b : Bool) → same_bool b b ≡ true
same_bool_refl true = refl
same_bool_refl false = refl

same_raw_refl : (r : Raw) → same_raw r r ≡ true
unfolding same_raw
same_raw_refl (json v) = simp (==_refl, same_option_refl, same_bool_refl)
same_raw_refl (malformed n) = ==_refl n

same_option_trans : (a b c : Option ℕ) → same_option a b ≡ true → same_option b c ≡ same_option a c
same_option_trans none none c h = refl
same_option_trans (some a) (some b) none h = refl
same_option_trans (some a) (some b) (some c) h = ground arith
same_option_trans none (some b) c h = ground arith
same_option_trans (some a) none c h = ground arith

is_target-same_raw :
    (user provider : Address) (nonce : ℕ) (a b : Raw)
    → same_raw a b ≡ true
    → is_target user provider nonce b ≡ is_target user provider nonce a
unfolding same_raw is_target
is_target-same_raw user provider nonce (malformed a) (malformed b) h = refl
is_target-same_raw user provider nonce (malformed a) (json w) h = ground arith
is_target-same_raw user provider nonce (json v) (malformed b) h = ground arith
is_target-same_raw user provider nonce (json v) (json w) h =
    let n : same_option v.nonce w.nonce ≡ true = ground arith in
    let same = same_option_trans v.nonce w.nonce (some nonce) n in ground arith

find_target-none :
    (user provider : Address) (nonce : ℕ) (rs : List Raw)
    → find_target user provider nonce rs ≡ none
    → (without user provider nonce rs ≡ rs) × (target_count user provider nonce rs ≡ 0)
unfolding find_target
find_target-none user provider nonce [] h = (refl, refl)
find_target-none user provider nonce (r ∷ rs) h =
    let no : is_target user provider nonce r ≡ false = ground arith in
    let later : find_target user provider nonce rs ≡ none = ground arith in
    let (a, b) = find_target-none user provider nonce rs later in simp (no, a, b) (refl, refl)

differs :
    (user provider : Address) (nonce : ℕ) (a b : Raw)
    → is_target user provider nonce a ≡ true
    → is_target user provider nonce b ≡ false
    → same_raw a b ≡ false
differs user provider nonce a b target miss = elim (Bool-cases (same_raw a b)) [
  | inl same ↦ let e = is_target-same_raw user provider nonce a b same in ground arith
  | inr other ↦ other
]

-- LREM meets the target first, for no earlier item is the same text.
find_target-some :
    (user provider : Address) (nonce : ℕ) (rs : List Raw) (raw : Raw)
    → find_target user provider nonce rs ≡ some raw
    → (is_target user provider nonce raw ≡ true)
      × (lrem raw rs ≡ without user provider nonce rs)
      × (lrem_count raw rs ≡ target_count user provider nonce rs)
unfolding find_target lrem lrem_count
find_target-some user provider nonce [] raw h = ground arith
find_target-some user provider nonce (r ∷ rs) raw h =
    elim (Bool-cases (is_target user provider nonce r)) [
      | inl hit ↦
          let first : r ≡ raw = some-injective r raw (
            subst (λ b. (if b then some r else find_target user provider nonce rs) ≡ some raw) hit
              h) in
          let same : same_raw raw r ≡ true =
            subst (λ x. same_raw x r ≡ true) first (same_raw_refl r) in
          simp (hit, same)
            (subst (λ x. is_target user provider nonce x ≡ true) first hit, refl, refl)
      | inr miss ↦
          let later : find_target user provider nonce rs ≡ some raw =
            subst (λ b. (if b then some r else find_target user provider nonce rs) ≡ some raw) miss
              h in
          let (target, a, b) = find_target-some user provider nonce rs raw later in
          let other : same_raw raw r ≡ false = differs user provider nonce raw r target miss in
          simp (miss, other, a, b) (target, refl, refl)
    ]

unchanged :
    (p provider : Address) (q : Address → List Raw) (rs : List Raw)
    → rs ≡ q provider
    → q p ≡ (if p == provider then rs else q p)
unchanged p provider q rs same = elim (Bool-cases (p == provider)) [
  | inl e ↦ let at : p ≡ provider = ground arith in rw e (ap q at ∙ sym same)
  | inr e ↦ rw e refl
]

discard_raw-without :
    (user provider : Address) (nonce : ℕ) (s : Store) (p : Address) (found : Option Raw)
    → find_target user provider nonce (s.dlq provider) ≡ found
    → let (r, s') = discard_raw provider found (record s { faults = [] }) in
      (r ≡ some (target_count user provider nonce (s.dlq provider)))
      × (s'.dlq p
          ≡ (if p == provider then without user provider nonce (s.dlq provider) else s.dlq p))
unfolding discard_raw
discard_raw-without user provider nonce s p none h =
    let (a, b) = find_target-none user provider nonce (s.dlq provider) h in
    (ap some (sym b), unchanged p provider s.dlq (without user provider nonce (s.dlq provider)) a)
discard_raw-without user provider nonce s p (some raw) h =
    let (_, a, b) = find_target-some user provider nonce (s.dlq provider) raw h in
    (ap some b, rw a refl)

-- While Redis answers, a discard takes the first voucher with the user, provider and nonce out of the
-- provider's dead-letter queue, leaves those of the other providers, and says how many it removed.
pub discard-without :
    (user provider : Address) (nonce : ℕ) (s : Store) (p : Address)
    → let (r, s') = discard_from_dlq user provider (some nonce) (record s { faults = [] }) in
      (r ≡ some (target_count user provider nonce (s.dlq provider)))
      × (s'.dlq p
          ≡ (if p == provider then without user provider nonce (s.dlq provider) else s.dlq p))
unfolding discard_from_dlq
discard-without user provider nonce s p =
    discard_raw-without user provider nonce s p (find_target user provider nonce (s.dlq provider))
      refl
