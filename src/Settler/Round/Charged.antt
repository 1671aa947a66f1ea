-- ===== src/Settler/Round/Charged.antt =====
-- What a batch charges is what the queue entries that it took owe.
use g_sandbox.Base.{
  ℕ, ◌≡◌, refl, sym, ap, ◌∙◌, Option, none, some, inl, inr, List, [], ◌∷◌, arith, Option-cases,
}
use g_sandbox.Voucher.{SandboxVoucher, Raw, json, malformed, Hashing, Choice, share, fees, raw_fees}
use g_sandbox.Voucher.Collapse.{collapse_by_sandbox}
use g_sandbox.Voucher.Collapse.Fees.{collapse-fees}
use g_sandbox.Store.{Store, Action, ◌>>=◌, pure}
use g_sandbox.Billing.Signer.{Signing, incr_nonce, seal, sign}
use g_sandbox.Settler.Round.{parse_batch, sign_batch}

fees-parse_batch : (c : Choice) (rs : List Raw) → fees c (parse_batch rs) ≡ raw_fees c rs
unfolding parse_batch
fees-parse_batch c [] = refl
fees-parse_batch c (json v ∷ rs) = rw (fees-parse_batch c rs)
fees-parse_batch c (malformed _ ∷ rs) = fees-parse_batch c rs

-- An action that returns something has run its first part to a result.
returns :
    {A B : Type 0} (m : Action A) (k : A → Action B) (s : Store) {b : B}
    → ((m >>= k) s).0 ≡ some b
    → (a : A) × ((m s).0 ≡ some a) × ((k a (m s).1).0 ≡ some b)
returns {A} {B} m k s {b} = go (m s).0
  where
    go :
        (r : Option A)
        → (elim r as (λ _. Option B × Store) [ none ↦ (none, (m s).1) | some a ↦ k a (m s).1 ]).0
          ≡ some b
        → (a : A) × (r ≡ some a) × ((k a (m s).1).0 ≡ some b)
    go none e = ground arith
    go (some a) e = (a, refl, e)

share-seal :
    (c : Choice) (sg : Signing) (v : SandboxVoucher) (n : ℕ) (s : Store) {w : SandboxVoucher}
    → (seal sg v n s).0 ≡ some w
    → share c w ≡ share c v
unfolding seal
share-seal c sg v n s {w} e = elim (Option-cases (sg.signature_of (record v { nonce = some n }))) [
  | inl failed ↦ ground arith
  | inr (sig, p) ↦
      let same : record v { nonce = some n; signature = some sig } ≡ w = ground arith in
      sym (ap (share c) same)
]

share-sign :
    (c : Choice) (sg : Signing) (v : SandboxVoucher) (s : Store) {w : SandboxVoucher}
    → (sign sg v s).0 ≡ some w
    → share c w ≡ share c v
unfolding sign
share-sign c sg v s e =
    let (n, _, sealed) = returns (incr_nonce sg v.user v.provider) (seal sg v) s e in
    share-seal c sg v n (incr_nonce sg v.user v.provider s).1 sealed

fees-sign_batch :
    (c : Choice) (sg : Signing) (vs : List SandboxVoucher) (s : Store) {ws : List SandboxVoucher}
    → (sign_batch sg vs s).0 ≡ some ws
    → fees c ws ≡ fees c vs
unfolding sign_batch
fees-sign_batch c sg [] s {ws} e = let same : [] ≡ ws = ground arith in rw (← same)
fees-sign_batch c sg (v ∷ vs) s {ws} e =
    let add : SandboxVoucher → List SandboxVoucher → Action (List SandboxVoucher) =
      λ w us. pure (w ∷ us) in
    let (w, one, rest) = returns (sign sg v) (λ w. sign_batch sg vs >>= add w) s e in
    let (us, many, last) = returns (sign_batch sg vs) (add w) (sign sg v s).1 rest in
    let same : w ∷ us ≡ ws = ground arith in
    rw (← same, share-sign c sg v s one, fees-sign_batch c sg vs (sign sg v s).1 many)

-- For every choice of keys, the vouchers that a batch submits once it is parsed, collapsed and signed
-- owe together exactly what the queue entries that the batch took owe together; an entry that does
-- not parse owes nothing.
pub batch_charges_its_entries :
    (c : Choice) (h : Hashing) (now : ℕ) (sg : Signing) (rs : List Raw) (s : Store)
    {batch signed : List SandboxVoucher}
    → collapse_by_sandbox h now (parse_batch rs) ≡ some batch
    → (sign_batch sg batch s).0 ≡ some signed
    → fees c signed ≡ raw_fees c rs
batch_charges_its_entries c h now sg rs s {batch} collapsed signed_ok =
    fees-sign_batch c sg batch s signed_ok
    ∙ collapse-fees c h now (parse_batch rs) batch collapsed
    ∙ fees-parse_batch c rs
