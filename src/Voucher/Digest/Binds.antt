-- ===== src/Voucher/Digest/Binds.antt =====
-- What a digest determines.
use g_sandbox.Base.{
  ℕ, zero, suc, ◌*◌, ◌/◌, ◌%◌, ◌^◌, ◌<◌, ◌≡◌, refl, sym, ap, ◌∙◌, ◌≢◌, ◌⊎◌, inl, inr, ◌&&◌, some,
  List, [], ◌∷◌, ◌++◌, length, length-append, append_inj, same_bytes, same_bytes-eq,
  same_bytes_refl, or_zero, ltb, Bool-cases, Option-cases, arith,
}
use g_sandbox.Voucher.{Address, SandboxVoucher, Hashing}
use g_sandbox.Voucher.Digest.{
  fill_bytes, word, encode_domain, domain_separator, encode_voucher, encode_message, hash_voucher,
  codes, domain_type, voucher_type,
}

-- How many numbers there are of so many bytes.
size : ℕ → ℕ
size zero = 1
size (suc k) = 256 * size k

length-fill_bytes : (k n : ℕ) → length (fill_bytes k n) ≡ k
unfolding fill_bytes
length-fill_bytes zero n = refl
length-fill_bytes (suc k) n =
    omega
      (arith, length-append (fill_bytes k (n / 256)) (n % 256 ∷ []), length-fill_bytes k (n / 256))

fill_bytes-inj : (k n m : ℕ) → n < size k → m < size k → fill_bytes k n ≡ fill_bytes k m → n ≡ m
unfolding fill_bytes size
fill_bytes-inj zero n m hn hm h = omega arith
fill_bytes-inj (suc k) n m hn hm h =
    let (high, low) =
      append_inj (fill_bytes k (n / 256)) (fill_bytes k (m / 256)) _ _
        (omega (arith, length-fill_bytes k (n / 256), length-fill_bytes k (m / 256))) h in
    let same = fill_bytes-inj k (n / 256) (m / 256) (omega arith) (omega arith) high in
    let last : n % 256 ≡ m % 256 = cc low in omega arith

word-inj : (n m : ℕ) → n < 2 ^ 256 → m < 2 ^ 256 → word n ≡ word m → n ≡ m
unfolding size
word-inj n m hn hm h = fill_bytes-inj 32 n m hn hm h

-- A word at the beginning is determined, and so is what follows it.
words_apart :
    (n m : ℕ) (as' bs : List ℕ)
    → n < 2 ^ 256
    → m < 2 ^ 256
    → word n ++ as' ≡ word m ++ bs
    → (n ≡ m) × (as' ≡ bs)
words_apart n m as' bs hn hm h =
    let (same, rest) =
      append_inj (word n) (word m) as' bs
        (omega (arith, length-fill_bytes 32 n, length-fill_bytes 32 m)) h in
    (word-inj n m hn hm same, rest)

-- Two different texts with one hash.
abbrev pub Collides : Hashing → List ℕ → List ℕ → Type 0
Collides h x y = (x ≢ y) × (h.keccak x ≡ h.keccak y)

keccak-inj : (h : Hashing) (x y : List ℕ) → h.keccak x ≡ h.keccak y → (x ≡ y) ⊎ Collides h x y
keccak-inj h x y e = elim (Bool-cases (same_bytes x y)) [
  | inl same ↦ inl (same_bytes-eq x y same)
  | inr differ ↦ inr (λ q. cc (sym differ ∙ (ap (same_bytes x) (sym q) ∙ same_bytes_refl x)), e)
]

-- Addresses of 20 bytes, and a usage hash of 32.
pub record IsSized (v : SandboxVoucher) : Type 0 where
  pub user_size : v.user < 2 ^ 160
  pub provider_size : v.provider < 2 ^ 160
  pub usage_size : v.usage_hash < 2 ^ 256

-- Hashes of 32 bytes.
abbrev pub HasSize : Hashing → Type 0
HasSize h = (bs : List ℕ) → h.keccak bs < 2 ^ 256

encode_voucher-inj :
    (h : Hashing) (v w : SandboxVoucher) (n m f g : ℕ)
    → HasSize h
    → IsSized v
    → IsSized w
    → n < 2 ^ 256
    → m < 2 ^ 256
    → f < 2 ^ 256
    → g < 2 ^ 256
    → encode_voucher h v n f ≡ encode_voucher h w m g
    → (v.user ≡ w.user)
      × (v.provider ≡ w.provider)
      × (v.usage_hash ≡ w.usage_hash)
      × (n ≡ m)
      × (f ≡ g)
unfolding encode_voucher
encode_voucher-inj h v w n m f g small sv sw hn hm hf hg e =
    let t = h.keccak (codes voucher_type) in
    let (e0, r0) = words_apart t t _ _ (small _) (small _) e in
    let (user, r1) =
      words_apart v.user w.user _ _ (omega (arith, sv.user_size)) (omega (arith, sw.user_size))
        r0 in
    let (provider, r2) =
      words_apart v.provider w.provider _ _ (omega (arith, sv.provider_size))
        (omega (arith, sw.provider_size)) r1 in
    let (usage, r3) = words_apart v.usage_hash w.usage_hash _ _ sv.usage_size sw.usage_size r2 in
    let (nonce, r4) = words_apart n m _ _ hn hm r3 in
    (user, provider, usage, nonce, word-inj f g hf hg r4)

encode_domain-inj :
    (h : Hashing) (c d : ℕ) (a b : Address)
    → HasSize h
    → c < 2 ^ 256
    → d < 2 ^ 256
    → a < 2 ^ 160
    → b < 2 ^ 160
    → encode_domain h c a ≡ encode_domain h d b
    → (c ≡ d) × (a ≡ b)
unfolding encode_domain
encode_domain-inj h c d a b small hc hd ha hb same =
    let (e0, r0) =
      words_apart _ _ _ _ (small (codes domain_type)) (small (codes domain_type)) same in
    let (e1, r1) =
      words_apart _ _ _ _ (small (codes "0G Sandbox Serving")) (small (codes "0G Sandbox Serving"))
        r0 in
    let (e2, r2) = words_apart _ _ _ _ (small (codes "1")) (small (codes "1")) r1 in
    let (chain, r3) = words_apart c d _ _ hc hd r2 in
    (chain, word-inj a b (omega arith) (omega arith) r3)

encode_message-inj :
    (p q s t : ℕ)
    → p < 2 ^ 256
    → q < 2 ^ 256
    → s < 2 ^ 256
    → t < 2 ^ 256
    → encode_message p s ≡ encode_message q t
    → (p ≡ q) × (s ≡ t)
unfolding encode_message
encode_message-inj p q s t hp hq hs ht same =
    let (sep, r) = words_apart p q _ _ hp hq (cc same) in (sep, word-inj s t hs ht r)

separator_size : (h : Hashing) (c : ℕ) (a : Address) → HasSize h → domain_separator h c a < 2 ^ 256
unfolding domain_separator
separator_size h c a small = small (encode_domain h c a)

-- The three texts that are hashed for a digest.
abbrev pub struct_text : Hashing → SandboxVoucher → List ℕ
struct_text h v = encode_voucher h v (or_zero v.nonce) (or_zero v.total_fee)

abbrev pub message_text : Hashing → ℕ → Address → SandboxVoucher → List ℕ
message_text h chain_id contract v =
    encode_message (domain_separator h chain_id contract) (h.keccak (struct_text h v))

-- A digest comes of a nonce and a fee that fit.
hash_voucher-parts :
    (h : Hashing) (chain_id : ℕ) (contract : Address) (v : SandboxVoucher) (x : ℕ)
    → hash_voucher h chain_id contract v ≡ some x
    → (v.nonce ≡ some (or_zero v.nonce))
      × (v.total_fee ≡ some (or_zero v.total_fee))
      × (or_zero v.nonce < 2 ^ 256)
      × (or_zero v.total_fee < 2 ^ 256)
      × (h.keccak (message_text h chain_id contract v) ≡ x)
unfolding hash_voucher
hash_voucher-parts h chain_id contract v x e = elim (Option-cases v.nonce) [
  | inl e' ↦ absurd (ground arith)
  | inr (n, en) ↦ elim (Option-cases v.total_fee) [
    | inl e' ↦ absurd (ground arith)
    | inr (f, ef) ↦ elim (Bool-cases (ltb n (2 ^ 256) && ltb f (2 ^ 256))) [
      | inl fits ↦ (ground arith, ground arith, ground arith, ground arith, ground arith)
      | inr big ↦ absurd (ground arith)
    ]
  ]
]

-- Two vouchers with one digest, of whatever chains and contracts, are for the same chain and contract
-- and agree in user, provider, usage hash, nonce and fee; or Keccak collides on the two messages, the
-- two domains or the two structs that were hashed for them.
pub hash_voucher-inj :
    (h : Hashing) (c d : ℕ) (a b : Address) (v w : SandboxVoucher) (x : ℕ)
    → HasSize h
    → c < 2 ^ 256
    → d < 2 ^ 256
    → a < 2 ^ 160
    → b < 2 ^ 160
    → IsSized v
    → IsSized w
    → hash_voucher h c a v ≡ some x
    → hash_voucher h d b w ≡ some x
    → ((c ≡ d)
        × (a ≡ b)
        × (v.user ≡ w.user)
        × (v.provider ≡ w.provider)
        × (v.usage_hash ≡ w.usage_hash)
        × (v.nonce ≡ w.nonce)
        × (v.total_fee ≡ w.total_fee))
      ⊎ Collides h (message_text h c a v) (message_text h d b w)
      ⊎ Collides h (encode_domain h c a) (encode_domain h d b)
      ⊎ Collides h (struct_text h v) (struct_text h w)
hash_voucher-inj h c d a b v w x small hc hd ha hb sv sw e e' =
    let (en, ef, hn, hf, q) = hash_voucher-parts h c a v x e in
    let (em, eg, hm, hg, q') = hash_voucher-parts h d b w x e' in
    elim (keccak-inj h (message_text h c a v) (message_text h d b w) (q ∙ sym q')) [
      | inr collides ↦ inr (inl collides)
      | inl message ↦
          let (seps, structs) =
            encode_message-inj _ _ _ _ (separator_size h c a small) (separator_size h d b small)
              (small (struct_text h v)) (small (struct_text h w)) message in
          elim (keccak-inj h (encode_domain h c a) (encode_domain h d b)
            (unfold domain_separator in seps)) [
              | inr collides ↦ inr (inr (inl collides))
              | inl domain ↦ elim (keccak-inj h (struct_text h v) (struct_text h w) structs) [
                | inr collides ↦ inr (inr (inr collides))
                | inl same ↦
                    let (chain, contract) = encode_domain-inj h c d a b small hc hd ha hb domain in
                    let (user, provider, usage, nonce, fee) =
                      encode_voucher-inj h v w _ _ _ _ small sv sw hn hm hf hg same in
                    inl (
                      chain,
                      contract,
                      user,
                      provider,
                      usage,
                      en ∙ (ap some nonce ∙ sym em),
                      ef ∙ (ap some fee ∙ sym eg),
                    )
              ]
            ]
    ]
