-- ===== src/Broker/Relay/Routable.antt =====
-- Where the relay connects to.
use package.text.Mathlib.Text.{◌==◌ as str_eq}
use g_sandbox.Base.{
  ℕ, ◌+◌, ◌*◌, ◌/◌, ◌%◌, ◌^◌, ◌<◌, ◌≡◌, ◌⊎◌, Bool, true, false, ◌&&◌, ◌||◌, leb, ◌==◌, Option, none,
  some, List, [], ◌∷◌, arith,
}
use g_sandbox.Broker.Relay.{Ip, v4, v6, forbidden_ip, Attempt, may_dial}

-- An address as a number of 32 bits; bytes are below 256.
abbrev pub number_v4 : ℕ → ℕ → ℕ → ℕ → ℕ
number_v4 a b c d = a * 2 ^ 24 + b * 2 ^ 16 + c * 2 ^ 8 + d

-- Blocks of addresses: a number, and how many of its last bits are free.
abbrev pub internal_v4 : List (ℕ × ℕ)
internal_v4 =
    (0, 0)  -- 0.0.0.0/32
    ∷ (10 * 2 ^ 24, 24)  -- 10.0.0.0/8
    ∷ (127 * 2 ^ 24, 24)  -- 127.0.0.0/8
    ∷ (169 * 2 ^ 24 + 254 * 2 ^ 16, 16)  -- 169.254.0.0/16
    ∷ (172 * 2 ^ 24 + 16 * 2 ^ 16, 20)  -- 172.16.0.0/12
    ∷ (192 * 2 ^ 24 + 168 * 2 ^ 16, 16)  -- 192.168.0.0/16
    ∷ (224 * 2 ^ 24, 28)  -- 224.0.0.0/4
    ∷ []

abbrev pub in_blocks : ℕ → List (ℕ × ℕ) → Bool
in_blocks n [] = false
in_blocks n ((base, bits) ∷ blocks) = n / 2 ^ bits == base / 2 ^ bits || in_blocks n blocks

-- The order of the tests does not matter, and a test that another one covers is idle.
reorder :
    (loop p10 p172 p192 link local wide zero : Bool)
    → (local ≡ true → wide ≡ true)
    → (loop || (p10 || p172 || p192) || link || local || false || wide || zero)
      ≡ (zero || (p10 || (loop || (link || (p172 || (p192 || (wide || false)))))))
reorder loop p10 p172 p192 link local wide zero h = ground arith

-- A test on the first bits of an address is one on its bytes.
module _ (a b c d : ℕ) (ha : a < 256) (hb : b < 256) (hc : c < 256) (hd : d < 256) where
  abbrev n : ℕ
  n = number_v4 a b c d

  in_32 : (n / 2 ^ 0 == 0 / 2 ^ 0) ≡ (a == 0 && b == 0 && c == 0 && d == 0)
  in_32 = ground arith

  in_8 : (k : ℕ) → (n / 2 ^ 24 == k * 2 ^ 24 / 2 ^ 24) ≡ (a == k)
  in_8 k = ground arith

  in_16 :
      (k l : ℕ) → l < 256 → (n / 2 ^ 16 == (k * 2 ^ 24 + l * 2 ^ 16) / 2 ^ 16) ≡ (a == k && b == l)
  in_16 k l hl = ground arith

  in_12 : (n / 2 ^ 20 == (172 * 2 ^ 24 + 16 * 2 ^ 16) / 2 ^ 20) ≡ (a == 172 && b / 16 == 1)
  in_12 = ground arith

  in_4 : (n / 2 ^ 28 == 224 * 2 ^ 24 / 2 ^ 28) ≡ (a / 16 == 14)
  in_4 = ground arith

  pub forbidden_v4 : forbidden_ip (v4 a b c d) ≡ in_blocks n internal_v4
  unfolding forbidden_ip
  forbidden_v4 =
      rw
        (
          in_32,
          in_8 10,
          in_8 127,
          in_16 169 254 (omega arith),
          in_12,
          in_16 192 168 (omega arith),
          in_4,
        )
        (reorder (a == 127) (a == 10) (a == 172 && b / 16 == 1) (a == 192 && b == 168)
          (a == 169 && b == 254) (a == 224 && b == 0 && c == 0) (a / 16 == 14)
          (a == 0 && b == 0 && c == 0 && d == 0) (λ h. ground arith))

abbrev pub internal_v6 : List (ℕ × ℕ)
internal_v6 =
    (126 * 2 ^ 57, 57)  -- fc00::/7
    ∷ (1018 * 2 ^ 54, 54)  -- fe80::/10
    ∷ (255 * 2 ^ 56, 56)  -- ff00::/8
    ∷ []

-- The blocks over the first half of an address, and the two addresses :: and ::1.
module _ (high low : ℕ) (hh : high < 2 ^ 64) where
  in_7 : (high / 2 ^ 57 == 126 * 2 ^ 57 / 2 ^ 57) ≡ (high / 2 ^ 56 / 2 == 126)
  in_7 = ground arith

  in_10 :
      (high / 2 ^ 54 == 1018 * 2 ^ 54 / 2 ^ 54)
      ≡ (high / 2 ^ 56 == 254 && high / 2 ^ 48 % 256 / 64 == 2)
  in_10 = ground arith

  pub forbidden_v6 :
      forbidden_ip (v6 high low) ≡ ((high == 0 && leb low 1) || in_blocks high internal_v6)
  unfolding forbidden_ip
  forbidden_v6 = rw (in_7, in_10) (ground arith)

-- Whether an address is in a block of `internal_v4` or `internal_v6`, or is :: or ::1: the hosts
-- themselves, private networks, links and groups. Other blocks that hosts on the internet do not have,
-- such as 100.64.0.0/10, 198.18.0.0/15 and 240.0.0.0/4, are not among them.
unfoldable pub is_internal : Ip → Bool
is_internal (v4 a b c d) = in_blocks (number_v4 a b c d) internal_v4
is_internal (v6 high low) = (high == 0 && leb low 1) || in_blocks high internal_v6

-- An address of the right size.
abbrev pub IsIp : Ip → Type 0
IsIp (v4 a b c d) = (a < 256) × (b < 256) × (c < 256) × (d < 256)
IsIp (v6 high low) = (high < 2 ^ 64) × (low < 2 ^ 64)

-- The address that is dialed is one of those tried, and none is dialed only if all are refused or do
-- not connect.
abbrev pub Dialed : List Attempt → Option (Option Ip) → Type 0
Dialed [] none = Unit
Dialed [] (some to) = ⊥
Dialed (t ∷ ts) none = ((may_dial t.ip && t.connects) ≡ false) × Dialed ts none
Dialed (t ∷ ts) (some to) =
    ((t.ip ≡ to) × (may_dial to ≡ true) × (t.connects ≡ true)) ⊎ Dialed ts (some to)
