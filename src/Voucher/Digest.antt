-- ===== src/Voucher/Digest.antt =====
-- The EIP-712 digest that a voucher's signature is over: internal/voucher/eip712.go, but for the
-- signature itself. Keccak256 is given, as a number of 32 bytes.
pub mod Binds
use Prim.Native.Char.{code}
use Prim.Native.String.{String}
use g_sandbox.Base.{
  ℕ, zero, suc, ◌+◌, ◌*◌, ◌/◌, ◌%◌, ◌^◌, Bool, true, false, ◌&&◌, Option, none, some, List, [], ◌∷◌,
  ◌++◌, ltb, if◌then◌else◌,
}
use g_sandbox.Voucher.{Address, SandboxVoucher, Hashing}

abbrev pub codes : String → List ℕ
codes String.[] = []
codes (String.◌∷◌ c s) = code c ∷ codes s

-- `FillBytes` on so many bytes, the highest first, of a number that fits.
unfoldable pub fill_bytes : ℕ → ℕ → List ℕ
fill_bytes zero n = []
fill_bytes (suc k) n = fill_bytes k (n / 256) ++ (n % 256) ∷ []

abbrev pub word : ℕ → List ℕ
word n = fill_bytes 32 n

abbrev pub voucher_type : String
voucher_type =
    "SandboxVoucher(address user,address provider,bytes32 usageHash,uint256 nonce,uint256 totalFee)"

abbrev pub domain_type : String
domain_type = "EIP712Domain(string name,string version,uint256 chainId,address verifyingContract)"

unfoldable pub encode_domain : Hashing → ℕ → Address → List ℕ
encode_domain h chain_id contract =
    word (h.keccak (codes domain_type))
    ++ (word (h.keccak (codes "0G Sandbox Serving"))
        ++ (word (h.keccak (codes "1")) ++ (word chain_id ++ word contract)))

-- `domainSeparator`
unfoldable pub domain_separator : Hashing → ℕ → Address → ℕ
domain_separator h chain_id contract = h.keccak (encode_domain h chain_id contract)

unfoldable pub encode_voucher : Hashing → SandboxVoucher → ℕ → ℕ → List ℕ
encode_voucher h v nonce fee =
    word (h.keccak (codes voucher_type))
    ++ (word v.user ++ (word v.provider ++ (word v.usage_hash ++ (word nonce ++ word fee))))

unfoldable pub encode_message : (separator struct_hash : ℕ) → List ℕ
encode_message separator struct_hash = 25 ∷ 1 ∷ (word separator ++ word struct_hash)

-- `hashVoucher`; a nil number, or one of more than 32 bytes, makes FillBytes panic.
unfoldable pub hash_voucher : Hashing → ℕ → Address → SandboxVoucher → Option ℕ
hash_voucher h chain_id contract v = elim v.nonce [
  | none ↦ none
  | some nonce ↦ elim v.total_fee [
    | none ↦ none
    | some fee ↦
        if ltb nonce (2 ^ 256) && ltb fee (2 ^ 256)
        then some (
            h.keccak (
              encode_message (domain_separator h chain_id contract)
                (h.keccak (encode_voucher h v nonce fee))))
        else none
  ]
]
