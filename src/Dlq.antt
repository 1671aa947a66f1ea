-- ===== src/Dlq.antt =====
-- The dead-letter queue's operations: internal/voucher/dlq.go.
pub mod Discard
use g_sandbox.Base.{
  ℕ, Bool, true, false, ◌&&◌, ◌==◌, Option, none, some, List, [], ◌∷◌, if◌then◌else◌,
}
use g_sandbox.Voucher.{Address, SandboxId, SandboxVoucher, Raw, json, malformed}
use g_sandbox.Store.{Store, Action, ◌>>=◌, ◌>>◌, pure, fail, gets, modify, command, put}

-- `DLQEntry`; a nil fee or nonce is the empty text, here `none`.
pub record DlqEntry : Type 0 where
  pub raw : Raw
  pub sandbox_id : SandboxId
  pub user : Address
  pub provider : Address
  pub total_fee_wei : Option ℕ
  pub nonce : Option ℕ
  pub aggregated : Bool

abbrev pub entry_of : SandboxVoucher → DlqEntry
entry_of v = record {
  raw = json v;
  sandbox_id = v.sandbox_id;
  user = v.user;
  provider = v.provider;
  total_fee_wei = v.total_fee;
  nonce = v.nonce;
  aggregated = v.aggregated;
}

unfoldable pub entries : List Raw → List DlqEntry
entries [] = []
entries (json v ∷ rs) = entry_of v ∷ entries rs
entries (malformed _ ∷ rs) = entries rs

-- `ListDLQ`
unfoldable pub list_dlq : Address → Action (List DlqEntry)
list_dlq provider = do command; gets (λ s. entries (s.dlq provider))

abbrev pub same_option : Option ℕ → Option ℕ → Bool
same_option none none = true
same_option (some a) (some b) = a == b
same_option _ _ = false

abbrev pub same_bool : Bool → Bool → Bool
same_bool true b = b
same_bool false true = false
same_bool false false = true

-- Whether two items are one text: the JSON of a voucher has all its fields.
unfoldable pub same_raw : Raw → Raw → Bool
same_raw (json v) (json w) =
    v.sandbox_id == w.sandbox_id
    && v.user == w.user
    && v.provider == w.provider
    && same_option v.total_fee w.total_fee
    && v.usage_hash == w.usage_hash
    && same_option v.nonce w.nonce
    && same_option v.signature w.signature
    && same_bool v.aggregated w.aggregated
same_raw (malformed a) (malformed b) = a == b
same_raw _ _ = false

-- Whether an item is the voucher with this user, provider and nonce.
unfoldable pub is_target : Address → Address → ℕ → Raw → Bool
is_target user provider nonce (malformed _) = false
is_target user provider nonce (json v) =
    v.user == user && v.provider == provider && same_option v.nonce (some nonce)

-- The loop: the item that LREM is called with.
unfoldable pub find_target : Address → Address → ℕ → List Raw → Option Raw
find_target user provider nonce [] = none
find_target user provider nonce (r ∷ rs) =
    let rest = find_target user provider nonce rs in
    if is_target user provider nonce r then some r else rest

-- LREM with count 1: the first item that is this text.
unfoldable pub lrem : Raw → List Raw → List Raw
lrem raw [] = []
lrem raw (r ∷ rs) = let rest = lrem raw rs in if same_raw raw r then rs else r ∷ rest

-- How many LREM removes.
unfoldable pub lrem_count : Raw → List Raw → ℕ
lrem_count raw [] = 0
lrem_count raw (r ∷ rs) = let rest = lrem_count raw rs in if same_raw raw r then 1 else rest

unfoldable pub discard_raw : Address → Option Raw → Action ℕ
discard_raw provider none = pure 0
discard_raw provider (some raw) = do
  command
  removed ← gets (λ s. lrem_count raw (s.dlq provider))
  modify (λ s. record s { dlq = put provider (lrem raw (s.dlq provider)) s.dlq })
  pure removed

-- `DiscardFromDLQ`; the nonce `none` is the empty text.
unfoldable pub discard_from_dlq : Address → Address → Option ℕ → Action ℕ
discard_from_dlq user provider none = fail
discard_from_dlq user provider (some nonce) = do
  command
  items ← gets (λ s. s.dlq provider)
  discard_raw provider (find_target user provider nonce items)
