-- ===== src/Chain.antt =====
-- internal/chain/client.go: the fate of a settlement transaction, and the statuses of its vouchers.
-- The RPC answers are the fields of a `Poll`.
pub mod Events
use g_sandbox.Base.{
  ℕ, Bool, ◌&&◌, Option, none, some, List, [], ◌∷◌, ◌==◌, ltb, length, if◌then◌else◌,
}
use g_sandbox.Voucher.{Address, SandboxVoucher}

-- `SettlementStatus`; `unknown` is any number past the enum.
pub data SettlementStatus : Type 0 where
  success insufficient_balance provider_mismatch not_acknowledged : SettlementStatus
  invalid_nonce invalid_signature unknown : SettlementStatus

-- A VoucherSettled event of the contract that parses.
pub record VoucherSettled : Type 0 where
  pub user : Address
  pub nonce : ℕ
  pub status : SettlementStatus

pub record Receipt : Type 0 where
  pub reverted : Bool  -- Status == 0
  pub logs : List VoucherSettled

-- What the node answers while the fate is looked up once: the receipt, the confirmed account nonce,
-- and the receipt asked for again; and the contract's preview of vouchers.
pub record Poll : Type 0 where
  pub receipt : Option Receipt
  pub confirmed : Option ℕ
  pub receipt_again : Option Receipt
  pub preview : List SandboxVoucher → Option (List SettlementStatus)

pub data TxFate : Type 0 where
  tx_pending tx_dropped : TxFate
  tx_mined : Receipt → TxFate

-- The second half of `ResolveTxFate`, without a receipt at first.
unfoldable pub fate_by_nonce : Poll → ℕ → Option ℕ → TxFate
fate_by_nonce poll account_nonce none = tx_pending
fate_by_nonce poll account_nonce (some confirmed) =
    if ltb account_nonce confirmed
    then elim poll.receipt_again [ some r ↦ tx_mined r | none ↦ tx_dropped ]
    else tx_pending

-- `ResolveTxFate`; an error of it comes with `TxPending`.
unfoldable pub resolve_tx_fate : Poll → ℕ → TxFate
unfolding fate_by_nonce
resolve_tx_fate poll account_nonce = elim poll.receipt [
  | some r ↦ tx_mined r
  | none ↦ fate_by_nonce poll account_nonce poll.confirmed
]

-- The keys of `fromEvent`: a later event of one key overwrites an earlier one.
unfoldable pub from_event : Address → Option ℕ → List VoucherSettled → Option SettlementStatus
from_event user number [] = none
from_event user number (ev ∷ evs) =
    let later = from_event user number evs in
    elim later [
      | some st ↦ some st
      | none ↦ elim number [
        | none ↦ none
        | some n ↦ if ev.user == user && ev.nonce == n then some ev.status else none
      ]
    ]

-- Steps 2 and 3: the vouchers with no event, and their statuses from the preview, in order.
unfoldable pub missing_vouchers : Receipt → List SandboxVoucher → List SandboxVoucher
missing_vouchers r [] = []
missing_vouchers r (v ∷ vs) = elim (from_event v.user v.nonce r.logs) [
  | some _ ↦ missing_vouchers r vs
  | none ↦ v ∷ missing_vouchers r vs
]

-- The statuses of a batch, those without an event from a preview. A preview that is too short, where
-- the code's index is out of range, counts as one that cannot be read.
unfoldable pub fill_statuses :
    Receipt → List SandboxVoucher → List SettlementStatus → Option (List SettlementStatus)
fill_statuses r [] fallback = some []
fill_statuses r (v ∷ vs) fallback = elim (from_event v.user v.nonce r.logs) [
  | some st ↦ elim (fill_statuses r vs fallback) [ none ↦ none | some sts ↦ some (st ∷ sts) ]
  | none ↦ elim fallback [
    | [] ↦ none
    | st ∷ rest ↦ elim (fill_statuses r vs rest) [ none ↦ none | some sts ↦ some (st ∷ sts) ]
  ]
]

-- What `SettleStatusesFromReceipt` returns.
pub data Extraction : Type 0 where
  reverted unreadable : Extraction
  statuses : List SettlementStatus → Extraction

abbrev pub extracted : Option (List SettlementStatus) → Extraction
extracted none = unreadable
extracted (some sts) = statuses sts

unfoldable pub settle_statuses_from_receipt : Poll → Receipt → List SandboxVoucher → Extraction
settle_statuses_from_receipt poll r vs =
    let missing = missing_vouchers r vs in
    if r.reverted
    then Extraction.reverted
    else if ltb 0 (length missing)
    then (elim (poll.preview missing) [
      | none ↦ unreadable
      | some fallback ↦ extracted (fill_statuses r vs fallback)
    ])
    else extracted (fill_statuses r vs [])
