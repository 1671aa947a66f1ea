-- ===== src/Broker.antt =====
-- The broker's sessions: internal/broker/session.go. The broker keeps its own Redis keys. The answers of
-- the chain, of the signature recovery and of the payment layer are given.
pub mod Post
pub mod Monitor
pub mod Relay
use Prim.Native.String.{String, ◌++◌}
use package.text.Mathlib.Text.{◌==◌ as str_eq}
use g_sandbox.Base.{
  ℕ, ◌+◌, ◌-◌, ◌*◌, ◌%◌, ◌^◌, Bool, true, false, ◌&&◌, ◌||◌, not, ◌==◌, Option, none, some, List,
  [], ◌∷◌, ltb, leb, if◌then◌else◌,
}
use g_sandbox.Voucher.{Address, SandboxId}

-- The anti-replay keys: a sandbox id, or the two addresses as they are spelled, and the start time. A
-- sandbox id holds no colon, so the two kinds of key differ.
pub data SeenKey : Type 0 where
  session_key : SandboxId → ℕ → SeenKey
  fund_key : String → ℕ → SeenKey

abbrev pub same_key : SeenKey → SeenKey → Bool
same_key (session_key a t) (session_key b u) = a == b && t == u
same_key (fund_key a t) (fund_key b u) = str_eq a b && t == u
same_key _ _ = false

abbrev pub has_key : SeenKey → List SeenKey → Bool
has_key k [] = false
has_key k (j ∷ js) = same_key k j || has_key k js

-- `SessionEntry`, without the time of registration.
pub record SessionEntry : Type 0 where
  pub sandbox_id : SandboxId
  pub user : Address
  pub provider : Address
  pub cpu : ℕ
  pub mem_gb : ℕ
  pub price_per_sec : ℕ
  pub voucher_interval_sec : ℕ

-- A call of `RequestDeposit`.
pub record Deposit : Type 0 where
  pub user : Address
  pub provider : Address
  pub amount : ℕ

pub record Broker : Type 0 where
  pub seen : List SeenKey
  pub sessions : List (SandboxId × SessionEntry)
  pub deposits : List Deposit  -- the last first

-- `postSessionReq`; the numbers are int64, not negative. The sandbox id 0 is the empty text. Of an
-- address there is the text that was sent, in lower case, and what `HexToAddress` makes of it: many
-- texts are one address.
pub record PostSessionReq : Type 0 where
  pub sandbox_id : SandboxId
  pub provider_addr : String
  pub user_addr : String
  pub provider : Address
  pub user : Address
  pub cpu : ℕ
  pub mem_gb : ℕ
  pub start_time : ℕ
  pub voucher_interval_sec : ℕ

-- The prices of a service; a nil create fee is `none`.
pub record Pricing : Type 0 where
  pub per_cpu : ℕ
  pub per_mem_gb : ℕ
  pub create_fee : Option ℕ

-- What one request meets. `none` is an error, or no entry.
pub record PostCall : Type 0 where
  pub request : Option PostSessionReq
  pub app_is_bound : Option Bool  -- the indexer's record of the provider
  pub sig_decodes : Bool
  pub signer : Option Address
  pub is_active : Option Bool
  pub now : ℕ
  pub exists_ok : Bool  -- whether Redis answers EXISTS
  pub pricing : Option (Option Pricing)  -- `some none` without a service
  pub balance : Option ℕ
  pub deposit_ok : Bool
  pub polls : List (Option ℕ)  -- the balances of `waitForBalance`
  pub set_ok : Bool  -- whether Redis takes the anti-replay key
  pub entry_ok : Bool  -- whether Redis takes the session

abbrev pub is_fresh : ℕ → ℕ → Bool
is_fresh now start = leb now (start + 300) && leb start (now + 300)

abbrev pub seen_key : PostSessionReq → SeenKey
seen_key q =
    if q.sandbox_id == 0
    then fund_key (q.provider_addr ++ ":" ++ q.user_addr) q.start_time
    else session_key q.sandbox_id q.start_time

-- Steps 1 to 3 of `HandlePost`: the status of a refusal.
unfoldable pub refusal : PostCall → PostSessionReq → List SeenKey → Option ℕ
refusal c q seen = elim c.app_is_bound [
  | none ↦ some 403
  | some bound ↦ if not c.sig_decodes then some 400 else elim c.signer [
    | none ↦ some 401
    | some signer ↦
        if not bound
        then some 403
        else if not (signer == q.provider)
        then some 401
        else if not (elim c.is_active [ none ↦ false | some active ↦ active ])
        then some 401
        else if not (is_fresh c.now q.start_time)
        then some 401
        else if c.exists_ok && has_key (seen_key q) seen
        then some 409
        else none
  ]
]

-- The spec, or the least one.
abbrev pub spec_of : PostSessionReq → ℕ × ℕ
spec_of q = if q.cpu == 0 && q.mem_gb == 0 then (1, 1) else (q.cpu, q.mem_gb)

abbrev pub price_per_sec : Pricing → PostSessionReq → ℕ
price_per_sec p q = p.per_cpu * (spec_of q).0 + p.per_mem_gb * (spec_of q).1

-- What the balance must reach, and zero where that is negative: the product of the two intervals is an
-- int64, and wraps.
unfoldable pub needed : ℕ → Pricing → PostSessionReq → ℕ
needed topup_intervals p q =
    let seconds = q.voucher_interval_sec * topup_intervals % 2 ^ 64 in
    let fee = if q.sandbox_id == 0 then elim p.create_fee [ none ↦ 0 | some f ↦ f ] else 0 in
    if ltb seconds (2 ^ 63)
    then price_per_sec p q * seconds + fee
    else fee - price_per_sec p q * (2 ^ 64 - seconds)

-- `waitForBalance`, over the balances polled until the timeout.
unfoldable pub wait_for_balance : ℕ → List (Option ℕ) → Bool
wait_for_balance amount [] = false
wait_for_balance amount (none ∷ bs) = wait_for_balance amount bs
wait_for_balance amount (some b ∷ bs) = leb amount b || wait_for_balance amount bs

-- The reply: its status, and on success the amount funded.
pub record PostReply : Type 0 where
  pub status : ℕ
  pub amount_funded : Option ℕ

abbrev pub reply : ℕ → PostReply
reply status = record { status = status; amount_funded = none }

unfoldable pub delete_entry :
    SandboxId → List (SandboxId × SessionEntry) → List (SandboxId × SessionEntry)
delete_entry id [] = []
delete_entry id ((key, e) ∷ es) =
    let rest = delete_entry id es in if id == key then rest else (key, e) ∷ rest

-- Step 7: the anti-replay key, and the session; errors are ignored.
unfoldable pub register : PostCall → PostSessionReq → Pricing → Broker → Broker
register c q p s = record s {
  seen = if c.set_ok then seen_key q ∷ s.seen else s.seen;
  sessions =
      if not (q.sandbox_id == 0) && c.entry_ok
      then (
        q.sandbox_id,
        record {
          sandbox_id = q.sandbox_id;
          user = q.user;
          provider = q.provider;
          cpu = (spec_of q).0;
          mem_gb = (spec_of q).1;
          price_per_sec = price_per_sec p q;
          voucher_interval_sec = q.voucher_interval_sec;
        },
      )
        ∷ delete_entry q.sandbox_id s.sessions
      else s.sessions;
}

-- Step 6, for a deficit.
unfoldable pub fund : PostCall → PostSessionReq → Pricing → ℕ → ℕ → Broker → PostReply × Broker
fund c q p amount deficit s =
    let asked = record s {
      deposits = record { user = q.user; provider = q.provider; amount = deficit } ∷ s.deposits;
    } in
    if not c.deposit_ok
    then (reply 502, asked)
    else if not (wait_for_balance amount c.polls)
    then (reply 504, asked)
    else (record { status = 200; amount_funded = some deficit }, register c q p asked)

-- Steps 4 to 7. Nil prices make the multiplication panic, which is answered with 500.
unfoldable pub serve :
    ℕ → PostCall → PostSessionReq → Option (Option Pricing) → Option ℕ → Broker → PostReply × Broker
serve topup c q none balance s = (reply 502, s)
serve topup c q (some none) balance s = (reply 500, s)
serve topup c q (some (some p)) none s = (reply 502, s)
serve topup c q (some (some p)) (some balance) s =
    if ltb balance (needed topup p q)
    then fund c q p (needed topup p q) (needed topup p q - balance) s
    else (record { status = 200; amount_funded = some 0 }, register c q p s)

unfoldable pub post_request : ℕ → PostCall → Option PostSessionReq → Broker → PostReply × Broker
post_request topup c none s = (reply 400, s)
post_request topup c (some q) s = elim (refusal c q s.seen) [
  | some status ↦ (reply status, s)
  | none ↦ serve topup c q c.pricing c.balance s
]

-- `HandlePost`
unfoldable pub handle_post : ℕ → PostCall → Broker → PostReply × Broker
handle_post topup c s = post_request topup c c.request s

-- `deleteSessionReq`, with what one request meets.
pub record DeleteCall : Type 0 where
  pub sandbox_id : SandboxId
  pub timestamp : Option ℕ  -- `none` if the body does not bind
  pub get_ok : Bool
  pub app_is_bound : Option Bool
  pub sig_decodes : Bool
  pub signer : Option Address
  pub is_active : Option Bool
  pub now : ℕ
  pub del_ok : Bool

unfoldable pub find_entry : SandboxId → List (SandboxId × SessionEntry) → Option SessionEntry
find_entry id [] = none
find_entry id ((key, e) ∷ es) = let rest = find_entry id es in if id == key then some e else rest

-- The checks of `HandleDelete` for a session that is there: the status of a refusal.
unfoldable pub delete_refusal : DeleteCall → ℕ → SessionEntry → Option ℕ
delete_refusal c timestamp e = elim c.app_is_bound [
  | none ↦ some 403
  | some bound ↦ if not c.sig_decodes then some 400 else elim c.signer [
    | none ↦ some 401
    | some signer ↦
        if not bound
        then some 403
        else if not (signer == e.provider)
        then some 401
        else if not (elim c.is_active [ none ↦ false | some active ↦ active ])
        then some 401
        else if is_fresh c.now timestamp
        then none
        else some 401
  ]
]

unfoldable pub delete_found : DeleteCall → ℕ → Option SessionEntry → Broker → ℕ × Broker
delete_found c timestamp none s = (404, s)
delete_found c timestamp (some e) s = elim (delete_refusal c timestamp e) [
  | some status ↦ (status, s)
  | none ↦ (
    200,
    record s { sessions = if c.del_ok then delete_entry c.sandbox_id s.sessions else s.sessions },
  )
]

unfoldable pub delete_bound : DeleteCall → Option ℕ → Broker → ℕ × Broker
delete_bound c none s = (400, s)
delete_bound c (some timestamp) s =
    delete_found c timestamp (if c.get_ok then find_entry c.sandbox_id s.sessions else none) s

-- `HandleDelete`
unfoldable pub handle_delete : DeleteCall → Broker → ℕ × Broker
handle_delete c s = delete_bound c c.timestamp s
