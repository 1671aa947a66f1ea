-- ===== src/Broker/Monitor.antt =====
-- The broker's low-balance monitor, internal/broker/monitor.go, and the markers of deposits on their
-- way, internal/broker/payment.go. The products of the intervals are taken to be int64. Go walks the
-- providers in any order; here it is that of the sessions.
pub mod Once
use g_sandbox.Base.{
  ℕ, ◌+◌, ◌-◌, ◌*◌, Bool, true, false, ◌&&◌, ◌||◌, not, ◌==◌, Option, none, some, List, [], ◌∷◌,
  mem, ltb, leb, if◌then◌else◌,
}
use g_sandbox.Voucher.{Address}
use g_sandbox.Broker.{SessionEntry, Deposit}

-- The markers of both kinds, and the deposits that the payment layer took, the last first.
pub record TopUps : Type 0 where
  pub inflight : List (Address × Address)
  pub backoff : List (Address × Address)
  pub deposits : List Deposit

abbrev pub has_pair : Address → Address → List (Address × Address) → Bool
has_pair user provider [] = false
has_pair user provider ((u, p) ∷ ps) = u == user && p == provider || has_pair user provider ps

unfoldable pub drop_pair : Address → Address → List (Address × Address) → List (Address × Address)
drop_pair user provider [] = []
drop_pair user provider ((u, p) ∷ ps) =
    let rest = drop_pair user provider ps in
    if u == user && p == provider then rest else (u, p) ∷ rest

-- What one tick meets; `none` is an error. `accepts` is whether the payment layer takes a deposit,
-- `answers` and `set_ok` whether Redis does.
pub record Tick : Type 0 where
  pub has_service : Address → Option Bool
  pub balances : Address → Option (List ℕ)
  pub accepts : Address → Address → Bool
  pub answers : Bool
  pub set_ok : Bool
  pub topup_intervals : ℕ
  pub threshold_intervals : ℕ

-- `IsInflightOrBackoff`: an error counts as no marker.
unfoldable pub is_inflight_or_backoff : Bool → Address → Address → TopUps → Bool
is_inflight_or_backoff answers user provider s =
    answers && (has_pair user provider s.inflight || has_pair user provider s.backoff)

-- `RequestDeposit` of the HTTP payment layer; `accepts` says that the deposit is taken and its reply
-- with an id is read. A deposit that is taken while its reply is lost is left out.
unfoldable pub request_deposit : Tick → Address → Address → ℕ → TopUps → TopUps
request_deposit t user provider amount s =
    if t.accepts user provider
    then record s {
      inflight = if t.set_ok then (user, provider) ∷ s.inflight else s.inflight;
      deposits = record { user = user; provider = provider; amount = amount } ∷ s.deposits;
    }
    else s

-- The answers to `pollDepositStatus`; `pending` is also an error or an unknown status.
pub data DepositStatus : Type 0 where
  success failed pending : DepositStatus

-- `pollDepositStatus`: a success takes the marker away, a failure or the timeout sets the backoff.
unfoldable pub poll_deposit_status : Address → Address → List DepositStatus → TopUps → TopUps
poll_deposit_status user provider (success ∷ ds) s = record s {
  inflight = drop_pair user provider s.inflight;
}
poll_deposit_status user provider (pending ∷ ds) s = poll_deposit_status user provider ds s
poll_deposit_status user provider (failed ∷ ds) s = record s {
  inflight = drop_pair user provider s.inflight;
  backoff = (user, provider) ∷ s.backoff;
}
poll_deposit_status user provider [] s = record s {
  inflight = drop_pair user provider s.inflight;
  backoff = (user, provider) ∷ s.backoff;
}

-- `appendUnique`
unfoldable pub append_unique : List Address → Address → List Address
append_unique [] a = a ∷ []
append_unique (b ∷ bs) a = let rest = append_unique bs a in if b == a then b ∷ bs else b ∷ rest

abbrev pub is_of : Address → Address → SessionEntry → Bool
is_of user provider e = e.user == user && e.provider == provider

-- The aggregates of `check`: the sum of the prices, and the longest interval.
unfoldable pub burn_rate : Address → Address → List SessionEntry → ℕ
burn_rate user provider [] = 0
burn_rate user provider (e ∷ es) =
    (if is_of user provider e then e.price_per_sec else 0) + burn_rate user provider es

unfoldable pub voucher_interval : Address → Address → List SessionEntry → ℕ
voucher_interval user provider [] = 0
voucher_interval user provider (e ∷ es) =
    let rest = voucher_interval user provider es in
    if is_of user provider e && ltb rest e.voucher_interval_sec
    then e.voucher_interval_sec
    else rest

unfoldable pub providers_of : List Address → List SessionEntry → List Address
providers_of known [] = known
providers_of known (e ∷ es) = providers_of (append_unique known e.provider) es

unfoldable pub users_of : Address → List Address → List SessionEntry → List Address
users_of provider known [] = known
users_of provider known (e ∷ es) =
    users_of provider (if e.provider == provider then append_unique known e.user else known) es

-- So many intervals of a pair's use.
abbrev pub use_of : List SessionEntry → Address → Address → ℕ → ℕ
use_of es user provider intervals =
    burn_rate user provider es * (voucher_interval user provider es * intervals)

-- The amount: what is missing, and all of it if nothing is.
abbrev pub deficit_of : ℕ → ℕ → ℕ
deficit_of topup balance = if ltb balance topup then topup - balance else topup

-- One user of a provider.
unfoldable pub check_user : Tick → List SessionEntry → Address → Address → ℕ → TopUps → TopUps
check_user t es provider user balance s =
    if leb (use_of es user provider t.threshold_intervals) balance
      || is_inflight_or_backoff t.answers user provider s
    then s
    else request_deposit t user provider
        (deficit_of (use_of es user provider t.topup_intervals) balance) s

-- The loop over the users and their balances.
unfoldable pub check_users :
    Tick → List SessionEntry → Address → List Address → List ℕ → TopUps → TopUps
check_users t es provider (user ∷ us) (balance ∷ bs) s =
    check_users t es provider us bs (check_user t es provider user balance s)
check_users t es provider _ _ s = s

-- One provider: without a service, or on an error, it is left out.
unfoldable pub check_provider :
    Tick → List SessionEntry → Address → Option Bool → Option (List ℕ) → TopUps → TopUps
check_provider t es provider (some true) (some bs) s =
    check_users t es provider (users_of provider [] es) bs s
check_provider t es provider _ _ s = s

unfoldable pub check_providers : Tick → List SessionEntry → List Address → TopUps → TopUps
check_providers t es [] s = s
check_providers t es (p ∷ ps) s =
    check_providers t es ps (check_provider t es p (t.has_service p) (t.balances p) s)

-- `check`, for the sessions loaded
unfoldable pub check : Tick → List SessionEntry → TopUps → TopUps
check t es s = check_providers t es (providers_of [] es) s
