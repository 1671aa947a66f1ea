-- ===== src/Identity.antt =====
-- Whom the billing service trusts: the resolver of the app's owner in cmd/billing/main.go, whose answer
-- counts as an operator, and the attestor's identity in cmd/billing/attestor.go. What the chain, tapp
-- and Redis answer to one call is given, with the time before and after the lookup. Times are naturals.
pub mod Owners
pub mod Pinned
use g_sandbox.Base.{
  ℕ, ◌+◌, ◌-◌, Bool, true, false, ◌&&◌, ◌||◌, not, ◌==◌, ltb, leb, Option, none, some, List, [],
  ◌∷◌, is_some, if◌then◌else◌,
}
use g_sandbox.Voucher.{Address}

-- The windows of `newAppOwnerResolver`, and whether the app has a name.
pub record Windows : Type 0 where
  pub ttl : ℕ
  pub stale_cap : ℕ
  pub retry_every : ℕ
  pub has_name : Bool

-- What its closure keeps. `last_err` is whether there is an error.
pub record Resolver : Type 0 where
  pub cached : Option Address
  pub fetched_at : ℕ
  pub last_err : Bool
  pub last_try : ℕ

abbrev pub new_resolver : Resolver
new_resolver = record { cached = none; fetched_at = 0; last_err = false; last_try = 0 }

-- A call: `owner` is what `GetAppOwner` answers, `none` for an error, the zero address being 0.
pub record OwnerCall : Type 0 where
  pub now : ℕ
  pub later : ℕ
  pub owner : Option Address

-- The cached owner, if it is younger than that.
unfoldable pub younger : Resolver → ℕ → ℕ → Option Address
younger s now window =
    if is_some s.cached && ltb (now - s.fetched_at) window then s.cached else none

unfoldable pub fetched : Windows → Resolver → ℕ → Option Address → Option Address × Resolver
fetched w s later none =
    (younger s later w.stale_cap, record s { last_try = later; last_err = true })
fetched w s later (some owner) =
    let asked = record s { last_try = later; last_err = false } in
    if owner == 0
    then (none, asked)
    else (some owner, record asked { cached = some owner; fetched_at = later })

-- The resolver: an owner, or an error.
unfoldable pub resolve_owner : Windows → OwnerCall → Resolver → Option Address × Resolver
resolve_owner w c s =
    if is_some (younger s c.now w.ttl)
    then (s.cached, s)
    else if not w.has_name
    then (none, s)
    else if s.last_err && ltb (c.now - s.last_try) w.retry_every
    then (younger s c.now w.stale_cap, s)
    else fetched w s c.later c.owner

-- The state after some calls, the last of them first.
unfoldable pub after_calls : Windows → List OwnerCall → Resolver
after_calls w [] = new_resolver
after_calls w (c ∷ cs) = (resolve_owner w c (after_calls w cs)).1

-- `tee.AppIdentity`, what is used of it here.
pub record AppIdentity : Type 0 where
  pub registered_at : ℕ
  pub signer : Address
  pub expires_at : ℕ

-- A registration: its time and its owner, as an instance names it.
abbrev pub Instance : Type 0
Instance = ℕ × Address

-- `attestorIdentity`: the cached identity, and the instance that Redis stores.
pub record Attestor : Type 0 where
  pub cached : Option AppIdentity
  pub stored : Option Instance

-- What a call meets: the discovery, the registration on chain, and whether Redis answers.
pub record IdentityCall : Type 0 where
  pub min_lease : ℕ
  pub now : ℕ
  pub discovery : Option AppIdentity
  pub discovered_at : ℕ
  pub live : Option Instance
  pub setnx_ok : Bool
  pub get_ok : Bool
  pub done_at : ℕ

-- `cachedFor`
unfoldable pub cached_for : ℕ → ℕ → Attestor → Option AppIdentity
cached_for now min_lease s = elim s.cached [
  | none ↦ none
  | some i ↦ if ltb (now + min_lease) i.expires_at then some i else none
]

-- `discovered`, by one caller
unfoldable pub discovered :
    IdentityCall → Option AppIdentity → Attestor → Option AppIdentity × Attestor
discovered c (some i) s = (some i, s)
discovered c none s = elim c.discovery [
  | none ↦ (none, s)
  | some i ↦
      if ltb c.discovered_at i.expires_at then (some i, record s { cached = some i }) else (none, s)
]

-- SETNX, and GET
unfoldable pub store_instance : IdentityCall → Instance → Attestor → Attestor
store_instance c live s =
    if c.setnx_ok && not (is_some s.stored) then record s { stored = some live } else s

-- `pinned`
unfoldable pub pinned :
    Option Instance → IdentityCall → Instance → Attestor → Option Instance × Attestor
pinned (some a) c live s = (some a, s)
pinned none c live s =
    if not c.setnx_ok
    then (none, s)
    else let s' = store_instance c live s in (if c.get_ok then s'.stored else none, s')

abbrev pub same_instance : Instance → Instance → Bool
same_instance (t, a) (u, b) = t == u && a == b

-- The end of `Current`
unfoldable pub authorize :
    Option Instance
    → IdentityCall
    → AppIdentity
    → Option Instance
    → Attestor
    → Option AppIdentity × Attestor
authorize authorized c i none s = (none, s)
authorize authorized c i (some (time, owner)) s =
    if time == 0 || owner == 0 || not (time == i.registered_at)
    then (none, s)
    else let (pin, s') = pinned authorized c (time, owner) s in
      elim pin [
        | none ↦ (none, s')
        | some p ↦
            if same_instance p (time, owner) && ltb c.done_at i.expires_at
            then (some i, s')
            else (none, s')
      ]

unfoldable pub authorize_found :
    Option Instance → IdentityCall → Option AppIdentity → Attestor → Option AppIdentity × Attestor
authorize_found authorized c none s = (none, s)
authorize_found authorized c (some i) s = authorize authorized c i c.live s

-- `Current`
unfoldable pub current : Option Instance → IdentityCall → Attestor → Option AppIdentity × Attestor
current authorized c s =
    let (found, s') = discovered c (cached_for c.now c.min_lease s) s in
    authorize_found authorized c found s'

-- `IsAppSigner`, of a wallet that is an address
unfoldable pub is_app_signer :
    Option Instance → IdentityCall → Address → Attestor → Option Bool × Attestor
is_app_signer authorized c wallet s =
    let (found, s') = current authorized c s in
    (elim found [ none ↦ none | some i ↦ some (wallet == i.signer) ], s')

-- `storeAuthorized`, at the start
unfoldable pub store_authorized : Option Instance → Bool → Attestor → Attestor
store_authorized none set_ok s = s
store_authorized (some a) set_ok s = if set_ok then record s { stored = some a } else s

-- The state after some calls, the last of them first.
unfoldable pub after_current : Option Instance → List IdentityCall → Attestor → Attestor
after_current authorized [] s = s
after_current authorized (c ∷ cs) s = (current authorized c (after_current authorized cs s)).1
