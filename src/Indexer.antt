-- ===== src/Indexer.antt =====
-- The index of providers: internal/indexer/indexer.go. What the chain and Redis answer during one round
-- is given; addresses, and their texts in any letter case, are numbers. UpdatedAt is left out.
pub mod Rounds
use Prim.Native.String.{String}
use package.text.Mathlib.Text.{◌==◌ as str_eq}
use g_sandbox.Base.{
  ℕ, zero, suc, ◌+◌, ◌/◌, Bool, true, false, ◌&&◌, not, Option, none, some, List, [], ◌∷◌, ltb,
  if◌then◌else◌,
}
use g_sandbox.Base.Assoc.{lookup, insert, erase}
use g_sandbox.Voucher.{Address}

-- `ServiceInfo` of internal/chain/client.go
pub record ServiceInfo : Type 0 where
  pub url : String
  pub app_id : String
  pub price_per_cpu_per_min : ℕ
  pub price_per_mem_gb_per_min : ℕ
  pub create_fee : ℕ

-- `ProviderRecord`
pub record ProviderRecord : Type 0 where
  pub address : Address
  pub url : String
  pub app_id : String
  pub price_per_cpu_per_min : ℕ
  pub price_per_cpu_per_sec : ℕ
  pub price_per_mem_gb_per_min : ℕ
  pub price_per_mem_gb_per_sec : ℕ
  pub create_fee : ℕ
  pub last_block : ℕ

abbrev pub Records : Type 0
Records = List (Address × ProviderRecord)

-- A ServiceUpdated event: its provider and its block.
abbrev pub ProviderEvent : Type 0
ProviderEvent = Address × ℕ

-- The store, and in Redis the cached records and the last block.
pub record Index : Type 0 where
  pub store : Records
  pub cache : Records
  pub last_block : Option ℕ

-- What a round meets. `none` is an error, and for `service_info` also that there is no service.
pub record Round : Type 0 where
  pub events : ℕ → Option (List ProviderEvent × ℕ)
  pub service_info : Address → Option ServiceInfo
  pub is_active : Address → Option Bool  -- in `sync`
  pub is_active_again : Address → Option Bool  -- in `revalidate`
  pub get_ok : Bool  -- whether Redis answers the GET of the last block
  pub set_ok : Address → Bool
  pub del_ok : Address → Bool
  pub save_ok : Bool

-- `isLiveProvider`
unfoldable pub is_live : (Address → Option Bool) → String → Address → Bool
is_live is_active app_id provider =
    if str_eq app_id "" then false else elim (is_active provider) [ none ↦ true | some live ↦ live ]

-- `removeProvider`
unfoldable pub remove_provider : Round → Address → Index → Index
remove_provider r k x = record x {
  store = erase k x.store;
  cache = if r.del_ok k then erase k x.cache else x.cache;
}

-- The loop of `revalidate`, over the records at its start.
unfoldable pub revalidate_each : Round → Records → Index → Index
revalidate_each r [] x = x
revalidate_each r ((k, p) ∷ ps) x =
    revalidate_each r ps (if is_live r.is_active_again p.app_id k then x else remove_provider r k x)

-- `revalidate`
unfoldable pub revalidate : Round → Index → Index
revalidate r x = revalidate_each r x.store x

-- `LoadFromRedis`, of the cached records that are read.
unfoldable pub load : Records → Records → Records
load [] store = store
load ((k, p) ∷ ps) store = load ps (insert p.address p store)

-- The latest block of each provider among the events.
unfoldable pub latest_of : List ProviderEvent → List (Address × ℕ) → List (Address × ℕ)
latest_of [] latest = latest
latest_of ((k, block) ∷ evs) latest = latest_of evs (
    if (elim (lookup k latest) [ none ↦ true | some prev ↦ ltb prev block ])
    then insert k block latest
    else latest)

unfoldable pub record_of : Address → ℕ → ServiceInfo → ProviderRecord
record_of k block info = record {
  address = k;
  url = info.url;
  app_id = info.app_id;
  price_per_cpu_per_min = info.price_per_cpu_per_min;
  price_per_cpu_per_sec = info.price_per_cpu_per_min / 60;
  price_per_mem_gb_per_min = info.price_per_mem_gb_per_min;
  price_per_mem_gb_per_sec = info.price_per_mem_gb_per_min / 60;
  create_fee = info.create_fee;
  last_block = block;
}

-- The store of a record, and `persistProvider`.
unfoldable pub keep_provider : Round → Address → ProviderRecord → Index → Index
keep_provider r k p x = record x {
  store = insert k p x.store;
  cache = if r.set_ok k then insert k p x.cache else x.cache;
}

-- The body of the loop of `sync`.
unfoldable pub refresh : Round → Address → ℕ → Option ServiceInfo → Index → Index
refresh r k block none x = x
refresh r k block (some info) x =
    if is_live r.is_active info.app_id k
    then keep_provider r k (record_of k block info) x
    else remove_provider r k x

unfoldable pub refresh_each : Round → List (Address × ℕ) → Index → Index
refresh_each r [] x = x
refresh_each r ((k, block) ∷ ks) x = refresh_each r ks (refresh r k block (r.service_info k) x)

-- `saveLastBlock`, unless the block is 0
unfoldable pub save_last_block : Round → ℕ → Index → Index
save_last_block r zero x = x
save_last_block r (suc n) x = if r.save_ok then record x { last_block = some (suc n) } else x

-- `lastBlock`
unfoldable pub last_block : Round → Index → ℕ
last_block r x = if r.get_ok then (elim x.last_block [ none ↦ 0 | some n ↦ n ]) else 0

-- `sync`
unfoldable pub sync : Round → Index → Index
sync r x = elim (r.events (last_block r x + 1)) [
  | none ↦ x
  | some (evs, latest) ↦ save_last_block r latest (refresh_each r (latest_of evs []) x)
]

-- One round of `Run`.
unfoldable pub round : Round → Index → Index
round r x = revalidate r (sync r x)

-- `Get`
unfoldable pub get : Address → Index → Option ProviderRecord
get k x = lookup k x.store
