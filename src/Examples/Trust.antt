-- ===== src/Examples/Trust.antt =====
-- The path guard, the relay, the index, the identities and the digest at concrete inputs.
use g_sandbox.Base.{
  ℕ, ◌%◌, ◌^◌, ◌==◌, ◌<◌, ◌≡◌, ◌≢◌, refl, ◌↔◌, ◌⊎◌, true, false, ◌&&◌, ltb, none, some, List, [],
  ◌∷◌, length, arith, if◌then◌else◌,
}
use g_sandbox.Base.Assoc.{Distinct}
use g_sandbox.Voucher.{Address, SandboxVoucher, Hashing}
use g_sandbox.Voucher.Digest.{
  hash_voucher, encode_message, encode_domain, domain_separator, fill_bytes,
}
use g_sandbox.Voucher.Digest.Binds.{IsSized, Collides, message_text, struct_text, hash_voucher-inj}
use g_sandbox.Proxy.PathGuard.{Bytes, passes}
use g_sandbox.Proxy.PathGuard.Canonical.{IsSafe, passes-IsSafe}
use g_sandbox.Broker.Relay.{v4, RelayRequest}
use g_sandbox.Indexer.{ServiceInfo, ProviderEvent, Index, Round, last_block, round, get}
use g_sandbox.Indexer.Rounds.{newest, refreshed, checked, round_lem}
use g_sandbox.Identity.{
  Windows, OwnerCall, resolve_owner, after_calls, younger, fetched, AppIdentity, Attestor,
  IdentityCall, current, after_current, authorize_found, authorize, discovered, cached_for, pinned,
  store_instance,
}
use g_sandbox.Identity.Owners.{Recent, resolve_owner-Recent}
use g_sandbox.Identity.Pinned.{current-Accepted_once}

-- "a/b/", behind the first slash.
abbrev short_path : Bytes
short_path = 97 ∷ 47 ∷ 98 ∷ 47 ∷ []

passes-IsSafe_example :
    (passes short_path (47 ∷ short_path) ≡ true) ↔ IsSafe short_path (47 ∷ short_path)
passes-IsSafe_example = passes-IsSafe short_path (47 ∷ short_path)

-- The first address is private, the second one is tried next.
abbrev relayed : RelayRequest
relayed = record {
  has_loop_header = false;
  target = some (some (record { scheme = "https"; hostname = "provider.example" }));
  attempts =
      record { ip = some (v4 10 0 0 1); connects = true }
      ∷ record { ip = some (v4 8 8 4 4); connects = true }
      ∷ [];
}

-- Provider 9 has two events, and its service is still there; that of provider 8 cannot be read.
abbrev service : ServiceInfo
service = record {
  url = "https://provider.example";
  app_id = "app";
  price_per_cpu_per_min = 120;
  price_per_mem_gb_per_min = 61;
  create_fee = 5;
}

abbrev meets : Round
meets = record {
  events = λ from. some ((9, 7) ∷ (8, 7) ∷ (9, 6) ∷ [], 10);
  service_info = λ p. if p == 9 then some service else none;
  is_active = λ p. some true;
  is_active_again = λ p. none;
  get_ok = true;
  set_ok = λ p. true;
  del_ok = λ p. true;
  save_ok = true;
}

abbrev indexed : Index
indexed = record { store = []; cache = []; last_block = some 4 }

abbrev provider_events : List ProviderEvent
provider_events = (9, 7) ∷ (8, 7) ∷ (9, 6) ∷ []

round_lem_example :
    (get 9 (round meets indexed)
      ≡ checked meets 9 (refreshed meets 9 (newest 9 provider_events) (get 9 indexed)))
    × Distinct (round meets indexed).store
    × ((round meets indexed).last_block ≡ (if true && ltb 0 10 then some 10 else some 4))
unfolding last_block
round_lem_example = round_lem meets indexed 9 provider_events 10 tt refl

abbrev windows : Windows
windows = record { ttl = 15; stale_cap = 600; retry_every = 5; has_name = true }

-- The owner was looked up at 100; at 300 the lookup fails.
abbrev looked_up : List OwnerCall
looked_up = record { now = 99; later = 100; owner = some 7 } ∷ []

abbrev failing : OwnerCall
failing = record { now = 299; later = 300; owner = none }

resolve_owner-Recent_example : Recent windows (failing ∷ looked_up) failing 7
unfolding resolve_owner after_calls younger fetched
resolve_owner-Recent_example = resolve_owner-Recent windows looked_up failing 7 (omega arith) refl

abbrev identity : AppIdentity
identity = record { registered_at = 50; signer = 3; expires_at = 5000 }

abbrev fresh_attestor : Attestor
fresh_attestor = record { cached = none; stored = none }

abbrev identity_call : IdentityCall
identity_call = record {
  min_lease = 60;
  now = 1000;
  discovery = some identity;
  discovered_at = 1001;
  live = some (50, 7);
  setnx_ok = true;
  get_ok = true;
  done_at = 1002;
}

-- In between, the app is registered again by another owner.
current-Accepted_once_example :
    (owner : Address) × (owner ≢ 0)
    × (identity_call.live ≡ some (identity.registered_at, owner))
    × (identity_call.live ≡ some (identity.registered_at, owner))
    × (identity.registered_at ≡ identity.registered_at)
    × (identity_call.done_at < identity.expires_at)
    × (identity_call.done_at < identity.expires_at)
unfolding current after_current authorize_found authorize discovered cached_for pinned
    store_instance
current-Accepted_once_example =
    current-Accepted_once none fresh_attestor identity_call identity_call
      (record identity_call { live = some (60, 8) } ∷ []) identity identity refl refl

abbrev summing : Hashing
summing = record { keccak = λ bytes. length bytes % 2 ^ 256; id_bytes = λ id. id ∷ [] }

abbrev paid : SandboxVoucher
paid = record {
  sandbox_id = 5;
  user = 1;
  provider = 9;
  total_fee = some 10;
  usage_hash = 0;
  nonce = some 4;
  signature = none;
  aggregated = false;
}

abbrev paid_IsSized : IsSized paid
paid_IsSized = record {
  user_size = omega arith;
  provider_size = omega arith;
  usage_size = omega arith;
}

-- A signature does not count for the digest.
abbrev signed : SandboxVoucher
signed = record paid { signature = some 77 }

abbrev signed_IsSized : IsSized signed
signed_IsSized = record {
  user_size = omega arith;
  provider_size = omega arith;
  usage_size = omega arith;
}

hash_voucher-inj_example :
    (◌≡◌ {A = ℕ} 1 1
      × ◌≡◌ {A = ℕ} 2 2
      × (paid.user ≡ signed.user)
      × (paid.provider ≡ signed.provider)
      × (paid.usage_hash ≡ signed.usage_hash)
      × (paid.nonce ≡ signed.nonce)
      × (paid.total_fee ≡ signed.total_fee))
    ⊎ Collides summing (message_text summing 1 2 paid) (message_text summing 1 2 signed)
    ⊎ Collides summing (encode_domain summing 1 2) (encode_domain summing 1 2)
    ⊎ Collides summing (struct_text summing paid) (struct_text summing signed)
unfolding hash_voucher encode_message domain_separator fill_bytes
hash_voucher-inj_example =
    hash_voucher-inj summing 1 1 2 2 paid signed 66 (λ bs. omega arith) (omega arith) (omega arith)
      (omega arith) (omega arith) paid_IsSized signed_IsSized refl refl
