-- ===== src/Examples.antt =====
-- Runs of the model, and the theorems applied to them.
mod Split
mod Rounds
mod Accounts
mod Gates
mod Services
mod Monitors
mod Trust
mod Registries
mod Snapshots
mod Imports
mod Listings
use g_sandbox.Base.{ℕ, Bool, true, Option, none, some, List, [], ◌∷◌, length}
use g_sandbox.Voucher.{Address, SandboxId, SandboxVoucher, Raw, json, malformed, Hashing, Choice}
use g_sandbox.Store.{Store, Session}
use g_sandbox.Billing.Price.{EventHandler}
use g_sandbox.Billing.Signer.{Signing}

-- Users 1 and 2, provider 9, sandboxes 5, 6 and 7.
abbrev voucher : Address → SandboxId → ℕ → SandboxVoucher
voucher user id fee = record {
  sandbox_id = id;
  user = user;
  provider = 9;
  total_fee = some fee;
  usage_hash = 0;
  nonce = none;
  signature = none;
  aggregated = Bool.false;
}

abbrev hashing : Hashing
hashing = record { keccak = λ bytes. length bytes; id_bytes = λ id. id ∷ [] }

abbrev signing : Signing
signing = record { get_last_nonce = λ u p. some 4; signature_of = λ v. some 77 }

abbrev everything : Choice
everything u p id = true

abbrev queued : List Raw
queued =
    json (voucher 1 5 10)
    ∷ json (voucher 2 7 3)
    ∷ malformed 0
    ∷ json (voucher 1 6 20)
    ∷ json (voucher 1 5 30)
    ∷ []

abbrev empty_store : Store
empty_store = record {
  queue = [];
  held = λ u p. [];
  held_users = λ p. [];
  dlq = λ p. [];
  nonces = λ u p. none;
  reserved = λ u p. none;
  sessions = [];
  stops = [];
  pending = none;
  events = [];
  stop_ch = [];
  stop_cap = 1;
  alerts = [];
  faults = [];
  arrivals = [];
}

abbrev busy : Store
busy = record empty_store { queue = queued }

abbrev handler : EventHandler
handler = record {
  provider_address = 9;
  compute_price_per_sec = 2;
  price_per_cpu_per_sec = 0;
  price_per_mem_gb_per_sec = 0;
  create_fee = 100;
  voucher_interval_sec = 60;
}

-- Due since 1000.
abbrev due_session : Session
due_session = record {
  sandbox_id = 5;
  owner = 1;
  provider = 9;
  next_voucher_at = 1000;
  price_per_sec = some 3;
}
