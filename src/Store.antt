-- ===== src/Store.antt =====
-- The Redis keys of one provider's deployment, the stop channel and the alerts raised, as one state,
-- and the actions on it. A Redis command may fail: `faults` says which ones do, the next one first,
-- and when it is used up all commands succeed.
mod State
pub mod Maps
mod Rules
pub mod Keeps
unfoldable pub use State.*
pub use Rules.*
pub use Maps.{put, put₂, put_self, put_ne}
use g_sandbox.Base.{
  ℕ, ◌≡◌, Bool, true, false, ◌||◌, Option, none, some, List, [], ◌∷◌, ◌++◌, ◌==◌, if◌then◌else◌,
  take, length, ltb,
}
use g_sandbox.Voucher.{Address, SandboxId, Raw}

-- `Push` of internal/events/log.go; the message and the time are left out.
unfoldable pub push_event : Event → Action (Unit {0})
push_event e = do command; modify (λ s. record s { events = take max_events (e ∷ s.events) })

-- RPUSH to the voucher queue.
unfoldable pub push_queue : Raw → Action (Unit {0})
push_queue raw = do command; modify (λ s. record s { queue = s.queue ++ raw ∷ [] })

-- LPUSH to the voucher queue.
unfoldable pub push_front : Raw → Action (Unit {0})
push_front raw = do command; modify (λ s. record s { queue = raw ∷ s.queue })

-- `Notify`: what it does with the call is its own, here the calls are kept.
unfoldable pub notify : Alert → Action (Unit {0})
notify a = modify (λ s. record s { alerts = a ∷ s.alerts })

-- The stop marker stop:sandbox:<id>.
unfoldable pub find_stop : SandboxId → List StopSignal → Option Reason
find_stop id [] = none
find_stop id (m ∷ ms) = if id == m.sandbox_id then some m.reason else find_stop id ms

unfoldable pub delete_stop : SandboxId → List StopSignal → List StopSignal
delete_stop id [] = []
delete_stop id (m ∷ ms) = if id == m.sandbox_id then delete_stop id ms else m ∷ delete_stop id ms

-- The session billing:compute:<id>, under its key.
abbrev pub Sessions : Type 0
Sessions = List (SandboxId × Session)

unfoldable pub find_session : SandboxId → Sessions → Option Session
find_session id [] = none
find_session id ((key, s) ∷ ss) = if id == key then some s else find_session id ss

unfoldable pub delete_key : SandboxId → Sessions → Sessions
delete_key id [] = []
delete_key id ((key, s) ∷ ss) = if id == key then delete_key id ss else (key, s) ∷ delete_key id ss

-- HSET of all fields: the hash is made or overwritten.
unfoldable pub set_session : Session → Sessions → Sessions
set_session x [] = (x.sandbox_id, x) ∷ []
set_session x ((key, s) ∷ ss) =
    if x.sandbox_id == key then (key, x) ∷ ss else (key, s) ∷ set_session x ss

-- What is read back of a hash with no field but next_voucher_at.
abbrev pub bare_session : ℕ → Session
bare_session t = record {
  sandbox_id = 0;
  owner = 0;
  provider = 0;
  next_voucher_at = t;
  price_per_sec = none;
}

-- HSET of next_voucher_at alone: under a key that is gone it makes a hash with that field only.
unfoldable pub set_next_voucher_at : SandboxId → ℕ → Sessions → Sessions
set_next_voucher_at id t [] = (id, bare_session t) ∷ []
set_next_voucher_at id t ((key, s) ∷ ss) =
    if id == key
    then (key, record s { next_voucher_at = t }) ∷ ss
    else (key, s) ∷ set_next_voucher_at id t ss
