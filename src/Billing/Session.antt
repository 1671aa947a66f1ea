-- ===== src/Billing/Session.antt =====
-- internal/billing/session.go: the billing sessions in Redis.
use g_sandbox.Base.{ℕ, ◌≡◌, Option, none, some, List, [], ◌∷◌, arith, ◌==◌, if◌then◌else◌}
use g_sandbox.Voucher.{SandboxId}
use g_sandbox.Store.{
  Session, Sessions, Action, ◌>>=◌, ◌>>◌, pure, gets, modify, command, try, find_session,
  delete_key, set_session, set_next_voucher_at,
}

-- `CreateSession`
unfoldable pub create_session : Session → Action (Unit {0})
create_session x = do command; modify (λ s. record s { sessions = set_session x s.sessions })

-- `GetSession`
unfoldable pub get_session : SandboxId → Action (Option Session)
get_session id = do command; gets (λ s. find_session id s.sessions)

-- `UpdateNextVoucherAt`
unfoldable pub update_next_voucher_at : SandboxId → ℕ → Action (Unit {0})
update_next_voucher_at id t = do
  command
  modify (λ s. record s { sessions = set_next_voucher_at id t s.sessions })

-- `DeleteSession`
unfoldable pub delete_session : SandboxId → Action (Unit {0})
delete_session id = do command; modify (λ s. record s { sessions = delete_key id s.sessions })

-- HGETALL of each key of a page; a key that cannot be read is left out.
unfoldable pub read_keys : Sessions → Action (List Session)
read_keys [] = pure []
read_keys ((key, x) ∷ keys) = do
  answer ← try command
  rest ← read_keys keys
  pure (elim answer [ none ↦ rest | some _ ↦ x ∷ rest ])

-- `ScanAllSessions`, with the keys in one page.
unfoldable pub scan_all_sessions : Action (List Session)
scan_all_sessions = do command; keys ← gets (λ s. s.sessions); read_keys keys

-- What a lookup finds once a key is gone, written or advanced.
pub find_session-delete_key :
    (j id : SandboxId) (m : Sessions)
    → find_session j (delete_key id m) ≡ (if j == id then none else find_session j m)
unfolding find_session delete_key
find_session-delete_key j id [] = ground arith
find_session-delete_key j id ((key, x) ∷ m) = ground (arith, find_session-delete_key j id m)

pub find_session-set_session :
    (j : SandboxId) (x : Session) (m : Sessions)
    → find_session j (set_session x m) ≡ (if j == x.sandbox_id then some x else find_session j m)
unfolding find_session set_session
find_session-set_session j x [] = ground arith
find_session-set_session j x ((key, y) ∷ m) = ground (arith, find_session-set_session j x m)

pub find_session-set_next :
    (id : SandboxId) (t : ℕ) (x : Session) (m : Sessions)
    → find_session id m ≡ some x
    → find_session id (set_next_voucher_at id t m) ≡ some (record x { next_voucher_at = t })
unfolding find_session set_next_voucher_at
find_session-set_next id t x [] h = ground arith
find_session-set_next id t x ((key, y) ∷ m) h = ground (arith, find_session-set_next id t x m)
