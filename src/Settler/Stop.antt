-- ===== src/Settler/Stop.antt =====
-- `persistStop` and `stopAllSandboxesOf` of internal/settler/handler.go.
use g_sandbox.Base.{
  ℕ, ◌+◌, ◌≡◌, refl, true, not, ◌&&◌, ◌||◌, Option, none, some, List, [], ◌∷◌, ◌++◌, arith, ◌==◌,
  ltb, length, is_some, if◌then◌else◌,
}
use g_sandbox.Voucher.{Address, SandboxId}
use g_sandbox.Store.{
  Store, Session, Action, ◌>>=◌, ◌>>◌, pure, gets, modify, command, try, Reason,
  insufficient_balance, StopSignal, stop_signal, find_stop, next_ok,
}
use g_sandbox.Billing.Session.{scan_all_sessions}

-- The marker, and the signal if the channel has room.
unfoldable pub queue_stop : SandboxId → Reason → Store → Store
queue_stop id reason s =
    let signal = stop_signal id reason in
    record s {
      stops = s.stops ++ signal ∷ [];
      stop_ch = if ltb (length s.stop_ch) s.stop_cap then s.stop_ch ++ signal ∷ [] else s.stop_ch;
    }

-- `persistStop`: SETNX of the marker, and the signal only if the marker is new.
unfoldable pub persist_stop : SandboxId → Reason → Action (Unit {0})
persist_stop id reason = do
  command
  marker ← gets (λ s. find_stop id s.stops)
  elim marker [ some _ ↦ pure tt | none ↦ modify (queue_stop id reason) ]

-- The loop of `stopAllSandboxesOf`, with the number of stops so far.
unfoldable pub stop_sessions : Address → Address → List Session → ℕ → Action ℕ
stop_sessions user provider [] stopped = pure stopped
stop_sessions user provider (x ∷ xs) stopped =
    let skip = stop_sessions user provider xs stopped in
    if x.owner == user && x.provider == provider
    then (do
      done ← try (persist_stop x.sandbox_id insufficient_balance)
      stop_sessions user provider xs (elim done [ none ↦ stopped | some _ ↦ stopped + 1 ]))
    else skip

-- `stopAllSandboxesOf`, after the scan and as a whole.
unfoldable pub stop_scanned : Address → Address → Option (List Session) → Action ℕ
stop_scanned user provider none = pure 0
stop_scanned user provider (some xs) = stop_sessions user provider xs 0

unfoldable pub stop_all_sandboxes_of : Address → Address → Action ℕ
stop_all_sandboxes_of user provider = try scan_all_sessions >>= stop_scanned user provider

find_stop-append :
    (j : SandboxId) (m : StopSignal) (ms : List StopSignal)
    → find_stop j (ms ++ m ∷ []) ≡ (
        if is_some (find_stop j ms)
        then find_stop j ms
        else if j == m.sandbox_id
        then some m.reason
        else none)
unfolding find_stop
find_stop-append j m [] = refl
find_stop-append j m (x ∷ ms) = ground (arith, find_stop-append j m ms)

-- A stop order whose SETNX succeeds leaves a marker for the sandbox: the one that was there, reason
-- and all, or a new one with the reason; every other sandbox's marker is as it was. A signal is sent
-- only with a new marker, and only if the channel has room.
pub persist_stop_lem :
    (id j : SandboxId) (reason : Reason) (s : Store)
    → next_ok s.faults ≡ true
    → let (r, s') = persist_stop id reason s in
      let old = find_stop id s.stops in
      (r ≡ some tt)
      × (find_stop j s'.stops
          ≡ (if j == id && not (is_some old) then some reason else find_stop j s.stops))
      × (s'.stop_ch ≡ (
          if is_some old || not (ltb (length s.stop_ch) s.stop_cap)
          then s.stop_ch
          else s.stop_ch ++ stop_signal id reason ∷ []))
unfolding persist_stop queue_stop
persist_stop_lem id j reason s ok =
    let signal = stop_signal id reason in
    (ground arith, ground (arith, find_stop-append j signal s.stops), ground arith)

-- Asking for the same stop again, with whatever reason, changes no marker and sends no signal.
persist_stop_twice :
    (id : SandboxId) (reason reason' : Reason) (s : Store)
    → (persist_stop id reason s).0 ≡ some tt
    → let s' = (persist_stop id reason s).1 in
      let s'' = (persist_stop id reason' s').1 in
      (s''.stops ≡ s'.stops) × (s''.stop_ch ≡ s'.stop_ch)
unfolding persist_stop queue_stop
persist_stop_twice id reason reason' s ok =
    let signal = stop_signal id reason in
    (
      ground (arith, find_stop-append id signal s.stops),
      ground (arith, find_stop-append id signal s.stops),
    )
