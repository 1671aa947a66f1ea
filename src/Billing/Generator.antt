-- ===== src/Billing/Generator.antt =====
-- internal/billing/generator.go: the periodic pre-charge of every open session.
pub mod Backlog
use g_sandbox.Base.{
  ℕ, zero, suc, ◌+◌, ◌-◌, ◌/◌, min, Bool, true, false, not, ◌&&◌, Option, none, some, List, [], ◌∷◌,
  ◌==◌, ltb, leb, mem, if◌then◌else◌,
}
use g_sandbox.Voucher.{Address, SandboxId, Hashing}
use g_sandbox.Store.{
  Store, Session, Action, ◌>>=◌, ◌>>◌, pure, modify, command, try, put, delete_stop,
}
use g_sandbox.Billing.Price.{EventHandler, emit_period_voucher}
use g_sandbox.Billing.Session.{update_next_voucher_at, delete_session, scan_all_sessions}

-- `phantomSkipsBeforeConfirm`, `catchupChunkIntervals`, `catchupMaxVouchersPerTick`
abbrev pub phantom_skips_before_confirm : ℕ
phantom_skips_before_confirm = 10

abbrev pub catchup_chunk_intervals : ℕ
catchup_chunk_intervals = 60

abbrev pub catchup_max_vouchers_per_tick : ℕ
catchup_max_vouchers_per_tick = 10

-- What a tick learns of the runtime: the listing, `none` if the gate is off or the listing failed;
-- the lookup by id; and the hook for a phantom that is closed.
pub record Runtime : Type 0 where
  pub live : Option (List SandboxId)
  pub confirm_gone : SandboxId → Bool
  pub on_phantom_closed : SandboxId → Action (Unit {0})

-- The consecutive absences of each session.
abbrev pub Skips : Type 0
Skips = SandboxId → ℕ

-- The price of a session; a stored price that is not positive falls back to the flat rate.
unfoldable pub price_of : EventHandler → Session → ℕ
price_of h x = elim x.price_per_sec [
  | none ↦ h.compute_price_per_sec
  | some p ↦ if ltb 0 p then p else h.compute_price_per_sec
]

-- The part of the loop's body after the emission: the session moves on, and then the loop does; a
-- failure breaks it.
unfoldable pub advance_session : SandboxId → (ℕ → Action (Unit {0})) → Option ℕ → Action (Unit {0})
advance_session id continue none = pure tt
advance_session id continue (some next_voucher_at) = do
  updated ← try (update_next_voucher_at id next_voucher_at)
  elim updated [ none ↦ pure tt | some _ ↦ continue next_voucher_at ]

-- The loop over the chunks that are overdue, with the number of vouchers that may still be emitted.
unfoldable pub emit_loop :
    ℕ → Hashing → EventHandler → SandboxId → Address → ℕ → ℕ → ℕ → Action (Unit {0})
emit_loop zero hash h id owner price overdue period_start = pure tt
emit_loop (suc n) hash h id owner price zero period_start = pure tt
emit_loop (suc n) hash h id owner price (suc k) period_start =
    let chunk = min (suc k) catchup_chunk_intervals in
    try (emit_period_voucher hash h id owner price period_start chunk)
    >>= advance_session id (emit_loop n hash h id owner price (suc k - chunk))

-- `closePhantomSession`
unfoldable pub close_phantom_session : Runtime → SandboxId → Action (Unit {0})
close_phantom_session rt id = do
  deleted ← try (delete_session id)
  elim deleted [
    | none ↦ pure tt
    | some _ ↦ (do
      try (command >> modify (λ s. record s { stops = delete_stop id s.stops }))
      try (rt.on_phantom_closed id)
      pure tt)
  ]

-- Whether the listing is there and lacks the sandbox.
abbrev pub absent : Runtime → SandboxId → Bool
absent rt id = elim rt.live [ none ↦ false | some ids ↦ not (mem id ids) ]

-- The body of the loop of `runGeneration`.
unfoldable pub bill_session : Hashing → EventHandler → Runtime → ℕ → Session → Skips → Action Skips
bill_session hash h rt now x skips =
    let id = x.sandbox_id in
    let n = skips id + 1 in
    if ltb now x.next_voucher_at
    then pure skips
    else if absent rt id
    then (if leb phantom_skips_before_confirm n && rt.confirm_gone id
        then (do close_phantom_session rt id; pure (put id 0 skips))
        else pure (put id n skips))
    else (do
      emit_loop catchup_max_vouchers_per_tick hash h id x.owner (price_of h x)
          ((now - x.next_voucher_at) / h.voucher_interval_sec + 1) x.next_voucher_at
      pure (put id 0 skips))

unfoldable pub bill_sessions :
    Hashing → EventHandler → Runtime → ℕ → List Session → Skips → Action Skips
bill_sessions hash h rt now [] skips = pure skips
bill_sessions hash h rt now (x ∷ xs) skips = do
  skips' ← bill_session hash h rt now x skips
  bill_sessions hash h rt now xs skips'

-- `runGeneration`, one tick of `RunGenerator`; it returns the new `skips`.
unfoldable pub run_generation : Hashing → EventHandler → Runtime → ℕ → Skips → Action Skips
run_generation hash h rt now skips = do
  scanned ← try scan_all_sessions
  elim scanned [ none ↦ pure skips | some xs ↦ bill_sessions hash h rt now xs skips ]
