-- ===== src/Settler/Statuses/Pops.antt =====
-- What handling the statuses does to the voucher queue.
use g_sandbox.Base.{
  ℕ, zero, suc, ◌+◌, ◌-◌, ◌≡◌, refl, ap, ◌∙◌, Bool, true, false, Option, none, some, List, [], ◌∷◌,
  drop, arith, if◌then◌else◌, ◌&&◌, ◌==◌, Bool-cases, inl, inr,
}
use g_sandbox.Voucher.{Address, SandboxId, SandboxVoucher, Raw, is_aggregated}
use g_sandbox.Store.{
  Store, Action, Session, Sessions, pure, command, try, Event, Alert, Reason, insufficient_balance,
  not_acknowledged, push_event, notify, next_ok, later_ok,
}
use g_sandbox.Store.Keeps.{Keeps, Keeps-bind}
use g_sandbox.Backlog.{push_held}
use g_sandbox.Billing.Session.{read_keys, scan_all_sessions}
use g_sandbox.Chain
use g_sandbox.Chain.{SettlementStatus}
use g_sandbox.Settler.Stop.{
  queue_stop, persist_stop, stop_sessions, stop_scanned, stop_all_sandboxes_of,
}
use g_sandbox.Settler.Statuses.{
  pop_entry, pop_entries, account_alert, persist_alert, alert_unless, stop_or_alert, on_success,
  on_insufficient_balance, on_not_acknowledged, on_misconfigured, on_invalid_nonce, handle_status,
  handle_each, entries_of, handle_statuses,
}

abbrev pub queue_of : Store → List Raw
queue_of s = s.queue

-- The actions here write other keys.
push_event-Keeps : (e : Event) → Keeps queue_of (push_event e)
unfolding push_event
push_event-Keeps e s = ground arith

notify-Keeps : (a : Alert) → Keeps queue_of (notify a)
unfolding notify
notify-Keeps a s = refl

persist_stop-Keeps : (id : SandboxId) (reason : Reason) → Keeps queue_of (persist_stop id reason)
unfolding persist_stop queue_stop
persist_stop-Keeps id reason s = ground arith

read_keys-Keeps : (keys : Sessions) → Keeps queue_of (read_keys keys)
unfolding read_keys
read_keys-Keeps [] s = refl
read_keys-Keeps ((key, x) ∷ keys) s = ground (arith, read_keys-Keeps keys (command s).1)

scan_all_sessions-Keeps : Keeps queue_of scan_all_sessions
unfolding scan_all_sessions
scan_all_sessions-Keeps s = ground (arith, read_keys-Keeps s.sessions (command s).1)

stop_sessions-Keeps :
    (user provider : Address) (xs : List Session) (stopped : ℕ)
    → Keeps queue_of (stop_sessions user provider xs stopped)
unfolding stop_sessions
stop_sessions-Keeps user provider [] stopped s = refl
stop_sessions-Keeps user provider (x ∷ xs) stopped s =
    let persist = try (persist_stop x.sandbox_id insufficient_balance) in
    let continue : Option (Unit {0}) → Action ℕ = λ done.
      stop_sessions user provider xs (elim done [ none ↦ stopped | some _ ↦ stopped + 1 ]) in
    elim (Bool-cases (x.owner == user && x.provider == provider)) [
      | inl mine ↦ rw mine (
          Keeps-bind queue_of persist continue
            (persist_stop-Keeps x.sandbox_id insufficient_balance)
            (λ done.
              stop_sessions-Keeps user provider xs
                (elim done [ none ↦ stopped | some _ ↦ stopped + 1 ]))
            s)
      | inr other ↦ rw other (stop_sessions-Keeps user provider xs stopped s)
    ]

stop_scanned-Keeps :
    (user provider : Address) (scanned : Option (List Session))
    → Keeps queue_of (stop_scanned user provider scanned)
unfolding stop_scanned
stop_scanned-Keeps user provider none s = refl
stop_scanned-Keeps user provider (some xs) s = stop_sessions-Keeps user provider xs 0 s

stop_all_sandboxes_of-Keeps :
    (user provider : Address) → Keeps queue_of (stop_all_sandboxes_of user provider)
unfolding stop_all_sandboxes_of
stop_all_sandboxes_of-Keeps user provider =
    Keeps-bind queue_of (try scan_all_sessions) (stop_scanned user provider) scan_all_sessions-Keeps
      (stop_scanned-Keeps user provider)

alert_unless-Keeps : (a : Alert) (done : Option (Unit {0})) → Keeps queue_of (alert_unless a done)
unfolding alert_unless notify
alert_unless-Keeps a none s = refl
alert_unless-Keeps a (some done) s = refl

stop_or_alert-Keeps : (id : SandboxId) (reason : Reason) → Keeps queue_of (stop_or_alert id reason)
unfolding stop_or_alert
stop_or_alert-Keeps id reason =
    Keeps-bind queue_of (try (persist_stop id reason)) (alert_unless (persist_alert id))
      (persist_stop-Keeps id reason) (alert_unless-Keeps (persist_alert id))

push_held-Keeps : (v : SandboxVoucher) → Keeps queue_of (push_held v)
unfolding push_held
push_held-Keeps v s = ground arith

-- How many of the next `n` commands succeed.
unfoldable pub successes : ℕ → List Bool → ℕ
successes zero fs = 0
successes (suc n) fs = let rest = successes n (later_ok fs) in if next_ok fs then suc rest else rest

drop_nil : (n : ℕ) → drop {A = Raw} n [] ≡ []
drop_nil zero = refl
drop_nil (suc n) = refl

drop-drop_one : (n : ℕ) (q : List Raw) → drop n (drop 1 q) ≡ drop (suc n) q
drop-drop_one n [] = drop_nil n
drop-drop_one n (r ∷ q) = refl

-- Popping `n` entries takes as many as commands succeed.
pops :
    (n : ℕ) (fs : List Bool) (s : Store)
    → (fs' : List Bool) × (pop_entries n (record s { faults = fs })
        ≡ (some tt, record s { queue = drop (successes n fs) s.queue; faults = fs' }))
unfolding pop_entries pop_entry successes
pops zero fs s = (fs, refl)
pops (suc n) [] s =
    let (fs', e) = pops n [] (record s { queue = drop 1 s.queue }) in
    (fs', rw (← drop-drop_one (successes n []) s.queue) e)
pops (suc n) (true ∷ fs) s =
    let (fs', e) = pops n fs (record s { queue = drop 1 s.queue }) in
    (fs', rw (← drop-drop_one (successes n fs) s.queue) e)
pops (suc n) (false ∷ fs) s = pops n fs s

on_insufficient_balance-Keeps : (v : SandboxVoucher) → Keeps queue_of (on_insufficient_balance v)
unfolding on_insufficient_balance
on_insufficient_balance-Keeps v s =
    let alert : ℕ → Action (Unit {0}) = λ _. notify (account_alert v) in
    elim (Bool-cases (is_aggregated v)) [
      | inl many ↦ rw many (
          Keeps-bind queue_of (stop_all_sandboxes_of v.user v.provider) alert
            (stop_all_sandboxes_of-Keeps v.user v.provider) (λ _. notify-Keeps (account_alert v)) s)
      | inr one ↦ rw one (stop_or_alert-Keeps v.sandbox_id insufficient_balance s)
    ]

on_not_acknowledged-Keeps : (v : SandboxVoucher) → Keeps queue_of (on_not_acknowledged v)
unfolding on_not_acknowledged
on_not_acknowledged-Keeps v =
    let order : Option (Unit {0}) → Action (Unit {0}) =
      λ _. if is_aggregated v then pure tt else stop_or_alert v.sandbox_id not_acknowledged in
    Keeps-bind queue_of (try (push_held v)) order (push_held-Keeps v) (λ _ s.
      elim (Bool-cases (is_aggregated v)) [
        | inl many ↦ rw many
        | inr one ↦ rw one (stop_or_alert-Keeps v.sandbox_id not_acknowledged s)
      ])

handle_status-Keeps :
    (v : SandboxVoucher) (st : SettlementStatus) → Keeps queue_of (handle_status v st)
unfolding handle_status on_success on_misconfigured on_invalid_nonce push_event notify
handle_status-Keeps v Chain.success s = ground (arith)
handle_status-Keeps v Chain.insufficient_balance s = on_insufficient_balance-Keeps v s
handle_status-Keeps v Chain.not_acknowledged s = on_not_acknowledged-Keeps v s
handle_status-Keeps v Chain.provider_mismatch s = ground arith
handle_status-Keeps v Chain.invalid_signature s = ground arith
handle_status-Keeps v Chain.invalid_nonce s = ground arith
handle_status-Keeps v Chain.unknown s = refl

handle_each-Keeps :
    (vs : List SandboxVoucher) (sts : List SettlementStatus) → Keeps queue_of (handle_each vs sts)
unfolding handle_each
handle_each-Keeps vs [] s = refl
handle_each-Keeps [] (st ∷ sts) s = refl
handle_each-Keeps (v ∷ vs) (st ∷ sts) s =
    let rest : Unit {0} → Action (Unit {0}) = λ _. handle_each vs sts in
    Keeps-bind queue_of (handle_status v st) rest (handle_status-Keeps v st)
      (λ _. handle_each-Keeps vs sts) s

-- Handling the statuses of a batch pops from the queue, of the entries that the batch took beyond the
-- one that was popped before, as many as Redis answers for, and leaves the rest of the queue as it is,
-- whatever the statuses are and whichever of their commands fail.
pub handle_statuses_pops :
    (consumed : ℕ) (vs : List SandboxVoucher) (sts : List SettlementStatus) (s : Store)
    → (handle_statuses consumed vs sts s).1.queue
      ≡ drop (successes (entries_of consumed vs - 1) s.faults) s.queue
unfolding handle_statuses
handle_statuses_pops consumed vs sts s =
    let n = entries_of consumed vs - 1 in
    let (fs, e) = pops n s.faults s in
    let s' : Store = record s { queue = drop (successes n s.faults) s.queue; faults = fs } in
    ap
      (λ r.
        queue_of
          (elim r.0 as (λ _. Option (Unit {0}) × Store) [
            | none ↦ (none, r.1)
            | some _ ↦ handle_each vs sts r.1
          ]).1)
      e
    ∙ handle_each-Keeps vs sts s'
