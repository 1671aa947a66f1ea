-- ===== src/StopHandler/Retry.antt =====
-- A stop is done or tried again.
use g_sandbox.Base.{
  ◌≡◌, refl, sym, ap, subst, ◌∙◌, true, false, ◌&&◌, Option, none, some, List, [], ◌∷◌, inl, inr,
  arith, ◌==◌, if◌then◌else◌, take, mem, is_some, Bool-cases,
}
use g_sandbox.Voucher.{SandboxId}
use g_sandbox.Store.{
  Store, StopSignal, find_stop, delete_stop, find_session, delete_key, push_event, notify, command,
  Event, auto_stopped, max_events, try, pure, Reason, unread, stop_signal, next_ok, check, ◌>>◌,
}
use g_sandbox.Billing.Session.{delete_session, find_session-delete_key}
use g_sandbox.StopHandler.{
  Daytona, is_active, classify_sandbox, is_terminal, clean_up, keep_for_retry, finish_stop,
  handle_stop, resend, recover_pending_stops,
}

find_stop-delete_stop :
    (j id : SandboxId) (ms : List StopSignal)
    → find_stop j (delete_stop id ms) ≡ (if j == id then none else find_stop j ms)
unfolding find_stop delete_stop
find_stop-delete_stop j id [] = ground arith
find_stop-delete_stop j id (m ∷ ms) = ground (arith, find_stop-delete_stop j id ms)

-- The store without the sandbox's session and marker.
abbrev cleaned : SandboxId → Store → Store
cleaned id s = record s {
  faults = [];
  stops = delete_stop id s.stops;
  sessions = delete_key id s.sessions;
}

module _ (d : Daytona) (id : SandboxId) (s : Store)
    (hook : (s' : Store) → d.deregister_broker id s' ≡ (some tt, s')) where
  clean_up_lem : clean_up d id (record s { faults = [] }) ≡ (some tt, cleaned id s)
  unfolding clean_up delete_session
  clean_up_lem = hook (cleaned id s)

  finish_stop_lem :
      (events : List Event) × (finish_stop d id (record s { faults = [] })
        ≡ (some tt, record (cleaned id s) { events = events }))
  unfolding finish_stop push_event
  finish_stop_lem =
      let e : Event = record { kind = auto_stopped; sandbox_id = id; user = 0; amount = 0 } in
      (
        take max_events (e ∷ s.events),
        ap
            (λ r. elim r.0 as (λ _. Option (Unit {0}) × Store) [
              | none ↦ (none, r.1)
              | some _ ↦ (try (push_event e) >> pure tt) r.1
            ])
            clean_up_lem,
      )

-- A signal, while Redis answers and with a broker hook that leaves this store alone, removes the marker
-- and the session of its sandbox if the sandbox is in a terminal state before or after it, and
-- otherwise keeps both; those of other sandboxes are kept.
pub handle_stop_lem :
    (d : Daytona) (id j : SandboxId) (s : Store)
    → ((s' : Store) → d.deregister_broker id s' ≡ (some tt, s'))
    → let s' = (handle_stop d id (record s { faults = [] })).1 in
      (find_stop j s'.stops ≡ (if is_terminal d && j == id then none else find_stop j s.stops))
      × (find_session j s'.sessions
          ≡ (if is_terminal d && j == id then none else find_session j s.sessions))
unfolding handle_stop keep_for_retry push_event notify find_stop find_session finish_stop clean_up
handle_stop_lem d id j s hook =
    let gone : (find_stop j (delete_stop id s.stops)
          ≡ (if j == id then none else find_stop j s.stops))
        × (find_session j (delete_key id s.sessions)
            ≡ (if j == id then none else find_session j s.sessions)) =
      (find_stop-delete_stop j id s.stops, find_session-delete_key j id s.sessions) in
    elim (Bool-cases (is_active (classify_sandbox d.lookup))) [
      | inr terminal ↦ rw (terminal, clean_up_lem d id s hook) gone
      | inl running ↦ elim (Bool-cases d.archives) [
        | inl done ↦ rw (running, done, (finish_stop_lem d id s hook).1) gone
        | inr failed ↦ elim (Bool-cases (is_active (classify_sandbox d.lookup_again))) [
          | inl still ↦ rw (running, failed, still) (refl, refl)
          | inr already ↦ rw (running, failed, already, (finish_stop_lem d id s hook).1) gone
        ]
      ]
    ]

-- The sandboxes that markers or signals name.
abbrev pub sandbox_ids : List StopSignal → List SandboxId
sandbox_ids [] = []
sandbox_ids (m ∷ ms) = m.sandbox_id ∷ sandbox_ids ms

-- Each marker has its signal, whichever of the GETs fail.
resend-sandbox_ids :
    (ms : List StopSignal) (s : Store)
    → (signals : List StopSignal) × ((resend ms s).0 ≡ some signals)
      × (sandbox_ids signals ≡ sandbox_ids ms)
unfolding resend
resend-sandbox_ids [] s = ([], refl, refl)
resend-sandbox_ids (m ∷ ms) s =
    let (signals, e, f) = resend-sandbox_ids ms (command s).1 in
    let reason : Reason = elim (command s).0 [ none ↦ unread | some _ ↦ m.reason ] in
    (
      stop_signal m.sandbox_id reason ∷ signals,
      subst
          (λ r.
            (elim r as (λ _. Option (List StopSignal) × Store) [
              | none ↦ (none, (resend ms (command s).1).1)
              | some ids ↦ pure (stop_signal m.sandbox_id reason ∷ ids) (resend ms (command s).1).1
            ]).0
            ≡ some (stop_signal m.sandbox_id reason ∷ signals))
          (sym e) refl,
      ap (λ ids. m.sandbox_id ∷ ids) f,
    )

mem-find_stop :
    (id : SandboxId) (ms : List StopSignal) → mem id (sandbox_ids ms) ≡ is_some (find_stop id ms)
unfolding find_stop
mem-find_stop id [] = refl
mem-find_stop id (m ∷ ms) = ground (arith, mem-find_stop id ms)

stops-keep_for_retry : (id : SandboxId) (s : Store) → (keep_for_retry id s).1.stops ≡ s.stops
unfolding keep_for_retry push_event notify
stops-keep_for_retry id s = ground arith

stops-handle_stop :
    (d : Daytona) (id : SandboxId) (s : Store)
    → is_terminal d ≡ false
    → (handle_stop d id s).1.stops ≡ s.stops
unfolding handle_stop
stops-handle_stop d id s unfinished = elim (Bool-cases (is_active (classify_sandbox d.lookup))) [
  | inr terminal ↦ ground arith
  | inl running ↦ elim (Bool-cases d.archives) [
    | inl done ↦ ground arith
    | inr failed ↦ elim (Bool-cases (is_active (classify_sandbox d.lookup_again))) [
      | inl still ↦ simp (running, failed, still) (stops-keep_for_retry id s)
      | inr already ↦ ground arith
    ]
  ]
]

-- What a recovery sends if its scan succeeds.
recover_scanned :
    (s : Store)
    → next_ok s.faults ≡ true
    → (recover_pending_stops s).0 ≡ (resend s.stops (command s).1).0
unfolding recover_pending_stops
recover_scanned s ok =
    subst
      (λ b.
        (elim (check b) as (λ _. Option (List StopSignal) × Store) [
          | none ↦ (none, (command s).1)
          | some _ ↦ resend s.stops (command s).1
        ]).0
        ≡ (resend s.stops (command s).1).0)
      (sym ok) refl

-- A stop whose sandbox is in no terminal state, before or after it, is tried again: whichever commands
-- fail, the next recovery whose scan succeeds sends a signal for every marker, that of the sandbox
-- included if it had one.
pub stop_is_retried :
    (d : Daytona) (id : SandboxId) (reason : Reason) (s : Store)
    → is_terminal d ≡ false
    → find_stop id s.stops ≡ some reason
    → next_ok (handle_stop d id s).1.faults ≡ true
    → (signals : List StopSignal) × ((recover_pending_stops (handle_stop d id s).1).0
        ≡ some signals)
      × (sandbox_ids signals ≡ sandbox_ids s.stops)
      × (mem id (sandbox_ids signals) ≡ true)
stop_is_retried d id reason s unfinished marked scanned =
    let s' = (handle_stop d id s).1 in
    let (signals, e, f) = resend-sandbox_ids s'.stops (command s').1 in
    let same : sandbox_ids signals ≡ sandbox_ids s.stops =
      f ∙ ap sandbox_ids (stops-handle_stop d id s unfinished) in
    (signals, recover_scanned s' scanned ∙ e, same, rw (same, mem-find_stop id s.stops, marked))
