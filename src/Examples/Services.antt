-- ===== src/Examples/Services.antt =====
-- Starts, routes, the dead-letter queue and the broker's sessions at concrete inputs.
use package.text.Mathlib.Text.{◌==◌}
use g_sandbox.Base.{◌≡◌, ◌≢◌, refl, true, none, some, [], ◌∷◌, arith, if◌then◌else◌}
use g_sandbox.Voucher.{json, malformed}
use g_sandbox.Store.{Store, find_session}
use g_sandbox.Proxy.Gate.{interval_cost}
use g_sandbox.Proxy.Start.{StartRequest, start_required, handle_start}
use g_sandbox.Proxy.Start.Outcome
use g_sandbox.Proxy.Start.Outcome.{handle_start-Ends}
use g_sandbox.Proxy.Routes.{post, Caller, route_of, post_route, method_route, sandbox_route, grants}
use g_sandbox.Proxy.Routes.Access.{MayReach, granted-MayReach}
use g_sandbox.Dlq.{discard_from_dlq}
use g_sandbox.Dlq.Discard.{target_count, without, discard-without}
use g_sandbox.Broker.{
  Broker, PostSessionReq, PostCall, refusal, needed, wait_for_balance, register, fund, serve,
  post_request, handle_post,
}
use g_sandbox.Broker.Post
use g_sandbox.Broker.Post.{handle_post-Ends, replay_does_nothing}
use g_sandbox.Alerts.{text}
use g_sandbox.Examples.{voucher, empty_store}
use g_sandbox.Examples.Gates.{folding, funds, reserving, tariff}

abbrev start_request : StartRequest
start_request = record {
  id = 5;
  user = 1;
  is_acknowledged = some (some true);
  spec = some (1, 2);
  has_bal_check = true;
  funds = funds;
  upstream_status = 200;
  spec_again = some (1, 2);
}

handle_start-Ends_example :
    Outcome.Ends start_request 9
      (start_required tariff start_request)
      reserving
      (handle_start tariff start_request (record reserving { faults = [] }))
unfolding interval_cost find_session
handle_start-Ends_example = handle_start-Ends tariff start_request reserving refl refl (omega arith)

-- An operator stops the sealed sandbox of another.
abbrev operator : Caller
operator = record {
  fold = folding;
  wallet = "0x07";
  is_operator = true;
  found = some (λ k. if k == "0g-sealed" then some "true" else some "0x01");
}

granted-MayReach_example : MayReach operator post (some "/stop")
unfolding route_of method_route post_route sandbox_route grants
granted-MayReach_example = granted-MayReach operator post (some "/stop") refl refl

abbrev dead : Store
dead = record empty_store {
  dlq = λ p.
      malformed 0
      ∷ json (record (voucher 1 5 10) { nonce = some 3 })
      ∷ json (record (voucher 1 6 10) { nonce = some 3 })
      ∷ [];
}

discard-without_example :
    let (r, s') = discard_from_dlq 1 9 (some 3) (record dead { faults = [] }) in
    (r ≡ some (target_count 1 9 3 (dead.dlq 9))) × (s'.dlq 9 ≡ without 1 9 3 (dead.dlq 9))
discard-without_example = discard-without 1 9 3 dead 9

abbrev no_broker : Broker
no_broker = record { seen = []; sessions = []; deposits = [] }

abbrev session_req : PostSessionReq
session_req = record {
  sandbox_id = 5;
  provider_addr = "0x09";
  user_addr = "0x01";
  provider = 9;
  user = 1;
  cpu = 1;
  mem_gb = 2;
  start_time = 1000;
  voucher_interval_sec = 60;
}

abbrev call : PostCall
call = record {
  request = some session_req;
  app_is_bound = some true;
  sig_decodes = true;
  signer = some 9;
  is_active = some true;
  now = 1010;
  exists_ok = true;
  pricing = some (some (record { per_cpu = 2; per_mem_gb = 1; create_fee = some 7 }));
  balance = some 100;
  deposit_ok = true;
  polls = none ∷ some 100 ∷ some 5000 ∷ [];
  set_ok = true;
  entry_ok = true;
}

-- Fifty seconds later, and the balance is used up.
abbrev replay : PostCall
replay = record call { now = 1060; balance = some 0; polls = some 9000 ∷ [] }

replay_does_nothing_example :
    let (r, s') = handle_post 3 replay (handle_post 3 call no_broker).1 in
    (r.status ≢ 200) × (s' ≡ (handle_post 3 call no_broker).1)
unfolding handle_post post_request refusal serve fund register needed wait_for_balance
replay_does_nothing_example =
    replay_does_nothing 3 call replay session_req no_broker refl refl refl refl refl

handle_post-Ends_example : Post.Ends 3 call no_broker (handle_post 3 call no_broker)
handle_post-Ends_example = handle_post-Ends 3 call no_broker
