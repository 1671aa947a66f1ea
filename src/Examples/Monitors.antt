-- ===== src/Examples/Monitors.antt =====
-- The broker's monitor, alerts, scrubbing, the bulk archive and authentication at concrete inputs.
use Prim.Native.String.{String}
use g_sandbox.Base.{◌≡◌, ◌≢◌, refl, true, false, none, some, List, [], ◌∷◌, take}
use g_sandbox.Broker.{SessionEntry}
use g_sandbox.Auth.{
  Options, SignedRequest, AuthCall, authenticate, check_message, claim_nonce, is_refused,
  is_misused, is_signed, wrong_provider, wrong_resource, nonce_key, authenticate_all,
}
use g_sandbox.Auth.Replay.{accepted_once}
use g_sandbox.Proxy.Bulk.{Listed, empty_report, archive_all}
use g_sandbox.Proxy.Bulk.Counts.{Reports, archive_all-Reports}
use g_sandbox.Broker.Monitor.{TopUps, Tick, check}
use g_sandbox.Broker.Monitor.Once.{Once, check-Once}
use g_sandbox.Alerts.{text, Notice, history_max_len, Webhook, AlertState, notify_all}
use g_sandbox.Alerts.Dedup.{first_reports, newest_first, run_reports_first}
use g_sandbox.Proxy.Json.{
  Json, array, item, no_items, object, string, Fields, field, no_fields, find,
}
use g_sandbox.Proxy.Scrub.{scrub_seal_key_from_body}
use g_sandbox.Proxy.Scrub.Clean.{Clean, Scrubbed, scrub_value-Clean}
use g_sandbox.Examples.{empty_store}
use g_sandbox.Examples.Gates.{folding}

-- One user of provider 9 is low, and its deposit is taken.
abbrev tick : Tick
tick = record {
  has_service = λ p. some true;
  balances = λ p. some (10 ∷ []);
  accepts = λ u p. true;
  answers = true;
  set_ok = true;
  topup_intervals = 3;
  threshold_intervals = 1;
}

abbrev entry : SessionEntry
entry = record {
  sandbox_id = 5;
  user = 1;
  provider = 9;
  cpu = 1;
  mem_gb = 2;
  price_per_sec = 4;
  voucher_interval_sec = 60;
}

abbrev no_top_ups : TopUps
no_top_ups = record { inflight = []; backoff = []; deposits = [] }

check-Once_example : Once 1 9 no_top_ups (check tick (entry ∷ []) no_top_ups)
check-Once_example = check-Once tick (entry ∷ []) 1 9 no_top_ups refl refl

abbrev webhook : Webhook
webhook = record { has_url = true; dedups = true; lower = λ s. s }

abbrev rejection : String → Notice
rejection user = record {
  kind = "voucher_rejected";
  severity = "warning";
  message = "";
  user = some (text user);
  provider = none;
  sandbox = none;
}

abbrev quiet : AlertState
quiet = record { claimed = []; history = []; sent = [] }

-- The second report of 0x01 is held back, that of 0x02 is not.
abbrev reports : List Notice
reports = rejection "0x01" ∷ rejection "0x01" ∷ rejection "0x02" ∷ []

run_reports_first_example :
    ((notify_all webhook reports quiet).sent ≡ newest_first (first_reports webhook [] reports) [])
    × ((notify_all webhook reports quiet).history
        ≡ take history_max_len (newest_first (first_reports webhook [] reports) []))
run_reports_first_example = run_reports_first webhook reports quiet refl refl refl

abbrev sandbox_env : Fields
sandbox_env = field "SANDBOX_SEAL_KEY" (string "0xabc") (field "HOME" (string "/root") no_fields)

abbrev sandbox_object : Fields
sandbox_object = field "id" (string "5") (field "env" (object sandbox_env) no_fields)

scrub_value-Clean_example :
    ((w : Json) × (scrub_seal_key_from_body true
          (some (array (item (object sandbox_object) no_items)))
        ≡ some w)
      × Clean "SANDBOX_SEAL_KEY" w)
    × ((w : Json) × (scrub_seal_key_from_body true (some (object sandbox_object)) ≡ some w)
        × Scrubbed sandbox_object sandbox_env w "id")
unfolding find
scrub_value-Clean_example =
    scrub_value-Clean "SANDBOX_SEAL_KEY" "id" (array (item (object sandbox_object) no_items))
      sandbox_object sandbox_env refl refl

abbrev listed : Listed
listed = record { id = 5; state = "started"; owner = "0x01"; waits = true; archives = true }

-- One is archived, one cannot be stopped in time, one is left alone.
abbrev three_sandboxes : List Listed
three_sandboxes =
    listed
    ∷ record listed { id = 6; waits = false }
    ∷ record listed { id = 7; state = "archived" }
    ∷ []

archive_all-Reports_example :
    Reports 3
      (archive_all three_sandboxes empty_report (record empty_store { faults = false ∷ [] }))
archive_all-Reports_example =
    archive_all-Reports three_sandboxes (record empty_store { faults = false ∷ [] })

abbrev options : Options
options = record { provider_address = "0x09"; strict = true; fold = folding; lower = λ s. s }

abbrev message : SignedRequest
message = record { expires_at = 1100; nonce = "n1"; provider = "0x09"; resource_id = "5" }

abbrev auth_call : AuthCall
auth_call = record {
  has_headers = true;
  wallet = "0x01";
  message = some message;
  sig_decodes = true;
  recovered = some "0x01";
  id = "5";
  now = 1000;
  redis_ok = true;
}

-- Another wallet comes between with the same nonce.
accepted_once_example :
    (authenticate options
      (record auth_call { now = 1099 })
      (authenticate_all options
        (record auth_call { wallet = "0x02"; recovered = some "0x02" } ∷ [])
        (authenticate options auth_call []).1)).0
    ≢ none
unfolding authenticate check_message claim_nonce is_refused is_misused is_signed wrong_provider
    wrong_resource nonce_key
accepted_once_example =
    accepted_once options auth_call (record auth_call { now = 1099 }) message
      (record auth_call { wallet = "0x02"; recovered = some "0x02" } ∷ []) [] refl refl refl refl
