-- ===== src/Examples/Gates.antt =====
-- Creates and gates at concrete requests.
use Prim.Native.String.{String}
use package.text.Mathlib.Text.{◌==◌}
use package.text.Mathlib.TextEquality.{eq_iff}
use g_sandbox.Base.{
  ℕ, Bool, ◌≤◌, ◌≡◌, refl, subst, inl, inr, true, false, Bool-cases, Option, none, some, [], ◌∷◌,
  arith, if◌then◌else◌,
}
use g_sandbox.Store.{Store}
use g_sandbox.Billing.Reserved.{reserve, release, reserved_of, get_reserved}
use g_sandbox.Proxy.Text.{Folding, contains}
use g_sandbox.Proxy.Json.{
  boolean, number, natural, string, array, item, no_items, object, Fields, no_fields, field, find,
  Body, value_body, decode_first,
}
use g_sandbox.Proxy.Owner.{as_map, merge_fields}
use g_sandbox.Proxy.Owner.Names.{NamesApart, field_names}
use g_sandbox.Proxy.Owner.Labels.{stored, merge-stored}
use g_sandbox.Proxy.CreatePolicy.{require_snapshot_create}
use g_sandbox.Proxy.CreatePolicy.Accepts.{Accepted, create_policy_accepts}
use g_sandbox.Proxy.Ports.{validate_public_ports}
use g_sandbox.Proxy.Ports.Valid.{OpenableBody, validate-Openable}
use g_sandbox.Proxy.Gate.{
  Tariff, interval_cost, Funds, insufficient, claim, judge, turn_away, release_if,
}
use g_sandbox.Proxy.Gate.Concurrent.{
  Flight, Steps, AtMost, claims, admits, refuses, done, more, sum_admitted, sum_required,
  admitted_are_covered,
}
use g_sandbox.Proxy.Create.Prepare.{Gateway, Sealing, unresolved, seal_failure}
use g_sandbox.Proxy.Create.{CreateRequest, billed_spec, create_required, handle_create}
use g_sandbox.Proxy.Create.Outcome.{Ends, handle_create-Ends}
use g_sandbox.Examples.{empty_store}

-- Two spellings of one name.
abbrev pub folding : Folding
folding k = if k == "Sealed" then "sealed" else k

not_Sealed : (a : String) → contains a field_names ≡ true → (a == "Sealed") ≡ false
not_Sealed a named = elim (Bool-cases (a == "Sealed")) [
  | inl e ↦
      let bad : false ≡ true =
        subst (λ i. contains i field_names ≡ true) ((eq_iff a "Sealed").0 e) named in
      ground arith
  | inr e ↦ e
]

folding_apart : NamesApart folding
folding_apart a b named named' differ = simp (not_Sealed a named, not_Sealed b named', differ)

abbrev create : Fields
create = field "snapshot" (string "small") (
    field "Sealed" (boolean true) (
      field "labels" (object (field "daytona-owner" (string "0x02") no_fields))
        (field "public" (boolean true) no_fields)))

abbrev sealed_create : Body
sealed_create = value_body (object create) false

-- The update drops the owner and clears the mark.
abbrev update : Fields
update =
    field "labels"
      (object (field "0g-sealed" (string "false") (field "team" (string "a") no_fields))) no_fields

abbrev current : String → Option String
current k =
    if k == "daytona-owner" then some "0x01" else if k == "0g-sealed" then some "true" else none

merge-stored_example :
    (labels : Fields) × (find "labels" (merge_fields folding current update) ≡ some (object labels))
    × (find "0g-sealed" labels ≡ stored folding current (as_map (find "labels" update)) "0g-sealed")
merge-stored_example = merge-stored folding current update "0g-sealed" folding_apart

create_policy_accepts_example :
    (require_snapshot_create folding sealed_create ≡ none
      → (m : Fields) × (decode_first sealed_create ≡ some m) × Accepted folding m)
    × ((m : Fields)
        → decode_first sealed_create ≡ some m
        → Accepted folding m
        → require_snapshot_create folding sealed_create ≡ none)
create_policy_accepts_example = create_policy_accepts folding sealed_create

abbrev port_body : Body
port_body =
    value_body
      (object (
        field "publicPorts"
          (array (item (number (natural 3000)) (item (number (natural 8080)) no_items))) no_fields))
      false

validate-Openable_example :
    (validate_public_ports port_body true ≡ none → OpenableBody true port_body)
    × (OpenableBody true port_body → validate_public_ports port_body true ≡ none)
validate-Openable_example = validate-Openable port_body true

-- 500 is there, and 120 reserved.
abbrev pub funds : Funds
funds = record { balance = some 100; topped_up = true; balance_again = some 500 }

abbrev pub reserving : Store
reserving = record empty_store { reserved = λ u p. some 120 }

abbrev flight : ℕ → ℕ → Bool → Flight
flight required total holds = record {
  claim = record {
    user = 1;
    provider = 9;
    required = required;
    held = 0;
    pending = 0;
    total_reserved = total;
    holds = holds;
  };
  is_admitted = false;
}

abbrev one_hundred : Funds
one_hundred = record { balance = some 100; topped_up = false; balance_again = none }

-- Two creates of 60 against 100: both reserve, the first is admitted, the second refused. Of a third
-- one, over 30, Redis does not take the reservation, and it is admitted without one.
abbrev s0 : Store
s0 = record empty_store { faults = true ∷ true ∷ true ∷ false ∷ [] }

abbrev s1 : Store
s1 = (claim 1 9 60 0 0 s0).1

abbrev s2 : Store
s2 = (claim 1 9 60 0 0 s1).1

abbrev s3 : Store
s3 = (judge (flight 60 120 true).claim one_hundred 100 s2).1

abbrev s4 : Store
s4 = (claim 1 9 30 0 0 s3).1

abbrev first : Flight
first = record (flight 60 60 true) { is_admitted = true }

abbrev third : Flight
third = record (flight 30 90 false) { is_admitted = true }

one_hundred-AtMost : (f : Flight) → AtMost 100 f.claim one_hundred
one_hundred-AtMost f balance (inl read) = ground arith
one_hundred-AtMost f balance (inr (funded, read)) = ground arith

three_creates : Steps 1 9 100 s0 [] s4 (third ∷ first ∷ [])
unfolding claim reserve get_reserved judge turn_away release_if release
three_creates =
    more
      (more
        (more
          (more
            (more (more done (claims 60 0 0 (flight 60 60 true).claim refl))
              (claims 60 0 0 (flight 60 120 true).claim refl))
            (admits (flight 60 120 true ∷ []) (flight 60 60 true) [] one_hundred 100 true refl refl
              (one_hundred-AtMost (flight 60 60 true)) refl))
          (refuses [] (flight 60 120 true) (first ∷ []) one_hundred 100
            (some (insufficient 40 60 0 0)) refl refl refl (λ holds h. ground arith)))
        (claims 30 0 0 (flight 30 90 false).claim refl))
      (admits [] (flight 30 90 false) (first ∷ []) one_hundred 100 false refl refl
        (one_hundred-AtMost (flight 30 90 false)) refl)

admitted_are_covered_example :
    (sum_admitted (third ∷ first ∷ []) ≤ 100)
    × (sum_required (third ∷ first ∷ []) ≤ reserved_of s4 1 9)
admitted_are_covered_example = admitted_are_covered 1 9 100 three_creates

abbrev pub tariff : Tariff
tariff = record {
  provider_address = 9;
  create_fee = 100;
  price_per_cpu_per_sec = 1;
  price_per_mem_gb_per_sec = 1;
  compute_price_per_sec = 0;
  voucher_interval_sec = 60;
}

abbrev gateway : Gateway
gateway = record {
  fold = folding;
  wallet = "0x01";
  sealed_only = false;
  has_seal_key = true;
  has_seal_issuer = true;
}

abbrev sealing : Sealing
sealing = record {
  resolve_image_ref = unresolved;
  billed_id = none;
  get_digest = none;
  runs_image = none;
  pin_ref = none;
  issuer = none;
  inject_seal = λ m hash issuer. seal_failure;
}

abbrev request : CreateRequest
request = record {
  body = some sealed_create;
  user = 1;
  get_snapshot = some (some (record { cpu = 1; mem = 2 }));
  has_bal_check = true;
  is_acknowledged = some (some true);
  funds = record funds { balance_again = some 900 };
  sealing = sealing;
  upstream = λ m. record { status = 200; id = some 5; cpu = 1; mem_gb = 2; keeps_ports = none };
}

handle_create-Ends_example :
    Ends gateway request sealed_create 9
      (create_required tariff (1, 2))
      reserving
      (handle_create gateway tariff request (record reserving { faults = [] }))
unfolding billed_spec interval_cost
handle_create-Ends_example =
    handle_create-Ends gateway tariff request sealed_create (1, 2) reserving refl refl refl
      (omega arith)
