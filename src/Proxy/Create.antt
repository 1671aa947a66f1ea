-- ===== src/Proxy/Create.antt =====
-- `handleCreate` of internal/proxy/handler.go, up to its reply, and the billing hook behind it. The
-- answers of Daytona, the chain, the registry and the seal issuer are given; so is `InjectSeal`.
pub mod Prepare
pub mod Outcome
use g_sandbox.Base.{
  ℕ, ◌+◌, ◌⊎◌, inl, inr, Bool, true, false, ◌&&◌, ◌||◌, not, Option, none, some, leb, ltb,
  if◌then◌else◌,
}
use g_sandbox.Voucher.{Address, SandboxId, Hashing}
use g_sandbox.Store.{Store, Action, ◌>>=◌, ◌>>◌, pure}
use g_sandbox.Billing.Price.{EventHandler}
use g_sandbox.Billing.Events.{on_create}
use g_sandbox.Proxy.Json.{Fields, Body}
use g_sandbox.Proxy.CreatePolicy.{Refusal, require_snapshot_create}
use g_sandbox.Proxy.Gate.{
  Tariff, interval_cost, Funds, Admission, admitted, balance_error, insufficient, release_if, admit,
}
use g_sandbox.Proxy.Create.Prepare.{Sealing, Gateway, Prepared, ready, rejected, prepare}

-- The record of the snapshot in Daytona.
pub record Snapshot : Type 0 where
  pub cpu : ℕ
  pub mem : ℕ

-- Daytona's answer: its status, the id and the resources that it names, and whether it kept
-- publicPorts (`none` if it is no object).
pub record Upstream : Type 0 where
  pub status : ℕ
  pub id : Option SandboxId
  pub cpu : ℕ
  pub mem_gb : ℕ
  pub keeps_ports : Option Bool

-- What one create meets. The checkers that are not configured are nil.
pub record CreateRequest : Type 0 where
  pub body : Option Body
  pub user : Address
  pub get_snapshot : Option (Option Snapshot)
  pub has_bal_check : Bool
  pub is_acknowledged : Option (Option Bool)  -- `none` without a checker
  pub funds : Funds
  pub sealing : Sealing
  pub upstream : Fields → Upstream

-- The reply, what was forwarded, what the hook is to open (the sandbox, its cores and its memory), and
-- the sandbox that a goroutine is to stop.
pub record Reply : Type 0 where
  pub status : ℕ
  pub forwarded : Option Fields
  pub opens : Option (SandboxId × ℕ × ℕ)
  pub stops : Option SandboxId

abbrev pub refuse : ℕ → Reply
refuse status = record { status = status; forwarded = none; opens = none; stops = none }

-- The spec that is billed, or the status of a refusal: without a balance check a snapshot that is not
-- found does not matter.
unfoldable pub billed_spec : Bool → Option (Option Snapshot) → (ℕ × ℕ) ⊎ ℕ
billed_spec checks (some (some snap)) = inl (snap.cpu, snap.mem)
billed_spec false (some none) = inl (0, 0)
billed_spec false none = inl (0, 0)
billed_spec true none = inr 502
billed_spec true (some none) = inr 400

-- The check of the acknowledgement: the status of a refusal.
unfoldable pub check_ack : Option (Option Bool) → Option ℕ
check_ack none = none
check_ack (some none) = some 502
check_ack (some (some acked)) = if acked then none else some 402

abbrev pub is_success : ℕ → Bool
is_success status = leb 200 status && ltb status 300

abbrev pub create_required : Tariff → ℕ × ℕ → ℕ
create_required h (cpu, mem_gb) = h.create_fee + interval_cost h cpu mem_gb

-- The resources that the session is opened with: Daytona's, if it names any.
unfoldable pub opened_spec : Upstream → ℕ × ℕ → ℕ × ℕ
opened_spec up spec = if ltb 0 up.cpu || ltb 0 up.mem_gb then (up.cpu, up.mem_gb) else spec

-- `extractID` of a success.
unfoldable pub opened_id : Upstream → Option SandboxId
opened_id up = if is_success up.status then up.id else none

-- Whether a success came without the publicPorts that were asked for.
unfoldable pub dropped_ports : Bool → Upstream → Bool
dropped_ports with_ports up =
    is_success up.status
    && with_ports
    && (elim up.keeps_ports [ none ↦ false | some keeps ↦ not keeps ])

-- Behind the call of Daytona. A create whose publicPorts Daytona dropped fails.
unfoldable pub answer :
    Address → Address → ℕ → Bool → ℕ × ℕ → Bool → Fields → Upstream → Action Reply
answer user provider required holds spec with_ports m up =
    if dropped_ports with_ports up
    then pure (record { status = 502; forwarded = some m; opens = none; stops = up.id })
    else elim (opened_id up) [
      | some id ↦ pure (record {
        status = up.status;
        forwarded = some m;
        opens = some (id, (opened_spec up spec).0, (opened_spec up spec).1);
        stops = none;
      })
      | none ↦ (do
        release_if holds user provider required
        pure (record { status = up.status; forwarded = some m; opens = none; stops = none }))
    ]

-- Behind the gate. A rejection releases the reservation only where the code says so.
unfoldable pub forward : CreateRequest → Address → ℕ → ℕ × ℕ → Bool → Prepared → Action Reply
forward r provider required spec holds (rejected status false) = pure (refuse status)
forward r provider required spec holds (rejected status true) = do
  release_if holds r.user provider required
  pure (refuse status)
forward r provider required spec holds (ready with_ports m) =
    answer r.user provider required holds spec with_ports m (r.upstream m)

-- The gate's own replies.
unfoldable pub pass : CreateRequest → Address → ℕ → ℕ × ℕ → Prepared → Admission → Action Reply
pass r provider required spec p (admitted holds) = forward r provider required spec holds p
pass r provider required spec p balance_error = pure (refuse 502)
pass r provider required spec p (insufficient _ _ _ _) = pure (refuse 402)

unfoldable pub gate : Bool → CreateRequest → Address → ℕ → Action Admission
gate false r provider required = pure (admitted false)
gate true r provider required = admit r.user provider required r.funds

-- From the gate on; a refusal of the acknowledgement comes first.
unfoldable pub create_acked :
    Gateway → Tariff → CreateRequest → Body → ℕ × ℕ → Option ℕ → Action Reply
create_acked g h r b spec (some status) = pure (refuse status)
create_acked g h r b spec none = do
  a ← gate r.has_bal_check r h.provider_address (create_required h spec)
  pass r h.provider_address (create_required h spec) spec (prepare g r.sealing b) a

unfoldable pub create_priced : Gateway → Tariff → CreateRequest → Body → (ℕ × ℕ) ⊎ ℕ → Action Reply
create_priced g h r b (inr status) = pure (refuse status)
create_priced g h r b (inl spec) = create_acked g h r b spec (check_ack r.is_acknowledged)

unfoldable pub create_allowed :
    Gateway → Tariff → CreateRequest → Body → Option Refusal → Action Reply
create_allowed g h r b (some e) = pure (refuse 400)
create_allowed g h r b none = create_priced g h r b (billed_spec r.has_bal_check r.get_snapshot)

unfoldable pub create_body : Gateway → Tariff → CreateRequest → Option Body → Action Reply
create_body g h r none = pure (refuse 400)
create_body g h r (some b) = create_allowed g h r b (require_snapshot_create g.fold b)

-- `handleCreate`, up to the reply
unfoldable pub handle_create : Gateway → Tariff → CreateRequest → Action Reply
handle_create g h r = create_body g h r r.body

-- The goroutine behind it.
unfoldable pub after_create : Hashing → EventHandler → ℕ → Address → Reply → Action (Unit {0})
after_create hash h now user reply = elim reply.opens [
  | none ↦ pure tt
  | some (id, cpu, mem_gb) ↦ on_create hash h now id user cpu mem_gb
]
