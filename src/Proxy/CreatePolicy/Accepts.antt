-- ===== src/Proxy/CreatePolicy/Accepts.antt =====
-- Which bodies the create policy lets through.
use Prim.Native.String.{String}
use package.text.Mathlib.TextEquality.{eq_iff}
use mathlib.Core.Option.{some-injective}
use g_sandbox.Base.{
  ◌≡◌, refl, sym, subst, ◌≢◌, inl, inr, true, false, Option, none, some, List, [], ◌∷◌, arith,
  Bool-cases,
}
use g_sandbox.Proxy.Text.{Folding, equal_fold, contains_fold, contains, is_blank, has_dot}
use g_sandbox.Proxy.Json.{
  Json, null, boolean, number, array, object, string, Fields, no_fields, field, find, Holds, Body,
  empty_body, malformed_body, value_body, decode_value, decode_first,
}
use g_sandbox.Proxy.CreatePolicy.{
  custom_resource_fields, create_fields, Refusal, invalid_request_body, reject_folded_keys,
  reject_custom, check_sandbox_name, reject_unknown, check_snapshot, require_snapshot_fields,
  require_snapshot_create,
}

-- A name without a dot; null stands for the empty one.
abbrev pub Dotless : Json → Type 0
Dotless null = Unit
Dotless (string s) = has_dot s ≡ false
Dotless _ = ⊥

-- What each field must be: one of those supported, in any case, none that picks resources; a snapshot
-- exactly so spelled, a name without a dot.
abbrev pub Allowed : Folding → String → Json → Type 0
Allowed fold k v =
    (contains_fold fold k create_fields ≡ true)
    × (contains_fold fold k custom_resource_fields ≡ false)
    × (equal_fold fold k "snapshot" ≡ true → k ≡ "snapshot")
    × (equal_fold fold k "name" ≡ true → Dotless v)

-- No two fields differ by case only.
abbrev pub CasesApart : Folding → Fields → Type 0
CasesApart fold no_fields = Unit
CasesApart fold (field k v m) =
    ((j : String) (w : Json) → Holds j w m → fold j ≢ fold k) × CasesApart fold m

-- What a create must be.
abbrev pub Accepted : Folding → Fields → Type 0
Accepted fold m =
    ((k : String) (v : Json) → Holds k v m → Allowed fold k v)
    × CasesApart fold m
    × ((s : String) × (find "snapshot" m ≡ some (string s)) × (is_blank s ≡ false))

check-Dotless : (v : Json) → check_sandbox_name v ≡ none → Dotless v
unfolding check_sandbox_name
check-Dotless null ok = tt
check-Dotless (string s) ok = ground arith
check-Dotless (boolean b) ok = ground arith
check-Dotless (number n) ok = ground arith
check-Dotless (array xs) ok = ground arith
check-Dotless (object m) ok = ground arith

Dotless-check : (v : Json) → Dotless v → check_sandbox_name v ≡ none
unfolding check_sandbox_name
Dotless-check null ok = refl
Dotless-check (string s) ok = ground arith
Dotless-check (boolean b) ok = elim ok [ ]
Dotless-check (number n) ok = elim ok [ ]
Dotless-check (array xs) ok = elim ok [ ]
Dotless-check (object m) ok = elim ok [ ]

-- Folded keys that are new, and not among those seen.
abbrev Unseen : Folding → List String → Fields → Type 0
Unseen fold seen m = (j : String) (w : Json) → Holds j w m → contains (fold j) seen ≡ false

abbrev Spelled : Folding → Fields → Type 0
Spelled fold m =
    (j : String) (w : Json) → Holds j w m → equal_fold fold j "snapshot" ≡ true → j ≡ "snapshot"

folded_head :
    (fold : Folding) (seen : List String) (k : String) (v : Json) (m : Fields)
    → reject_folded_keys fold seen (field k v m) ≡ none
    → (equal_fold fold k "snapshot" ≡ true → k ≡ "snapshot")
      × (contains (fold k) seen ≡ false)
      × (reject_folded_keys fold (fold k ∷ seen) m ≡ none)
unfolding reject_folded_keys
folded_head fold seen k v m ok = ground (arith, eq_iff k "snapshot")

unseen_head :
    (fold : Folding) (seen : List String) (j k : String)
    → contains (fold j) (fold k ∷ seen) ≡ false
    → (fold j ≢ fold k) × (contains (fold j) seen ≡ false)
unseen_head fold seen j k new = ground (arith, eq_iff (fold k) (fold j))

folded_keys_lem :
    (fold : Folding) (seen : List String) (m : Fields)
    → reject_folded_keys fold seen m ≡ none
    → CasesApart fold m × Unseen fold seen m × Spelled fold m
folded_keys_lem fold seen no_fields ok = (tt, (λ j w h. elim h [ ]), (λ j w h. elim h [ ]))
folded_keys_lem fold seen (field k v m) ok =
    let (spelled, new, rest) = folded_head fold seen k v m ok in
    let (apart, unseen, spelling) = folded_keys_lem fold (fold k ∷ seen) m rest in
    (
      ((λ j w h. (unseen_head fold seen j k (unseen j w h)).0), apart),
      (λ j w h. elim h [
        | inl (e, _) ↦ subst (λ i. contains (fold i) seen ≡ false) e new
        | inr h' ↦ (unseen_head fold seen j k (unseen j w h')).1
      ]),
      (λ j w h. elim h [
        | inl (e, _) ↦ subst (λ i. equal_fold fold i "snapshot" ≡ true → i ≡ "snapshot") e spelled
        | inr h' ↦ spelling j w h'
      ]),
    )

folded_keys_complete :
    (fold : Folding) (seen : List String) (m : Fields)
    → CasesApart fold m
    → Unseen fold seen m
    → Spelled fold m
    → reject_folded_keys fold seen m ≡ none
unfolding reject_folded_keys
folded_keys_complete fold seen no_fields apart unseen spelled = refl
folded_keys_complete fold seen (field k v m) (new, apart) unseen spelled =
    let rest =
      folded_keys_complete fold (fold k ∷ seen) m apart
        (λ j w h.
          let other = new j w h in
          let before = unseen j w (inr h) in
          let e : contains (fold j) (fold k ∷ seen) ≡ false =
            ground (arith, eq_iff (fold k) (fold j)) in
          e)
        (λ j w h. spelled j w (inr h)) in
    let first = unseen k v (inl (refl, refl)) in
    let well = spelled k v (inl (refl, refl)) in ground (arith, eq_iff k "snapshot")

custom_lem :
    (fold : Folding) (m : Fields)
    → reject_custom fold m ≡ none
    → (k : String) (v : Json) → Holds k v m
    → contains_fold fold k custom_resource_fields ≡ false
unfolding reject_custom
custom_lem fold no_fields ok k v h = elim h [ ]
custom_lem fold (field j w m) ok k v (inl (e, _)) =
    subst (λ i. contains_fold fold i custom_resource_fields ≡ false) e (ground arith)
custom_lem fold (field j w m) ok k v (inr h) = custom_lem fold m (ground arith) k v h

custom_complete :
    (fold : Folding) (m : Fields)
    → ((k : String) (v : Json) → Holds k v m → contains_fold fold k custom_resource_fields ≡ false)
    → reject_custom fold m ≡ none
unfolding reject_custom
custom_complete fold no_fields all = refl
custom_complete fold (field j w m) all =
    let first = all j w (inl (refl, refl)) in
    let rest = custom_complete fold m (λ k v h. all k v (inr h)) in rw first rest

-- What the loop over the supported fields asks of one.
abbrev Supported : Folding → String → Json → Type 0
Supported fold k v =
    (contains_fold fold k create_fields ≡ true) × (equal_fold fold k "name" ≡ true → Dotless v)

unknown_head :
    (fold : Folding) (k : String) (v : Json) (m : Fields)
    → reject_unknown fold (field k v m) ≡ none
    → Supported fold k v × (reject_unknown fold m ≡ none)
unfolding reject_unknown
unknown_head fold k v m ok =
    let listed : contains_fold fold k create_fields ≡ true = ground arith in
    let named : equal_fold fold k "name" ≡ true → check_sandbox_name v ≡ none = λ e. ground arith in
    ((listed, (λ e. check-Dotless v (named e))), ground arith)

unknown_lem :
    (fold : Folding) (m : Fields)
    → reject_unknown fold m ≡ none
    → (k : String) (v : Json) → Holds k v m
    → Supported fold k v
unknown_lem fold no_fields ok k v h = elim h [ ]
unknown_lem fold (field j w m) ok k v (inl (e, d)) =
    subst (λ i. Supported fold i v) e (subst (Supported fold j) d (unknown_head fold j w m ok).0)
unknown_lem fold (field j w m) ok k v (inr h) =
    unknown_lem fold m (unknown_head fold j w m ok).1 k v h

unknown_complete :
    (fold : Folding) (m : Fields)
    → ((k : String) (v : Json) → Holds k v m → Supported fold k v)
    → reject_unknown fold m ≡ none
unfolding reject_unknown
unknown_complete fold no_fields all = refl
unknown_complete fold (field j w m) all =
    let rest = unknown_complete fold m (λ k v h. all k v (inr h)) in
    let (listed, named) = all j w (inl (refl, refl)) in
    elim (Bool-cases (equal_fold fold j "name")) [
      | inl e ↦ simp (listed, e, Dotless-check w (named e), rest)
      | inr e ↦ simp (listed, e, rest)
    ]

snapshot_lem :
    (v : Option Json)
    → check_snapshot v ≡ none
    → (s : String) × (v ≡ some (string s)) × (is_blank s ≡ false)
unfolding check_snapshot
snapshot_lem (some (string s)) ok = (s, refl, ground arith)
snapshot_lem none ok = ground arith
snapshot_lem (some null) ok = ground arith
snapshot_lem (some (boolean b)) ok = ground arith
snapshot_lem (some (number n)) ok = ground arith
snapshot_lem (some (array xs)) ok = ground arith
snapshot_lem (some (object m)) ok = ground arith

fields-Accepted :
    (fold : Folding) (m : Fields) → require_snapshot_fields fold m ≡ none → Accepted fold m
unfolding require_snapshot_fields
fields-Accepted fold m ok =
    let keys : reject_folded_keys fold [] m ≡ none = ground arith in
    let custom : reject_custom fold m ≡ none = ground arith in
    let known : reject_unknown fold m ≡ none = ground arith in
    let snapshot : check_snapshot (find "snapshot" m) ≡ none = ground arith in
    let (apart, _, spelled) = folded_keys_lem fold [] m keys in
    (
      (λ k v h.
          let (listed, named) = unknown_lem fold m known k v h in
          (listed, custom_lem fold m custom k v h, spelled k v h, named)),
      apart,
      snapshot_lem (find "snapshot" m) snapshot,
    )

Accepted-fields :
    (fold : Folding) (m : Fields) → Accepted fold m → require_snapshot_fields fold m ≡ none
unfolding require_snapshot_fields check_snapshot
Accepted-fields fold m (allowed, apart, (s, found, filled)) =
    let keys : reject_folded_keys fold [] m ≡ none =
      folded_keys_complete fold [] m apart (λ j w h. refl)
        (λ j w h. let (_, _, spelled, _) = allowed j w h in spelled) in
    let custom : reject_custom fold m ≡ none =
      custom_complete fold m (λ k v h. let (_, custom, _, _) = allowed k v h in custom) in
    let known : reject_unknown fold m ≡ none =
      unknown_complete fold m
        (λ k v h. let (listed, _, _, named) = allowed k v h in (listed, named)) in
    let snapshot : check_snapshot (find "snapshot" m) ≡ none = ground arith in ground arith

decoded_accepts :
    (fold : Folding) (d : Option Fields)
    → ((elim d as (λ _. Option Refusal) [
      | none ↦ some invalid_request_body
      | some m ↦ require_snapshot_fields fold m
    ])
          ≡ none
        → (m : Fields) × (d ≡ some m) × Accepted fold m)
      × ((m : Fields)
          → d ≡ some m
          → Accepted fold m
          → (elim d as (λ _. Option Refusal) [
            | none ↦ some invalid_request_body
            | some m' ↦ require_snapshot_fields fold m'
          ])
            ≡ none)
decoded_accepts fold none = (ground arith, ground arith)
decoded_accepts fold (some m) = (
  (λ ok. (m, refl, fields-Accepted fold m ok)),
  (λ m' e all. Accepted-fields fold m (subst (Accepted fold) (some-injective m' m (sym e)) all)),
)

-- The empty body has no snapshot.
empty_refused : (fold : Folding) → require_snapshot_fields fold no_fields ≢ none
unfolding require_snapshot_fields reject_folded_keys reject_custom reject_unknown check_snapshot
    find
empty_refused fold = ground arith

-- A create passes the policy if and only if its body decodes to an object (or null), each field is a
-- supported one in some case and none picks resources, a name is a string without a dot (or null), no
-- two names differ by case only, and there is a snapshot, exactly so spelled, that is not blank.
pub create_policy_accepts :
    (fold : Folding) (b : Body)
    → ((require_snapshot_create fold b ≡ none)
        → (m : Fields) × (decode_first b ≡ some m) × Accepted fold m)
      × ((m : Fields)
          → decode_first b ≡ some m
          → Accepted fold m
          → require_snapshot_create fold b ≡ none)
unfolding require_snapshot_create decode_first
create_policy_accepts fold empty_body = ((λ ok. elim (empty_refused fold ok) [ ]), ground arith)
create_policy_accepts fold malformed_body = (ground arith, ground arith)
create_policy_accepts fold (value_body v trailing) = decoded_accepts fold (decode_value v)
