-- ===== src/Proxy/Routes/Access.antt =====
-- Who reaches a sandbox.
use Prim.Native.String.{String}
use package.text.Mathlib.Text.{◌==◌}
use package.text.Mathlib.TextEquality.{eq_iff}
use g_sandbox.Base.{
  ◌≡◌, refl, subst, ◌⊎◌, inl, inr, Bool, true, false, ◌&&◌, ◌||◌, not, Option, none, some, List, [],
  ◌∷◌, if◌then◌else◌, Bool-cases, arith,
}
use g_sandbox.Proxy.Text.{equal_fold, contains}
use g_sandbox.Proxy.Owner.{owner_label, check_owner, is_sealed_sandbox}
use g_sandbox.Proxy.Routes.{
  Method, get, post, put, delete, other_method, Route, unrouted, read, remove, sandbox_route,
  blocked, start, stop, archive, ensure_billing, ssh_access, force_delete, force_stop, labels,
  other_action, post_route, method_route, route_of, Caller, owns, owner_not_sealed, is_open_to_ssh,
  grants,
}

-- What an operator may do to any sandbox.
abbrev pub operator_actions : List String
operator_actions = "/stop" ∷ "/archive" ∷ "/ensure-billing" ∷ "/force" ∷ "/force-stop" ∷ []

-- What can be done to a sealed sandbox.
abbrev pub lifecycle_actions : List String
lifecycle_actions = "/start" ∷ "/labels" ∷ operator_actions

abbrev pub is_sealed : Caller → Bool
is_sealed c = elim c.found [ none ↦ false | some ls ↦ is_sealed_sandbox ls ]

-- The reach of an operator, and that into a sealed sandbox: reading and deleting, and those actions.
abbrev pub Among : List String → Method → Option String → Type 0
Among listed m none = (m ≡ get) ⊎ (m ≡ delete)
Among listed m (some action) = contains action listed ≡ true

-- What a caller who gets through must be, and what of the sandbox must hold.
abbrev pub MayReach : Caller → Method → Option String → Type 0
MayReach c m action =
    ((owns c ≡ true) ⊎ ((c.is_operator ≡ true) × Among operator_actions m action))
    × ((is_sealed c ≡ false) ⊎ Among lifecycle_actions m action)

abbrev is_operator_route : Route → Bool
is_operator_route read = true
is_operator_route remove = true
is_operator_route stop = true
is_operator_route archive = true
is_operator_route ensure_billing = true
is_operator_route force_delete = true
is_operator_route force_stop = true
is_operator_route _ = false

abbrev is_lifecycle_route : Route → Bool
is_lifecycle_route start = true
is_lifecycle_route labels = true
is_lifecycle_route r = is_operator_route r

-- One case of the switch: if the routes that `p` singles out are those of listed actions, so far.
case_lem :
    (p : Route → Bool) (listed : List String) (name action : String) (r rest : Route)
    → (p r ≡ true → contains name listed ≡ true)
    → (p rest ≡ true → contains action listed ≡ true)
    → p (if name == action then r else rest) ≡ true
    → contains action listed ≡ true
case_lem p listed name action r rest here there h = elim (Bool-cases (name == action)) [
  | inl e ↦
      subst (λ a. contains a listed ≡ true) ((eq_iff name action).0 e)
        (here (subst (λ c. p (if c then r else rest) ≡ true) e h))
  | inr e ↦ there (subst (λ c. p (if c then r else rest) ≡ true) e h)
]

module _ (p : Route → Bool) (listed : List String)
    (at_start : p start ≡ true → contains "/start" listed ≡ true)
    (at_stop : p stop ≡ true → contains "/stop" listed ≡ true)
    (at_archive : p archive ≡ true → contains "/archive" listed ≡ true)
    (at_ensure : p ensure_billing ≡ true → contains "/ensure-billing" listed ≡ true)
    (at_ssh : p ssh_access ≡ true → contains "/ssh-access" listed ≡ true)
    (at_force_stop : p force_stop ≡ true → contains "/force-stop" listed ≡ true)
    (at_force : p force_delete ≡ true → contains "/force" listed ≡ true)
    (at_labels : p labels ≡ true → contains "/labels" listed ≡ true)
    (blocked_out : p blocked ≡ false) (other_out : p other_action ≡ false) where
  other : (a : String) → p other_action ≡ true → contains a listed ≡ true
  other a h = ground arith

  method_lem :
      (m : Method) (action : String)
      → p (method_route m action) ≡ true
      → contains action listed ≡ true
  unfolding method_route post_route
  method_lem get action h = other action h
  method_lem other_method action h = other action h
  method_lem put action h =
      case_lem p listed "/labels" action labels other_action at_labels (other action) h
  method_lem delete action h =
      case_lem p listed "/force" action force_delete other_action at_force (other action) h
  method_lem post action h =
      case_lem p listed "/start" action start _ at_start
        (case_lem p listed "/stop" action stop _ at_stop (
          case_lem p listed "/archive" action archive _ at_archive (
            case_lem p listed "/ensure-billing" action ensure_billing _ at_ensure (
              case_lem p listed "/ssh-access" action ssh_access _ at_ssh (
                case_lem p listed "/force-stop" action force_stop other_action at_force_stop
                  (other action))))))
        h

  route_lem :
      (m : Method) (action : String) → p (route_of m action) ≡ true → contains action listed ≡ true
  unfolding route_of
  route_lem m action h = elim (Bool-cases ("/autostop" == action || "/autoarchive" == action)) [
    | inl e ↦
        let bad = subst (λ c. p (if c then blocked else method_route m action) ≡ true) e h in
        ground arith
    | inr e ↦
        method_lem m action
          (subst (λ c. p (if c then blocked else method_route m action) ≡ true) e h)
  ]

operator_route_lem :
    (m : Method) (action : String)
    → is_operator_route (route_of m action) ≡ true
    → contains action operator_actions ≡ true
operator_route_lem =
    route_lem is_operator_route operator_actions (λ h. ground arith) (λ h. refl) (λ h. refl)
      (λ h. refl) (λ h. ground arith) (λ h. refl) (λ h. refl) (λ h. ground arith) refl refl

lifecycle_route_lem :
    (m : Method) (action : String)
    → is_lifecycle_route (route_of m action) ≡ true
    → contains action lifecycle_actions ≡ true
lifecycle_route_lem =
    route_lem is_lifecycle_route lifecycle_actions (λ h. refl) (λ h. refl) (λ h. refl) (λ h. refl)
      (λ h. ground arith) (λ h. refl) (λ h. refl) (λ h. refl) refl refl

owner_label_lem :
    (c : Caller) (label : Option String) (sealed : Bool)
    → equal_fold c.fold "" c.wallet ≡ false
    → equal_fold c.fold (elim label as (λ _. String) [ none ↦ "" | some owner ↦ owner ]) c.wallet
        && not sealed
      ≡ true
    → ((elim label as (λ _. Bool) [ none ↦ false | some owner ↦ equal_fold c.fold owner c.wallet ])
        ≡ true)
      × (sealed ≡ false)
owner_label_lem c none sealed named h = ground arith
owner_label_lem c (some owner) sealed named h = ground arith

owner_not_sealed_lem :
    (c : Caller) (found : Option (String → Option String))
    → equal_fold c.fold "" c.wallet ≡ false
    → owner_not_sealed c found ≡ true
    → (check_owner c.fold found c.wallet ≡ true)
      × ((elim found as (λ _. Bool) [ none ↦ false | some ls ↦ is_sealed_sandbox ls ]) ≡ false)
unfolding owner_not_sealed check_owner
owner_not_sealed_lem c none named h = ground arith
owner_not_sealed_lem c (some ls) named h =
    owner_label_lem c (ls owner_label) (is_sealed_sandbox ls) named h

ssh_lem :
    (found : Option (String → Option String))
    → (elim found as (λ _. Bool) [ none ↦ false | some ls ↦ not (is_sealed_sandbox ls) ]) ≡ true
    → (elim found as (λ _. Bool) [ none ↦ false | some ls ↦ is_sealed_sandbox ls ]) ≡ false
ssh_lem none h = ground arith
ssh_lem (some ls) h = ground arith

grants-MayReach :
    (c : Caller) (r : Route)
    → equal_fold c.fold "" c.wallet ≡ false
    → grants c r ≡ true
    → ((owns c ≡ true) ⊎ ((c.is_operator ≡ true) × (is_operator_route r ≡ true)))
      × ((is_sealed c ≡ false) ⊎ (is_lifecycle_route r ≡ true))
unfolding grants
grants-MayReach c unrouted named h = ground arith
grants-MayReach c read named h = ground arith
grants-MayReach c remove named h = ground arith
grants-MayReach c blocked named h = ground arith
grants-MayReach c start named h = (inl h, inr refl)
grants-MayReach c stop named h = ground arith
grants-MayReach c archive named h = ground arith
grants-MayReach c ensure_billing named h = ground arith
grants-MayReach c ssh_access named h =
    let mine : owns c ≡ true = ground arith in
    let reach : is_open_to_ssh c ≡ true = ground arith in (inl mine, inl (ssh_lem c.found reach))
grants-MayReach c force_delete named h = (inr (h, refl), inr refl)
grants-MayReach c force_stop named h = (inr (h, refl), inr refl)
grants-MayReach c labels named h = (inl h, inr refl)
grants-MayReach c other_action named h =
    let (mine, unsealed) = owner_not_sealed_lem c c.found named h in (inl mine, inl unsealed)

action-MayReach :
    (c : Caller) (m : Method) (action : String)
    → equal_fold c.fold "" c.wallet ≡ false
    → grants c (route_of m action) ≡ true
    → MayReach c m (some action)
action-MayReach c m action named h =
    let (who, what) = grants-MayReach c (route_of m action) named h in
    (
      elim who [
        | inl mine ↦ inl mine
        | inr (operator, by) ↦ inr (operator, operator_route_lem m action by)
      ],
      elim what [ inl unsealed ↦ inl unsealed | inr by ↦ inr (lifecycle_route_lem m action by) ],
    )

bare-MayReach :
    (c : Caller) (m : Method)
    → (m ≡ get) ⊎ (m ≡ delete)
    → c.is_operator || owns c ≡ true
    → MayReach c m none
bare-MayReach c m reads h = elim (Bool-cases (owns c)) [
  | inl mine ↦ (inl mine, inr reads)
  | inr other ↦ (inr (ground arith, reads), inr reads)
]

-- If a request under /sandbox/:id gets through, by any method, with an action or without one, and from
-- a caller whose wallet is not empty: the caller owns the sandbox, or is an operator and reads or
-- deletes it or the action is one of five; and the sandbox is not sealed, or it is read or deleted or
-- the action is one of seven.
pub granted-MayReach :
    (c : Caller) (m : Method) (action : Option String)
    → equal_fold c.fold "" c.wallet ≡ false
    → grants c (sandbox_route m action) ≡ true
    → MayReach c m action
unfolding sandbox_route grants
granted-MayReach c get none named h = bare-MayReach c get (inl refl) h
granted-MayReach c delete none named h = bare-MayReach c delete (inr refl) h
granted-MayReach c post none named h = absurd (ground arith)
granted-MayReach c put none named h = absurd (ground arith)
granted-MayReach c other_method none named h = absurd (ground arith)
granted-MayReach c m (some action) named h = action-MayReach c m action named h
