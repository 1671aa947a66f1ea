-- ===== src/Proxy/Ports/Valid.antt =====
-- Which ports a create may open.
use g_sandbox.Base.{
  ℕ, ◌+◌, ◌≤◌, ◌≡◌, ◌≢◌, refl, ◌⊎◌, inl, inr, Bool, true, false, Option, none, some, List, [], ◌∷◌,
  length, ◌==◌, arith, subst, Bool-cases, Option-cases,
}
use g_sandbox.Proxy.Json.{
  Json, null, boolean, number, string, array, object, natural, negative, fraction, Items, no_items,
  item, Fields, find, Body, empty_body, malformed_body, value_body, unmarshal,
}
use g_sandbox.Proxy.Ports.{
  PortError, invalid_request_body, not_integers, Parsed, absent, present, parse_error, parse_items,
  parse_field, parse_public_ports, check_ports, has_agent_port, check_present,
  validate_public_ports,
}

-- How many elements an array has.
abbrev pub size : Items → ℕ
size no_items = 0
size (item v xs) = 1 + size xs

-- Elements that are ports which can be opened: integers from 1 to 65535, none of them one of the three
-- that the preview proxy keeps.
abbrev pub AllOpen : Items → Type 0
AllOpen no_items = Unit
AllOpen (item (number (natural p)) xs) =
    (1 ≤ p) × (p ≤ 65535) × (p ≢ 22222) × (p ≢ 2280) × (p ≢ 33333) × AllOpen xs
AllOpen (item _ xs) = ⊥

-- An element is 8080.
abbrev pub HasAgentPort : Items → Type 0
HasAgentPort no_items = ⊥
HasAgentPort (item (number (natural p)) xs) = (p ≡ 8080) ⊎ HasAgentPort xs
HasAgentPort (item _ xs) = HasAgentPort xs

-- What may stand in the field: nothing, null, or an array of one to sixteen open ports, of a sealed
-- sandbox with 8080 among them.
abbrev pub Openable : Bool → Option Json → Type 0
Openable sealed none = Unit
Openable sealed (some null) = Unit
Openable sealed (some (array xs)) =
    (1 ≤ size xs) × (size xs ≤ 16) × AllOpen xs × ((sealed ≡ false) ⊎ HasAgentPort xs)
Openable sealed (some _) = ⊥

-- A body with such a field, or an empty one.
abbrev pub OpenableBody : Bool → Body → Type 0
OpenableBody sealed empty_body = Unit
OpenableBody sealed malformed_body = ⊥
OpenableBody sealed (value_body v trailing) = elim (unmarshal (value_body v trailing)) [
  | none ↦ ⊥
  | some m ↦ Openable sealed (find "publicPorts" m)
]

-- What an array decodes to, one entry for each element.
record Decoded (xs : Items) (ps : List (Option ℕ)) : Type 0 where
  same_size : length ps ≡ size xs
  in_order : (check_ports ps ≡ none → AllOpen xs) × (AllOpen xs → check_ports ps ≡ none)
  agent :
      (has_agent_port ps ≡ true → HasAgentPort xs) × (HasAgentPort xs → has_agent_port ps ≡ true)

Decoded-natural :
    (p : ℕ) (xs : Items) (ps : List (Option ℕ))
    → Decoded xs ps
    → Decoded (item (number (natural p)) xs) (some p ∷ ps)
unfolding check_ports has_agent_port
Decoded-natural p xs ps d = record {
  same_size = omega (arith, d.same_size);
  in_order = (
    (λ ok. (
      ground arith,
      ground arith,
      ground arith,
      ground arith,
      ground arith,
      d.in_order.0 (ground arith),
    )),
    (λ (a, b, c, e, f, all). ground (arith, d.in_order.1 all)),
  );
  agent = (
    (λ h. elim (Bool-cases (p == 8080)) [
      | inl e ↦ inl (ground arith)
      | inr e ↦ inr (d.agent.0 (ground arith))
    ]),
    (λ h. elim h [ inl e ↦ ground arith | inr rest ↦ ground (arith, d.agent.1 rest) ]),
  );
}

Decoded-negative :
    (n : ℕ) (xs : Items) (ps : List (Option ℕ))
    → Decoded xs ps
    → Decoded (item (number (negative n)) xs) (none ∷ ps)
unfolding check_ports has_agent_port
Decoded-negative n xs ps d = record {
  same_size = omega (arith, d.same_size);
  in_order = ((λ ok. absurd (ground arith)), (λ bad. absurd bad));
  agent = d.agent;
}

Decoded-nothing : Decoded no_items []
unfolding check_ports has_agent_port
Decoded-nothing = record {
  same_size = refl;
  in_order = ((λ ok. tt), (λ all. refl));
  agent = ((λ h. absurd (ground arith)), (λ bad. absurd bad));
}

parsed-Decoded : (xs : Items) (ps : List (Option ℕ)) → parse_items xs ≡ some ps → Decoded xs ps
unfolding parse_items
parsed-Decoded no_items ps e =
    let same : [] ≡ ps = ground arith in subst (Decoded no_items) same Decoded-nothing
parsed-Decoded (item (number (natural p)) xs) ps e = elim (Option-cases (parse_items xs)) [
  | inl bad ↦ absurd (ground arith)
  | inr (qs, q) ↦
      subst (Decoded (item (number (natural p)) xs)) (ground arith)
        (Decoded-natural p xs qs (parsed-Decoded xs qs q))
]
parsed-Decoded (item (number (negative n)) xs) ps e = elim (Option-cases (parse_items xs)) [
  | inl bad ↦ absurd (ground arith)
  | inr (qs, q) ↦
      subst (Decoded (item (number (negative n)) xs)) (ground arith)
        (Decoded-negative n xs qs (parsed-Decoded xs qs q))
]
parsed-Decoded (item null xs) ps e = absurd (ground arith)
parsed-Decoded (item (boolean _) xs) ps e = absurd (ground arith)
parsed-Decoded (item (number fraction) xs) ps e = absurd (ground arith)
parsed-Decoded (item (string _) xs) ps e = absurd (ground arith)
parsed-Decoded (item (array _) xs) ps e = absurd (ground arith)
parsed-Decoded (item (object _) xs) ps e = absurd (ground arith)

-- An array of open ports decodes.
open_parses : (xs : Items) → AllOpen xs → parse_items xs ≢ none
unfolding parse_items
open_parses no_items all e = absurd (ground arith)
open_parses (item (number (natural p)) xs) (a, b, c, d, f, all) e =
    open_parses xs all
      (elim (Option-cases (parse_items xs)) [ inl bad ↦ bad | inr (qs, q) ↦ absurd (ground arith) ])
open_parses (item (number (negative n)) xs) all e = absurd all
open_parses (item null xs) all e = absurd all
open_parses (item (boolean _) xs) all e = absurd all
open_parses (item (number fraction) xs) all e = absurd all
open_parses (item (string _) xs) all e = absurd all
open_parses (item (array _) xs) all e = absurd all
open_parses (item (object _) xs) all e = absurd all

present-none :
    (sealed : Bool) (xs : Items) (ps : List (Option ℕ))
    → parse_items xs ≡ some ps
    → (check_present sealed ps ≡ none → Openable sealed (some (array xs)))
      × (Openable sealed (some (array xs)) → check_present sealed ps ≡ none)
unfolding check_present
present-none sealed xs ps e = go ps (parsed-Decoded xs ps e)
  where
    go :
        (ps : List (Option ℕ))
        → Decoded xs ps
        → (check_present sealed ps ≡ none → Openable sealed (some (array xs)))
          × (Openable sealed (some (array xs)) → check_present sealed ps ≡ none)
    go [] d = (
      (λ ok. absurd (ground arith)),
      (λ (one, _, _, _). absurd (omega (arith, one, d.same_size))),
    )
    go (p ∷ ps) d = (
      (λ ok.
          let ports : check_ports (p ∷ ps) ≡ none = ground arith in
          let small : length (p ∷ ps) ≤ 16 = ground arith in
          (
            omega (arith, d.same_size),
            omega (arith, small, d.same_size),
            d.in_order.0 ports,
            elim (Bool-cases (has_agent_port (p ∷ ps))) [
              | inl there ↦ inr (d.agent.0 there)
              | inr missing ↦ inl (ground arith)
            ],
          )),
      (λ (one, small, all, agent).
          let ports : check_ports (p ∷ ps) ≡ none = d.in_order.1 all in
          let fits : length (p ∷ ps) ≤ 16 = omega (arith, small, d.same_size) in
          elim agent [
            | inl unsealed ↦ ground arith
            | inr there ↦
                let found : has_agent_port (p ∷ ps) ≡ true = d.agent.1 there in ground arith
          ]),
    )

-- What `validate_public_ports` makes of the parsed field.
abbrev judged : Bool → Parsed → Option PortError
judged sealed absent = none
judged sealed (parse_error e) = some e
judged sealed (present ps) = check_present sealed ps

items_accept :
    (sealed : Bool) (xs : Items) (o : Option (List (Option ℕ)))
    → parse_items xs ≡ o
    → let parsed : Parsed = elim o [ none ↦ parse_error not_integers | some ps ↦ present ps ] in
      (judged sealed parsed ≡ none → Openable sealed (some (array xs)))
      × (Openable sealed (some (array xs)) → judged sealed parsed ≡ none)
items_accept sealed xs none bad =
    ((λ ok. absurd (ground arith)), (λ (_, _, all, _). absurd (open_parses xs all bad)))
items_accept sealed xs (some ps) e = present-none sealed xs ps e

field_accepts :
    (sealed : Bool) (o : Option Json)
    → (judged sealed (parse_field o) ≡ none → Openable sealed o)
      × (Openable sealed o → judged sealed (parse_field o) ≡ none)
unfolding parse_field
field_accepts sealed none = ((λ ok. tt), (λ _. refl))
field_accepts sealed (some null) = ((λ ok. tt), (λ _. refl))
field_accepts sealed (some (array xs)) = items_accept sealed xs (parse_items xs) refl
field_accepts sealed (some (boolean _)) = ((λ ok. absurd (ground arith)), (λ bad. absurd bad))
field_accepts sealed (some (number _)) = ((λ ok. absurd (ground arith)), (λ bad. absurd bad))
field_accepts sealed (some (string _)) = ((λ ok. absurd (ground arith)), (λ bad. absurd bad))
field_accepts sealed (some (object _)) = ((λ ok. absurd (ground arith)), (λ bad. absurd bad))

-- A create's publicPorts pass if and only if the body is empty, or decodes to an object (or null) whose
-- field is absent or null, or an array of 1 to 16 integers between 1 and 65535, none of them 22222,
-- 2280 or 33333, of a sealed sandbox with 8080 among them.
pub validate-Openable :
    (b : Body) (sealed : Bool)
    → (validate_public_ports b sealed ≡ none → OpenableBody sealed b)
      × (OpenableBody sealed b → validate_public_ports b sealed ≡ none)
unfolding validate_public_ports parse_public_ports
validate-Openable empty_body sealed = ((λ ok. tt), (λ _. refl))
validate-Openable malformed_body sealed =
    unfold unmarshal in ((λ ok. absurd (ground arith)), (λ bad. absurd bad))
validate-Openable (value_body v trailing) sealed = go (unmarshal (value_body v trailing))
  where
    go :
        (o : Option Fields)
        → let parsed : Parsed = elim o [
          | none ↦ parse_error invalid_request_body
          | some m ↦ parse_field (find "publicPorts" m)
        ] in
          let accepted : Type 0 = elim o [
            | none ↦ ⊥
            | some m ↦ Openable sealed (find "publicPorts" m)
          ] in
          (judged sealed parsed ≡ none → accepted) × (accepted → judged sealed parsed ≡ none)
    go none = ((λ ok. absurd (ground arith)), (λ bad. absurd bad))
    go (some m) = field_accepts sealed (find "publicPorts" m)
