-- ===== src/Proxy/Ports.antt =====
-- The publicPorts field of a create: internal/proxy/ports.go.
pub mod Valid
use Prim.Native.String.{String}
use g_sandbox.Base.{
  ℕ, suc, Bool, true, false, ◌&&◌, ◌||◌, not, Option, none, some, List, [], ◌∷◌, length, ltb, mem,
  if◌then◌else◌,
}
use g_sandbox.Proxy.Json.{
  Json, null, number, Number, natural, negative, fraction, array, Items, no_items, item, Fields,
  find, Body, empty_body, value_body, unmarshal,
}

abbrev pub reserved_preview_ports : List ℕ
reserved_preview_ports = 22222 ∷ 2280 ∷ 33333 ∷ []

abbrev pub max_public_ports : ℕ
max_public_ports = 16

abbrev pub agent_port : ℕ
agent_port = 8080

-- The errors of `ValidatePublicPorts` and `parsePublicPorts`.
pub data PortError : Type 0 where
  invalid_request_body : PortError
  not_integers : PortError
  no_ports : PortError
  too_many : PortError
  out_of_range : PortError
  reserved_port : PortError
  no_agent_port : PortError

-- The loop over the elements: each an integer. A negative one is told apart by `none`.
unfoldable pub parse_items : Items → Option (List (Option ℕ))
parse_items no_items = some []
parse_items (item (number (natural n)) xs) = elim (parse_items xs) [
  | none ↦ none
  | some ps ↦ some (some n ∷ ps)
]
parse_items (item (number (negative n)) xs) = elim (parse_items xs) [
  | none ↦ none
  | some ps ↦ some (none ∷ ps)
]
parse_items (item _ xs) = none

-- How `parsePublicPorts` ends.
pub data Parsed : Type 0 where
  absent : Parsed
  present : List (Option ℕ) → Parsed
  parse_error : PortError → Parsed

unfoldable pub parse_field : Option Json → Parsed
parse_field none = absent
parse_field (some null) = absent
parse_field (some (array xs)) = elim (parse_items xs) [
  | none ↦ parse_error not_integers
  | some ps ↦ present ps
]
parse_field (some _) = parse_error not_integers

-- `parsePublicPorts`
unfoldable pub parse_public_ports : Body → Parsed
parse_public_ports empty_body = absent
parse_public_ports b = elim (unmarshal b) [
  | none ↦ parse_error invalid_request_body
  | some m ↦ parse_field (find "publicPorts" m)
]

-- The loop over the ports.
unfoldable pub check_ports : List (Option ℕ) → Option PortError
check_ports [] = none
check_ports (none ∷ ps) = some out_of_range
check_ports (some p ∷ ps) =
    let rest = check_ports ps in
    if ltb p 1 || ltb 65535 p
    then some out_of_range
    else if mem p reserved_preview_ports
    then some reserved_port
    else rest

unfoldable pub has_agent_port : List (Option ℕ) → Bool
has_agent_port [] = false
has_agent_port (none ∷ ps) = has_agent_port ps
has_agent_port (some p ∷ ps) = mem p (agent_port ∷ []) || has_agent_port ps

unfoldable pub check_present : Bool → List (Option ℕ) → Option PortError
check_present sealed [] = some no_ports
check_present sealed (p ∷ ps) =
    if ltb max_public_ports (length (p ∷ ps)) then some too_many else elim (check_ports (p ∷ ps)) [
      | some e ↦ some e
      | none ↦ if sealed && not (has_agent_port (p ∷ ps)) then some no_agent_port else none
    ]

-- `ValidatePublicPorts`
unfoldable pub validate_public_ports : Body → Bool → Option PortError
validate_public_ports b sealed = elim (parse_public_ports b) [
  | absent ↦ none
  | parse_error e ↦ some e
  | present ps ↦ check_present sealed ps
]
