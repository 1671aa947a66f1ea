-- ===== src/Broker/Relay.antt =====
-- The broker's relay to providers: internal/broker/relayguard.go, and the route of cmd/broker/main.go
-- in front of it. The indexer's answer, the parsed URL and the addresses that the dialer tries are
-- given.
pub mod Routable
use Prim.Native.String.{String}
use package.text.Mathlib.Text.{◌==◌ as str_eq}
use g_sandbox.Base.{
  ℕ, ◌/◌, ◌%◌, ◌^◌, Bool, true, false, ◌&&◌, ◌||◌, not, ◌==◌, Option, none, some, List, [], ◌∷◌,
  if◌then◌else◌,
}

-- `net.IP`: the four bytes of an IPv4 address, mapped into IPv6 or not, or the two halves of another
-- IPv6 address.
pub data Ip : Type 0 where
  v4 : (a b c d : ℕ) → Ip
  v6 : (high low : ℕ) → Ip

-- The first two bytes of an IPv6 address.
abbrev pub byte_0 : ℕ → ℕ
byte_0 high = high / 2 ^ 56

abbrev pub byte_1 : ℕ → ℕ
byte_1 high = high / 2 ^ 48 % 256

-- The methods of `net.IP`.
abbrev pub is_loopback : Ip → Bool
is_loopback (v4 a b c d) = a == 127
is_loopback (v6 high low) = high == 0 && low == 1

abbrev pub is_private : Ip → Bool
is_private (v4 a b c d) = a == 10 || (a == 172 && b / 16 == 1) || (a == 192 && b == 168)
is_private (v6 high low) = byte_0 high / 2 == 126

abbrev pub is_link_local_unicast : Ip → Bool
is_link_local_unicast (v4 a b c d) = a == 169 && b == 254
is_link_local_unicast (v6 high low) = byte_0 high == 254 && byte_1 high / 64 == 2

abbrev pub is_link_local_multicast : Ip → Bool
is_link_local_multicast (v4 a b c d) = a == 224 && b == 0 && c == 0
is_link_local_multicast (v6 high low) = byte_0 high == 255 && byte_1 high % 16 == 2

abbrev pub is_interface_local_multicast : Ip → Bool
is_interface_local_multicast (v4 a b c d) = false
is_interface_local_multicast (v6 high low) = byte_0 high == 255 && byte_1 high % 16 == 1

abbrev pub is_multicast : Ip → Bool
is_multicast (v4 a b c d) = a / 16 == 14
is_multicast (v6 high low) = byte_0 high == 255

abbrev pub is_unspecified : Ip → Bool
is_unspecified (v4 a b c d) = a == 0 && b == 0 && c == 0 && d == 0
is_unspecified (v6 high low) = high == 0 && low == 0

-- `forbiddenIP` of an address that parses
unfoldable pub forbidden_ip : Ip → Bool
forbidden_ip ip =
    is_loopback ip
    || is_private ip
    || is_link_local_unicast ip
    || is_link_local_multicast ip
    || is_interface_local_multicast ip
    || is_multicast ip
    || is_unspecified ip

-- A parsed URL, what is used of it.
pub record Url : Type 0 where
  pub scheme : String
  pub hostname : String

-- Whether `ValidateRelayTarget` accepts.
unfoldable pub is_relay_target : Url → Bool
is_relay_target u =
    (str_eq u.scheme "http" || str_eq u.scheme "https") && not (str_eq u.hostname "")

-- An address that the dialer tries, `none` if it does not parse, and whether it would connect.
pub record Attempt : Type 0 where
  pub ip : Option Ip
  pub connects : Bool

-- `Control` of the guarded dialer
unfoldable pub may_dial : Option Ip → Bool
may_dial none = false
may_dial (some ip) = not (forbidden_ip ip)

-- The dialer: the address that is connected.
unfoldable pub dial : List Attempt → Option (Option Ip)
dial [] = none
dial (t ∷ ts) = let rest = dial ts in if may_dial t.ip && t.connects then some t.ip else rest

-- A request to the relay: whether it has the header X-0g-Broker-Relay, and the provider's URL: `none`
-- if the provider is not indexed, `some none` if it does not parse.
pub record RelayRequest : Type 0 where
  pub has_loop_header : Bool
  pub target : Option (Option Url)
  pub attempts : List Attempt

-- What the relay does: it answers with a status, or sends the request to an address, with the header
-- or not.
pub data Relayed : Type 0 where
  answered : (status : ℕ) → Relayed
  sent : (to : Option Ip) → (has_loop_header : Bool) → Relayed

-- `GuardedRelayProxy`; both of its errors are answered with 502.
unfoldable pub guarded_relay : List Attempt → Relayed
guarded_relay ts = elim (dial ts) [ none ↦ answered 502 | some ip ↦ sent ip true ]

-- The handler of /proxy/:providerAddr/*path
unfoldable pub handle_relay : RelayRequest → Relayed
handle_relay r = if r.has_loop_header then answered 508 else elim r.target [
  | none ↦ answered 404
  | some none ↦ answered 502
  | some (some u) ↦ if is_relay_target u then guarded_relay r.attempts else answered 502
]
