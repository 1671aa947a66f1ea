-- ===== src/Auth.antt =====
-- The authentication of requests: internal/auth/middleware.go. The decoding of the headers and the
-- recovery of the signer are given, and Redis and the process read one clock.
pub mod Replay
use Prim.Native.String.{String, ◌++◌}
use package.text.Mathlib.Text.{◌==◌}
use g_sandbox.Base.{
  ℕ, ◌+◌, Bool, true, false, ◌&&◌, ◌||◌, not, Option, none, some, List, [], ◌∷◌, leb, ltb,
  if◌then◌else◌,
}
use g_sandbox.Proxy.Text.{Folding, equal_fold}

-- `SignedRequest`, as far as it is checked.
pub record SignedRequest : Type 0 where
  pub expires_at : ℕ
  pub nonce : String
  pub provider : String
  pub resource_id : String

-- `Options`, and the two functions on texts: folding, and strings.ToLower.
pub record Options : Type 0 where
  pub provider_address : String
  pub strict : Bool
  pub fold : Folding
  pub lower : String → String

-- One request: its headers, and its route's id, empty if there is none.
pub record AuthCall : Type 0 where
  pub has_headers : Bool
  pub wallet : String
  pub message : Option SignedRequest
  pub sig_decodes : Bool
  pub recovered : Option String
  pub id : String
  pub now : ℕ
  pub redis_ok : Bool

-- The nonce keys, each with the time at which it expires.
abbrev pub Nonces : Type 0
Nonces = List (String × ℕ)

-- `maxFutureWindow` in seconds
abbrev pub max_future_window : ℕ
max_future_window = 300

abbrev pub is_live : String → ℕ → Nonces → Bool
is_live key now [] = false
is_live key now ((k, expires) ∷ ks) = (k == key && ltb now expires) || is_live key now ks

unfoldable pub nonce_key : Options → AuthCall → SignedRequest → String
nonce_key o c q = "nonce:" ++ o.lower c.wallet ++ ":" ++ q.nonce

-- Whether a message is bound to another provider, or in strict mode to none.
unfoldable pub wrong_provider : Options → SignedRequest → Bool
wrong_provider o q =
    not (o.provider_address == "")
    && ((not (q.provider == "") && not (equal_fold o.fold q.provider o.provider_address))
        || (q.provider == "" && o.strict))

unfoldable pub wrong_resource : Options → AuthCall → SignedRequest → Bool
wrong_resource o c q =
    not (c.id == "")
    && ((not (q.resource_id == "") && not (q.resource_id == c.id))
        || (q.resource_id == "" && o.strict))

unfoldable pub is_signed : Options → AuthCall → Bool
is_signed o c =
    c.sig_decodes
    && (elim c.recovered [ none ↦ false | some signer ↦ equal_fold o.fold signer c.wallet ])

-- The checks between the expiry and the nonce.
unfoldable pub is_misused : Options → AuthCall → SignedRequest → Bool
is_misused o c q =
    ltb (c.now + max_future_window) q.expires_at
    || not (is_signed o c)
    || wrong_provider o q
    || wrong_resource o c q

-- The checks before the nonce: whether one fails, with 401.
unfoldable pub is_refused : Options → AuthCall → SignedRequest → Bool
is_refused o c q = leb q.expires_at c.now || is_misused o c q

-- SET NX of the nonce, to expire with the message.
unfoldable pub claim_nonce : Options → AuthCall → SignedRequest → Nonces → Option ℕ × Nonces
claim_nonce o c q ks =
    if not c.redis_ok
    then (some 500, ks)
    else if is_live (nonce_key o c q) c.now ks
    then (some 401, ks)
    else (none, (nonce_key o c q, q.expires_at) ∷ ks)

unfoldable pub check_message :
    Options → AuthCall → Option SignedRequest → Nonces → Option ℕ × Nonces
check_message o c none ks = (some 401, ks)
check_message o c (some q) ks = if is_refused o c q then (some 401, ks) else claim_nonce o c q ks

-- `MiddlewareWithOptions`: the status of a refusal, or `none` where the request goes on.
unfoldable pub authenticate : Options → AuthCall → Nonces → Option ℕ × Nonces
authenticate o c ks =
    if c.has_headers && not (c.wallet == "") then check_message o c c.message ks else (some 401, ks)

-- Requests one after the other.
unfoldable pub authenticate_all : Options → List AuthCall → Nonces → Nonces
authenticate_all o [] ks = ks
authenticate_all o (c ∷ cs) ks = authenticate_all o cs (authenticate o c ks).1
