-- ===== src/Auth/Replay.antt =====
-- A message is accepted once.
use Prim.Native.String.{String, ◌++◌}
use package.text.Mathlib.Text.{◌==◌}
use package.text.Mathlib.TextPositions.{eq_refl}
use g_sandbox.Base.{
  ℕ, ◌≡◌, ◌≢◌, sym, ap, subst, Bool, true, false, ◌&&◌, ◌||◌, not, Option, none, some, List, [],
  ◌∷◌, leb, ltb, Bool-cases, inl, inr, if◌then◌else◌, arith,
}
use g_sandbox.Auth.{
  is_misused, SignedRequest, Options, AuthCall, Nonces, is_live, nonce_key, is_refused, claim_nonce,
  check_message, authenticate, authenticate_all,
}

-- A call does not forget a nonce.
claim-is_live :
    (o : Options) (c : AuthCall) (q : SignedRequest) (ks : Nonces) (key : String) (now : ℕ)
    → is_live key now ks ≡ true
    → is_live key now (claim_nonce o c q ks).1 ≡ true
unfolding claim_nonce
claim-is_live o c q ks key now live = ground arith

message-is_live :
    (o : Options) (c : AuthCall) (m : Option SignedRequest) (ks : Nonces) (key : String) (now : ℕ)
    → is_live key now ks ≡ true
    → is_live key now (check_message o c m ks).1 ≡ true
unfolding check_message
message-is_live o c none ks key now live = live
message-is_live o c (some q) ks key now live = elim (Bool-cases (is_refused o c q)) [
  | inl refused ↦ rw refused live
  | inr passes ↦ rw passes (claim-is_live o c q ks key now live)
]

authenticate-is_live :
    (o : Options) (c : AuthCall) (ks : Nonces) (key : String) (now : ℕ)
    → is_live key now ks ≡ true
    → is_live key now (authenticate o c ks).1 ≡ true
unfolding authenticate
authenticate-is_live o c ks key now live =
    elim (Bool-cases (c.has_headers && not (c.wallet == ""))) [
      | inl there ↦ rw there (message-is_live o c c.message ks key now live)
      | inr missing ↦ rw missing live
    ]

all-is_live :
    (o : Options) (cs : List AuthCall) (ks : Nonces) (key : String) (now : ℕ)
    → is_live key now ks ≡ true
    → is_live key now (authenticate_all o cs ks) ≡ true
unfolding authenticate_all
all-is_live o [] ks key now live = live
all-is_live o (c ∷ cs) ks key now live =
    all-is_live o cs (authenticate o c ks).1 key now (authenticate-is_live o c ks key now live)

-- The two answers of Redis to the claim of a nonce.
claim_case :
    (up used : Bool) (key : String) (expires : ℕ) (ks : Nonces) (now : ℕ)
    → ltb now expires ≡ true
    → let x : Option ℕ × Nonces =
        if not up
        then (some 500, ks)
        else if used
        then (some 401, ks)
        else (none, (key, expires) ∷ ks) in
      x.0 ≡ none → is_live key now x.1 ≡ true
claim_case false used key expires ks now early good = ground arith
claim_case true true key expires ks now early good = ground arith
claim_case true false key expires ks now early good = simp (eq_refl, early)

-- A test that refuses, before an action.
guard_case :
    (refuses : Bool) (ks : Nonces) (x : Option ℕ × Nonces) (key : String) (now : ℕ)
    → (x.0 ≡ none → is_live key now x.1 ≡ true)
    → let y : Option ℕ × Nonces = if refuses then (some 401, ks) else x in
      y.0 ≡ none → is_live key now y.1 ≡ true
guard_case true ks x key now next good = ground arith
guard_case false ks x key now next good = next good

headers_case :
    (there : Bool) (ks : Nonces) (x : Option ℕ × Nonces) (key : String) (now : ℕ)
    → (x.0 ≡ none → is_live key now x.1 ≡ true)
    → let y : Option ℕ × Nonces = if there then x else (some 401, ks) in
      y.0 ≡ none → is_live key now y.1 ≡ true
headers_case true ks x key now next good = next good
headers_case false ks x key now next good = ground arith

missing_case :
    (there : Bool) (ks : Nonces) (x : Option ℕ × Nonces)
    → x.0 ≢ none
    → let y : Option ℕ × Nonces = if there then x else (some 401, ks) in y.0 ≢ none
missing_case true ks x bad good = bad good
missing_case false ks x bad good = ground arith

same_key :
    (o : Options) (c c' : AuthCall) (q : SignedRequest)
    → o.lower c.wallet ≡ o.lower c'.wallet
    → nonce_key o c q ≡ nonce_key o c' q
unfolding nonce_key
same_key o c c' q same = ap (λ w. "nonce:" ++ w ++ ":" ++ q.nonce) same

claimed-is_live :
    (o : Options) (c : AuthCall) (q : SignedRequest) (ks : Nonces) (now : ℕ)
    → ltb now q.expires_at ≡ true
    → (m : Option SignedRequest) → m ≡ some q
    → (check_message o c m ks).0 ≡ none
    → is_live (nonce_key o c q) now (check_message o c m ks).1 ≡ true
unfolding check_message claim_nonce
claimed-is_live o c q ks now early m said =
    subst
      (λ m.
        (check_message o c m ks).0 ≡ none
        → is_live (nonce_key o c q) now (check_message o c m ks).1 ≡ true)
      (sym said)
      (guard_case (is_refused o c q) ks (claim_nonce o c q ks) (nonce_key o c q) now (
        claim_case c.redis_ok (is_live (nonce_key o c q) c.now ks) (nonce_key o c q) q.expires_at ks
          now early))

-- An accepted message has its nonce live until it expires.
accepted-is_live :
    (o : Options) (c : AuthCall) (q : SignedRequest) (ks : Nonces) (now : ℕ)
    → c.message ≡ some q
    → (authenticate o c ks).0 ≡ none
    → ltb now q.expires_at ≡ true
    → is_live (nonce_key o c q) now (authenticate o c ks).1 ≡ true
unfolding authenticate
accepted-is_live o c q ks now said good early =
    headers_case (c.has_headers && not (c.wallet == "")) ks (check_message o c c.message ks)
      (nonce_key o c q) now (claimed-is_live o c q ks now early c.message said) good

refuse_case :
    (expired other up live : Bool) (key : String) (expires : ℕ) (ks : Nonces)
    → (expired ≡ false → live ≡ true)
    → (let x : Option ℕ × Nonces =
          if expired || other
          then (some 401, ks)
          else if not up
          then (some 500, ks)
          else if live
          then (some 401, ks)
          else (none, (key, expires) ∷ ks) in
        x.0 ≢ none)
refuse_case true other up live key expires ks used good = ground arith
refuse_case false true up live key expires ks used good = ground arith
refuse_case false false false live key expires ks used good = ground arith
refuse_case false false true true key expires ks used good = ground arith
refuse_case false false true false key expires ks used good = ground arith

-- A message that has expired, or whose nonce is live, is refused.
old_refused :
    (o : Options) (c : AuthCall) (q : SignedRequest) (ks : Nonces)
    → (leb q.expires_at c.now ≡ false → is_live (nonce_key o c q) c.now ks ≡ true)
    → (check_message o c (some q) ks).0 ≢ none
unfolding check_message claim_nonce is_refused
old_refused o c q ks used =
    refuse_case (leb q.expires_at c.now) (is_misused o c q) c.redis_ok
      (is_live (nonce_key o c q) c.now ks) (nonce_key o c q) q.expires_at ks used

-- A message that was accepted is refused ever after, whatever other requests come in between and with
-- whatever route and signature it comes again under the same wallet, in any letter case.
pub accepted_once :
    (o : Options) (c c' : AuthCall) (q : SignedRequest) (between : List AuthCall) (ks : Nonces)
    → c.message ≡ some q
    → c'.message ≡ some q
    → o.lower c'.wallet ≡ o.lower c.wallet
    → (authenticate o c ks).0 ≡ none
    → (authenticate o c' (authenticate_all o between (authenticate o c ks).1)).0 ≢ none
unfolding authenticate
accepted_once o c c' q between ks said again same good =
    let later = authenticate_all o between (authenticate o c ks).1 in
    let live : leb q.expires_at c'.now ≡ false → is_live (nonce_key o c' q) c'.now later ≡ true =
      λ early.
        subst (λ k. is_live k c'.now later ≡ true) (sym (same_key o c' c q same))
          (all-is_live o between (authenticate o c ks).1 (nonce_key o c q) c'.now
            (accepted-is_live o c q ks c'.now said good (ground arith))) in
    missing_case (c'.has_headers && not (c'.wallet == "")) later
      (check_message o c' c'.message later)
      (subst (λ m. (check_message o c' m later).0 ≢ none) (sym again)
        (old_refused o c' q later live))
