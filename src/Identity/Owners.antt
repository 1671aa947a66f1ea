-- ===== src/Identity/Owners.antt =====
-- How old an owner is that the resolver answers with.
use g_sandbox.Base.{
  ℕ, ◌+◌, ◌-◌, ◌<◌, ◌≤◌, ◌≡◌, refl, ◌∙◌, ◌≢◌, ◌⊎◌, inl, inr, ◌&&◌, ◌==◌, ltb, Option, none, some,
  List, [], ◌∷◌, is_some, Bool-cases, Option-cases, arith,
}
use g_sandbox.Voucher.{Address}
use g_sandbox.Identity.{Windows, Resolver, OwnerCall, younger, fetched, resolve_owner, after_calls}

abbrev pub In : OwnerCall → List OwnerCall → Type 0
In c [] = ⊥
In c (d ∷ ds) = (c ≡ d) ⊎ In c ds

-- A call in which the chain named the owner, who is not the zero address, at that time.
abbrev pub Named : List OwnerCall → Address → ℕ → Type 0
Named calls o t = (d : OwnerCall) × In d calls × (d.owner ≡ some o) × (d.later ≡ t) × (o ≢ 0)

-- Whatever is cached was named by the chain when it was fetched.
abbrev Backed : List OwnerCall → Resolver → Type 0
Backed calls s = (o : Address) → s.cached ≡ some o → Named calls o s.fetched_at

later-Named :
    (c : OwnerCall) (calls : List OwnerCall) (o : Address) (t : ℕ)
    → Named calls o t
    → Named (c ∷ calls) o t
later-Named c calls o t n = (n.0, inr n.1, n.2, n.3, n.4)

younger-Recent :
    (s : Resolver) (now window : ℕ) (o : Address)
    → younger s now window ≡ some o
    → (s.cached ≡ some o) × (now < s.fetched_at + window)
unfolding younger
younger-Recent s now window o h = (ground arith, ground arith)

-- An answer that the chain named just now, or within one of the windows.
abbrev pub Recent : Windows → List OwnerCall → OwnerCall → Address → Type 0
Recent w calls c o =
    (t : ℕ) × Named calls o t × ((c.now ≤ t) ⊎ (c.now < t + w.ttl) ⊎ (c.now < t + w.stale_cap))

fetched-Backed :
    (w : Windows) (c : OwnerCall) (calls : List OwnerCall) (s : Resolver) (reply : Option Address)
    → c.owner ≡ reply
    → Backed calls s
    → Backed (c ∷ calls) (fetched w s c.later reply).1
unfolding fetched
fetched-Backed w c calls s none e b = λ o h. later-Named c calls o s.fetched_at (b o h)
fetched-Backed w c calls s (some owner) e b = elim (Bool-cases (owner == 0)) [
  | inl z ↦ rw z (λ o h. later-Named c calls o s.fetched_at (b o h))
  | inr n ↦ rw n (λ o h. (c, inl refl, e ∙ h, refl, ground arith))
]

fetched-Recent :
    (w : Windows) (c : OwnerCall) (calls : List OwnerCall) (s : Resolver) (reply : Option Address)
    (o : Address)
    → c.owner ≡ reply
    → c.now ≤ c.later
    → Backed calls s
    → (fetched w s c.later reply).0 ≡ some o
    → Recent w (c ∷ calls) c o
unfolding fetched
fetched-Recent w c calls s none o e le b h =
    let (kept, recent) = younger-Recent s c.later w.stale_cap o h in
    (s.fetched_at, later-Named c calls o s.fetched_at (b o kept), inr (inr (omega arith)))
fetched-Recent w c calls s (some owner) o e le b h = elim (Bool-cases (owner == 0)) [
  | inl z ↦ absurd (ground arith)
  | inr n ↦ (c.later, (c, inl refl, e ∙ ground arith, refl, ground arith), inl le)
]

resolve-Backed :
    (w : Windows) (c : OwnerCall) (calls : List OwnerCall) (s : Resolver)
    → Backed calls s
    → Backed (c ∷ calls) (resolve_owner w c s).1
unfolding resolve_owner fetched
resolve-Backed w c calls s b =
    let same : Backed (c ∷ calls) s = λ o h. later-Named c calls o s.fetched_at (b o h) in
    elim (Bool-cases (is_some (younger s c.now w.ttl))) [
      | inl e ↦ rw e same
      | inr e ↦ elim (Bool-cases w.has_name) [
        | inr e' ↦ rw (e, e') same
        | inl e' ↦ elim (Bool-cases (s.last_err && ltb (c.now - s.last_try) w.retry_every)) [
          | inl e2 ↦ rw (e, e', e2) same
          | inr e2 ↦ rw (e, e', e2) (fetched-Backed w c calls s c.owner refl b)
        ]
      ]
    ]

after_calls-Backed : (w : Windows) (calls : List OwnerCall) → Backed calls (after_calls w calls)
unfolding after_calls
after_calls-Backed w [] = λ o h. absurd (ground arith)
after_calls-Backed w (c ∷ cs) = resolve-Backed w c cs (after_calls w cs) (after_calls-Backed w cs)

-- Whatever calls came before, in whatever way their lookups ended: an owner that the resolver answers
-- with was named by the chain in one of these calls or in this one, is not the zero address, and was
-- named just now or within one of the two windows.
pub resolve_owner-Recent :
    (w : Windows) (calls : List OwnerCall) (c : OwnerCall) (o : Address)
    → c.now ≤ c.later
    → (resolve_owner w c (after_calls w calls)).0 ≡ some o
    → Recent w (c ∷ calls) c o
unfolding resolve_owner
resolve_owner-Recent w calls c o le h =
    let s = after_calls w calls in
    let b = after_calls-Backed w calls in
    elim (Option-cases (younger s c.now w.ttl)) [
      | inr (p, e) ↦
          let (kept, recent) = younger-Recent s c.now w.ttl p e in
          let same : s.cached ≡ some o = ground arith in
          (s.fetched_at, later-Named c calls o s.fetched_at (b o same), inr (inl recent))
      | inl e ↦ elim (Bool-cases w.has_name) [
        | inr e' ↦ absurd (ground arith)
        | inl e' ↦ elim (Bool-cases (s.last_err && ltb (c.now - s.last_try) w.retry_every)) [
          | inl e2 ↦
              let (kept, recent) = younger-Recent s c.now w.stale_cap o (ground arith) in
              (s.fetched_at, later-Named c calls o s.fetched_at (b o kept), inr (inr recent))
          | inr e2 ↦ fetched-Recent w c calls s c.owner o refl le b (ground arith)
        ]
      ]
    ]
