-- ===== src/Identity/Pinned.antt =====
-- Which registration of the attestor is trusted.
use g_sandbox.Base.{
  ◌<◌, ◌≡◌, refl, sym, ap, ◌∙◌, ◌≢◌, ◌⊎◌, inl, inr, Option, none, some, List, [], ◌∷◌, Option-cases,
  arith,
}
use g_sandbox.Voucher.{Address}
use g_sandbox.Identity.{
  AppIdentity, Instance, Attestor, IdentityCall, cached_for, discovered, store_instance, pinned,
  authorize, authorize_found, current, after_current,
}

-- A stored instance stays.
pinned-keeps :
    (authorized : Option Instance) (c : IdentityCall) (live p : Instance) (s : Attestor)
    → s.stored ≡ some p
    → (pinned authorized c live s).1.stored ≡ some p
unfolding pinned store_instance
pinned-keeps (some a) c live p s h = h
pinned-keeps none c live p s h = ground arith

authorize-keeps :
    (authorized : Option Instance) (c : IdentityCall) (i : AppIdentity) (live : Option Instance)
    (p : Instance) (s : Attestor)
    → s.stored ≡ some p
    → (authorize authorized c i live s).1.stored ≡ some p
unfolding authorize
authorize-keeps authorized c i none p s h = h
authorize-keeps authorized c i (some (time, owner)) p s h =
    ground (arith, pinned-keeps authorized c (time, owner) p s h)

-- An identity that is accepted: the chain registers it now, under an owner, it has not expired, and
-- its instance is the authorized one, or without an authorization the one that is stored then.
pub record Accepted (authorized : Option Instance) (c : IdentityCall) (i : AppIdentity)
    (s : Attestor) : Type 0 where
  pub owner : Address
  pub is_live : c.live ≡ some (i.registered_at, owner)
  pub has_owner : owner ≢ 0
  pub unexpired : c.done_at < i.expires_at
  pub is_pinned :
      (authorized ≡ some (i.registered_at, owner))
      ⊎ ((authorized ≡ none) × (s.stored ≡ some (i.registered_at, owner)))

pinned-cases :
    (authorized : Option Instance) (c : IdentityCall) (live p : Instance) (s : Attestor)
    → (pinned authorized c live s).0 ≡ some p
    → (authorized ≡ some p)
      ⊎ ((authorized ≡ none) × ((pinned authorized c live s).1.stored ≡ some p))
unfolding pinned store_instance
pinned-cases (some a) c live p s h = inl h
pinned-cases none c live p s h = inr (refl, ground arith)

authorize-Accepted :
    (authorized : Option Instance) (c : IdentityCall) (i j : AppIdentity) (live : Option Instance)
    (s : Attestor)
    → c.live ≡ live
    → (authorize authorized c i live s).0 ≡ some j
    → Accepted authorized c j (authorize authorized c i live s).1
unfolding authorize
authorize-Accepted authorized c i j none s e h = absurd (ground arith)
authorize-Accepted authorized c i j (some (time, owner)) s e h =
    elim (Option-cases (pinned authorized c (time, owner) s).0) [
      | inl e' ↦ absurd (ground arith)
      | inr (p, e') ↦
          let time' : time ≡ j.registered_at = ground arith in
          let whole : p ≡ (j.registered_at, owner) = ground arith in
          let state : (authorize authorized c i (some (time, owner)) s).1
              ≡ (pinned authorized c (time, owner) s).1 =
            ground arith in
          record {
            owner = owner;
            is_live = e ∙ ap (λ t. some (t, owner)) time';
            has_owner = ground arith;
            unexpired = ground arith;
            is_pinned = elim (pinned-cases authorized c (time, owner) p s e') [
              | inl q ↦ inl (q ∙ ap some whole)
              | inr (n, q) ↦ inr (n, ap (λ x. x.stored) state ∙ (q ∙ ap some whole))
            ];
          }
    ]

discovered-stored :
    (c : IdentityCall) (o : Option AppIdentity) (s : Attestor)
    → (discovered c o s).1.stored ≡ s.stored
unfolding discovered
discovered-stored c (some i) s = refl
discovered-stored c none s = ground arith

found-Accepted :
    (authorized : Option Instance) (c : IdentityCall) (o : Option AppIdentity) (j : AppIdentity)
    (s : Attestor)
    → (authorize_found authorized c o s).0 ≡ some j
    → Accepted authorized c j (authorize_found authorized c o s).1
unfolding authorize_found
found-Accepted authorized c none j s h = absurd (ground arith)
found-Accepted authorized c (some i) j s h = authorize-Accepted authorized c i j c.live s refl h

found-keeps :
    (authorized : Option Instance) (c : IdentityCall) (o : Option AppIdentity) (p : Instance)
    (s : Attestor)
    → s.stored ≡ some p
    → (authorize_found authorized c o s).1.stored ≡ some p
unfolding authorize_found
found-keeps authorized c none p s h = h
found-keeps authorized c (some i) p s h = authorize-keeps authorized c i c.live p s h

current-Accepted :
    (authorized : Option Instance) (c : IdentityCall) (i : AppIdentity) (s : Attestor)
    → (current authorized c s).0 ≡ some i
    → Accepted authorized c i (current authorized c s).1
unfolding current
current-Accepted authorized c i s h = found-Accepted authorized c _ i _ h

current-keeps :
    (authorized : Option Instance) (c : IdentityCall) (p : Instance) (s : Attestor)
    → s.stored ≡ some p
    → (current authorized c s).1.stored ≡ some p
unfolding current
current-keeps authorized c p s h =
    found-keeps authorized c _ p _ (discovered-stored c (cached_for c.now c.min_lease s) s ∙ h)

after-keeps :
    (authorized : Option Instance) (cs : List IdentityCall) (p : Instance) (s : Attestor)
    → s.stored ≡ some p
    → (after_current authorized cs s).stored ≡ some p
unfolding after_current
after-keeps authorized [] p s h = h
after-keeps authorized (c ∷ cs) p s h =
    current-keeps authorized c p (after_current authorized cs s) (after-keeps authorized cs p s h)

some_inj : {a b : Instance} → some a ≡ some b → a ≡ b
some_inj h = ground arith

-- An identity that a call returns is one that the chain registers at that time, under an owner that is
-- not the zero address, and has not expired; and however many calls come in between, and whatever they
-- meet, an identity that a later call returns has the same registration, time and owner.
pub current-Accepted_once :
    (authorized : Option Instance) (s : Attestor) (c d : IdentityCall) (between : List IdentityCall)
    (i j : AppIdentity)
    → (current authorized c s).0 ≡ some i
    → (current authorized d (after_current authorized between (current authorized c s).1)).0
      ≡ some j
    → (owner : Address) × (owner ≢ 0)
      × (c.live ≡ some (i.registered_at, owner))
      × (d.live ≡ some (i.registered_at, owner))
      × (j.registered_at ≡ i.registered_at)
      × (c.done_at < i.expires_at)
      × (d.done_at < j.expires_at)
current-Accepted_once authorized s c d between i j h k =
    let s' = (current authorized c s).1 in
    let first = current-Accepted authorized c i s h in
    let second = current-Accepted authorized d j (after_current authorized between s') k in
    let same : Path Instance (j.registered_at, second.owner) (i.registered_at, first.owner) =
      elim first.is_pinned [
        | inl p ↦ elim second.is_pinned [ inl q ↦ ground arith | inr (n, q) ↦ absurd (cc) ]
        | inr (n, p) ↦ elim second.is_pinned [
          | inl q ↦ absurd (cc)
          | inr (n', q) ↦
              let stays =
                current-keeps authorized d (i.registered_at, first.owner)
                  (after_current authorized between s')
                  (after-keeps authorized between (i.registered_at, first.owner) s' p) in
              some_inj (sym q ∙ stays)
        ]
      ] in
    (
      first.owner,
      first.has_owner,
      first.is_live,
      second.is_live ∙ ap some same,
      ap (λ x. x.0) same,
      first.unexpired,
      second.unexpired,
    )
