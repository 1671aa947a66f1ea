-- ===== src/Proxy/PathGuard/Segments.antt =====
-- Paths and their segments.
use g_sandbox.Base.{
  ℕ, ◌≡◌, refl, ◌∙◌, ap, ◌⊎◌, inl, inr, true, false, List, [], ◌∷◌, ◌++◌, ◌==◌, mem, same_bytes,
  append-nil, Bool-cases, if◌then◌else◌, arith,
}
use g_sandbox.Proxy.PathGuard.{
  Bytes, slash, dot, dot_dot, grow_head, split, join, is_skipped, pop, push, clean_loop, unstack,
}

-- A segment that names something: not empty, no dots, and without a slash.
pub record IsProper (s : Bytes) : Type 0 where
  pub nonempty : same_bytes s [] ≡ false
  pub no_dot : same_bytes s dot ≡ false
  pub no_dots : same_bytes s dot_dot ≡ false
  pub no_slash : mem slash s ≡ false

abbrev pub AllProper : List Bytes → Type 0
AllProper [] = Unit
AllProper (s ∷ ss) = IsProper s × AllProper ss

abbrev pub NoSlash : List Bytes → Type 0
NoSlash [] = Unit
NoSlash (s ∷ ss) = (mem slash s ≡ false) × NoSlash ss

pub split-NoSlash : (q : Bytes) → NoSlash (split q)
unfolding split
split-NoSlash [] = (refl, tt)
split-NoSlash (c ∷ cs) = go (split cs) (split-NoSlash cs) (Bool-cases (c == slash))
  where
    go :
        (ss : List Bytes)
        → NoSlash ss
        → ((c == slash) ≡ true) ⊎ ((c == slash) ≡ false)
        → NoSlash (if c == slash then [] ∷ ss else grow_head c ss)
    go ss h (inl e) = rw e (refl, h)
    go [] h (inr e) = rw e (ground arith, tt)
    go (s ∷ ss) h (inr e) = rw e (ground arith, h.1)

-- Splitting at the first slash.
split-append : (s rest : Bytes) → mem slash s ≡ false → split (s ++ slash ∷ rest) ≡ s ∷ split rest
unfolding split
split-append [] rest h = refl
split-append (c ∷ s) rest h = rw (split-append s rest (ground arith)) (ground arith)

split_self : (s : Bytes) → mem slash s ≡ false → split s ≡ s ∷ []
unfolding split
split_self [] h = refl
split_self (c ∷ s) h = rw (split_self s (ground arith)) (ground arith)

-- The segments of joined segments are those.
pub split-join : (s : Bytes) (ss : List Bytes) → NoSlash (s ∷ ss) → split (join (s ∷ ss)) ≡ s ∷ ss
unfolding join
split-join s [] h = split_self s h.0
split-join s (t ∷ ss) h = split-append s (join (t ∷ ss)) h.0 ∙ ap (λ r. s ∷ r) (split-join t ss h.1)

join-grow_head : (c : ℕ) (ss : List Bytes) → join (grow_head c ss) ≡ c ∷ join ss
unfolding join
join-grow_head c [] = refl
join-grow_head c (s ∷ []) = refl
join-grow_head c (s ∷ t ∷ ss) = refl

join-empty : (cs : Bytes) → join ([] ∷ split cs) ≡ slash ∷ join (split cs)
unfolding join split
join-empty [] = refl
join-empty (c ∷ cs) = elim (Bool-cases (c == slash)) [
  | inl e ↦ rw e refl
  | inr e ↦ rw e (go (split cs))
]
  where
    go : (ss : List Bytes) → join ([] ∷ grow_head c ss) ≡ slash ∷ join (grow_head c ss)
    go [] = refl
    go (s ∷ ss) = refl

pub join-split : (q : Bytes) → join (split q) ≡ q
unfolding split
join-split [] = unfold join in refl
join-split (c ∷ cs) = elim (Bool-cases (c == slash)) [
  | inl e ↦ rw e (join-empty cs ∙ ground (arith, join-split cs))
  | inr e ↦ rw e (join-grow_head c (split cs) ∙ ap (λ r. c ∷ r) (join-split cs))
]

-- The stack of `path.Clean` has proper segments only.
push-AllProper :
    (s : Bytes) (out : List Bytes) → mem slash s ≡ false → AllProper out → AllProper (push s out)
unfolding push
push-AllProper s out h p = elim (Bool-cases (is_skipped s)) [
  | inl e ↦ rw e p
  | inr e ↦ elim (Bool-cases (same_bytes s dot_dot)) [
    | inl e' ↦ rw (e, e') (popped out p)
    | inr e' ↦
        rw (e, e')
          (record { nonempty = ground arith; no_dot = ground arith; no_dots = e'; no_slash = h }, p)
  ]
]
  where
    popped : (ss : List Bytes) → AllProper ss → AllProper (pop ss)
    popped [] q = tt
    popped (t ∷ ss) q = q.1

clean_loop-AllProper :
    (ss out : List Bytes) → NoSlash ss → AllProper out → AllProper (clean_loop ss out)
unfolding clean_loop
clean_loop-AllProper [] out h p = p
clean_loop-AllProper (s ∷ ss) out h p =
    clean_loop-AllProper ss (push s out) h.1 (push-AllProper s out h.0 p)

unstack-AllProper :
    (ss done : List Bytes) → AllProper ss → AllProper done → AllProper (unstack ss done)
unfolding unstack
unstack-AllProper [] done p q = q
unstack-AllProper (s ∷ ss) done p q = unstack-AllProper ss (s ∷ done) p.1 (p.0, q)

-- The segments of a cleaned path.
abbrev pub cleaned : Bytes → List Bytes
cleaned q = unstack (clean_loop (split q) []) []

pub cleaned-AllProper : (q : Bytes) → AllProper (cleaned q)
cleaned-AllProper q =
    unstack-AllProper _ [] (clean_loop-AllProper (split q) [] (split-NoSlash q) tt) tt

pub AllProper-NoSlash : (ss : List Bytes) → AllProper ss → NoSlash ss
AllProper-NoSlash [] p = tt
AllProper-NoSlash (s ∷ ss) p = (p.0.no_slash, AllProper-NoSlash ss p.1)

-- Proper segments are kept by the loop.
clean_loop-proper : (ss out : List Bytes) → AllProper ss → clean_loop ss out ≡ unstack ss out
unfolding clean_loop unstack push
clean_loop-proper [] out p = refl
clean_loop-proper (s ∷ ss) out p =
    let kept : push s out ≡ s ∷ out = ground (arith, p.0.nonempty, p.0.no_dot, p.0.no_dots) in
    rw kept (clean_loop-proper ss (s ∷ out) p.1)

-- An empty segment at the end is dropped.
clean_loop-ends_empty : (ss out : List Bytes) → clean_loop (ss ++ [] ∷ []) out ≡ clean_loop ss out
unfolding clean_loop push
clean_loop-ends_empty [] out = refl
clean_loop-ends_empty (s ∷ ss) out = clean_loop-ends_empty ss (push s out)

unstack_twice :
    (ss out done : List Bytes) → unstack (unstack ss out) done ≡ unstack out (ss ++ done)
unfolding unstack
unstack_twice [] out done = refl
unstack_twice (s ∷ ss) out done = unstack_twice ss (s ∷ out) done

pub cleaned-proper :
    (q : Bytes) (ss : List Bytes)
    → AllProper ss
    → (split q ≡ ss) ⊎ (split q ≡ ss ++ [] ∷ [])
    → cleaned q ≡ ss
unfolding unstack
cleaned-proper q ss p h =
    let loop : clean_loop (split q) [] ≡ unstack ss [] = elim h [
      | inl e ↦ rw e (clean_loop-proper ss [] p)
      | inr e ↦ rw e (clean_loop-ends_empty ss [] ∙ clean_loop-proper ss [] p)
    ] in
    rw loop (unstack_twice ss [] [] ∙ append-nil ss)
