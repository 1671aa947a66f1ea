-- ===== src/Proxy/PathGuard/Canonical.antt =====
-- Which paths the guard lets through.
use g_sandbox.Base.{
  ℕ, ◌≡◌, refl, sym, ◌∙◌, ap, ◌⊎◌, ◌↔◌, inl, inr, Bool, true, false, ◌&&◌, not, List, [], ◌∷◌, ◌++◌,
  map, ◌==◌, mem, same_bytes, same_bytes-eq, same_bytes_refl, append_assoc, Bool-cases,
  if◌then◌else◌, arith,
}
use g_sandbox.Proxy.PathGuard.{
  Bytes, slash, split, join, clean, ends_in_slash, canonical_of, lower, escapes, backslash, passes,
}
use g_sandbox.Proxy.PathGuard.Segments.{
  IsProper, AllProper, NoSlash, AllProper-NoSlash, split-join, join-split, cleaned,
  cleaned-AllProper, cleaned-proper,
}
use g_sandbox.Proxy.PathGuard.Escapes.{Absent, has_any-Absent, Absent-has_any}

-- Segments none of which is empty, a dot or two dots; but the last may be empty.
abbrev pub Canonical : List Bytes → Type 0
Canonical [] = Unit
Canonical (s ∷ []) = (s ≡ []) ⊎ IsProper s
Canonical (s ∷ t ∷ ss) = IsProper s × Canonical (t ∷ ss)

AllProper-Canonical : (ss : List Bytes) → AllProper ss → Canonical ss
AllProper-Canonical [] p = tt
AllProper-Canonical (s ∷ []) p = inr p.0
AllProper-Canonical (s ∷ t ∷ ss) p = (p.0, AllProper-Canonical (t ∷ ss) p.1)

ended-Canonical : (ss : List Bytes) → AllProper ss → Canonical (ss ++ [] ∷ [])
ended-Canonical [] p = inl refl
ended-Canonical (s ∷ []) p = (p.0, inl refl)
ended-Canonical (s ∷ t ∷ ss) p = (p.0, ended-Canonical (t ∷ ss) p.1)

-- Canonical segments are proper ones, with an empty one behind them or not.
Canonical-cases :
    (ss : List Bytes)
    → Canonical ss
    → AllProper ss ⊎ ((ps : List Bytes) × AllProper ps × (ss ≡ ps ++ [] ∷ []))
Canonical-cases [] c = inl tt
Canonical-cases (s ∷ []) (inl e) = inr ([], tt, rw e refl)
Canonical-cases (s ∷ []) (inr p) = inl (p, tt)
Canonical-cases (s ∷ t ∷ ss) c = elim (Canonical-cases (t ∷ ss) c.1) [
  | inl p ↦ inl (c.0, p)
  | inr (ps, p, e) ↦ inr (s ∷ ps, (c.0, p), ap (λ r. s ∷ r) e)
]

join_ended :
    (s : Bytes) (ss : List Bytes) → join ((s ∷ ss) ++ [] ∷ []) ≡ join (s ∷ ss) ++ slash ∷ []
unfolding join
join_ended s [] = refl
join_ended s (t ∷ ss) =
    ap (λ r. s ++ slash ∷ r) (join_ended t ss)
    ∙ sym (append_assoc s (slash ∷ join (t ∷ ss)) (slash ∷ []))

NoSlash-ended : (ss : List Bytes) → NoSlash ss → NoSlash (ss ++ [] ∷ [])
NoSlash-ended [] h = (refl, tt)
NoSlash-ended (s ∷ ss) h = (h.0, NoSlash-ended ss h.1)

ends_in_slash-append : (c : ℕ) (p : Bytes) → ends_in_slash (c ∷ (p ++ slash ∷ [])) ≡ true
unfolding ends_in_slash
ends_in_slash-append c [] = refl
ends_in_slash-append c (d ∷ p) = ends_in_slash-append d p

-- Joined proper segments do not end in a slash.
segment_end :
    (c : ℕ) (s : Bytes) → (c == slash) ≡ false → mem slash s ≡ false → ends_in_slash (c ∷ s) ≡ false
unfolding ends_in_slash
segment_end c [] n h = n
segment_end c (d ∷ s) n h = segment_end d s (ground arith) (ground arith)

later_end :
    (c d : ℕ) (s r : Bytes)
    → ends_in_slash (d ∷ r) ≡ false
    → ends_in_slash (c ∷ (s ++ d ∷ r)) ≡ false
unfolding ends_in_slash
later_end c d [] r h = h
later_end c d (e ∷ s) r h = later_end e d s r h

joined_end :
    (c : ℕ) (s : Bytes) (ss : List Bytes)
    → AllProper (s ∷ ss)
    → ends_in_slash (c ∷ join (s ∷ ss)) ≡ false
unfolding join
joined_end c [] [] p = absurd (ground (arith, p.0.nonempty))
joined_end c (d ∷ s) [] p =
    unfold ends_in_slash in
    segment_end d s (ground (arith, p.0.no_slash)) (ground (arith, p.0.no_slash))
joined_end c s (t ∷ ss) p = later_end c slash s (join (t ∷ ss)) (joined_end slash t ss p.1)

abbrev puts_back : Bytes → Bytes → Bool
puts_back q cleaned_path =
    not (same_bytes q []) && ends_in_slash (slash ∷ q) && not (ends_in_slash (slash ∷ cleaned_path))

-- A path that is equal to some proper segments joined, or that with a slash behind it.
joined-Canonical :
    (q : Bytes) (ss : List Bytes)
    → AllProper ss
    → (if puts_back q (join ss) then join ss ++ slash ∷ [] else join ss) ≡ q
    → Canonical (split q)
joined-Canonical q [] p h = elim (Bool-cases (puts_back q (join []))) [
  | inl e ↦ absurd (unfold ends_in_slash join in (ground arith))
  | inr e ↦
      let bare : q ≡ [] = sym h ∙ rw e (unfold join in refl) in rw bare (unfold split in (inl refl))
]
joined-Canonical q (s ∷ ss) p h = elim (Bool-cases (puts_back q (join (s ∷ ss)))) [
  | inl e ↦
      let whole : q ≡ join (s ∷ (ss ++ [] ∷ [])) = sym h ∙ rw e (sym (join_ended s ss)) in
      rw
        (
          whole,
          split-join s (ss ++ [] ∷ []) (NoSlash-ended (s ∷ ss) (AllProper-NoSlash (s ∷ ss) p)),
        )
        (ended-Canonical (s ∷ ss) p)
  | inr e ↦
      let whole : q ≡ join (s ∷ ss) = sym h ∙ rw e refl in
      rw (whole, split-join s ss (AllProper-NoSlash (s ∷ ss) p)) (AllProper-Canonical (s ∷ ss) p)
]

canonical_of-Canonical : (q : Bytes) → canonical_of q ≡ q → Canonical (split q)
unfolding canonical_of clean
canonical_of-Canonical q h = joined-Canonical q (cleaned q) (cleaned-AllProper q) h

ended_nonempty : (p : Bytes) → same_bytes (p ++ slash ∷ []) [] ≡ false
ended_nonempty [] = refl
ended_nonempty (c ∷ p) = refl

Canonical-canonical_of : (q : Bytes) → Canonical (split q) → canonical_of q ≡ q
unfolding canonical_of clean
Canonical-canonical_of q c = elim (Canonical-cases (split q) c) [
  | inl p ↦
      let same : join (cleaned q) ≡ q =
        ap join (cleaned-proper q (split q) p (inl refl)) ∙ join-split q in
      rw same (ground arith)
  | inr (ps, p, e) ↦ ended ps p e (cleaned-proper q ps p (inr e))
]
  where
    ended :
        (ps : List Bytes)
        → AllProper ps
        → split q ≡ ps ++ [] ∷ []
        → cleaned q ≡ ps
        → (if puts_back q (join (cleaned q))
            then join (cleaned q) ++ slash ∷ []
            else join (cleaned q))
          ≡ q
    ended [] p e h =
        let bare : q ≡ [] = sym (join-split q) ∙ ap join e ∙ unfold join in refl in
        rw (h, bare) (unfold join in refl)
    ended (s ∷ ss) p e h =
        let whole : q ≡ join (s ∷ ss) ++ slash ∷ [] =
          sym (join-split q) ∙ ap join e ∙ join_ended s ss in
        let ends : ends_in_slash (slash ∷ q) ≡ true =
          rw whole (ends_in_slash-append slash (join (s ∷ ss))) in
        let open_end : ends_in_slash (slash ∷ join (s ∷ ss)) ≡ false = joined_end slash s ss p in
        let some_path : same_bytes q [] ≡ false = rw whole (ended_nonempty (join (s ∷ ss))) in
        rw (h, some_path, ends, open_end) (sym whole)

-- A path in normal form as it stands, with nothing in its escaped form that a second decoding turns into
-- a dot, a slash or a percent sign.
pub record IsSafe (q escaped : Bytes) : Type 0 where
  pub canonical : Canonical (split q)
  pub no_backslash : mem backslash (slash ∷ q) ≡ false
  pub no_escape : Absent escapes (map lower escaped)

-- The guard passes a request on if and only if no segment of its path is empty, a dot or two dots, but
-- for an empty last one, there is no backslash, and in its escaped form none of the escaped dots,
-- slashes, backslashes and percent signs occurs, in any letter case.
pub passes-IsSafe : (q escaped : Bytes) → (passes q escaped ≡ true) ↔ IsSafe q escaped
unfolding passes
passes-IsSafe q escaped = (
  λ h. record {
    canonical = canonical_of-Canonical q (same_bytes-eq (canonical_of q) q (ground arith));
    no_backslash = ground arith;
    no_escape = has_any-Absent escapes (map lower escaped) (ground arith);
  },
  λ safe.
      rw
        (
          Canonical-canonical_of q safe.canonical,
          same_bytes_refl q,
          safe.no_backslash,
          Absent-has_any escapes (map lower escaped) safe.no_escape,
        )
        refl,
)
