-- ===== src/Proxy/Snapshots/Certain.antt =====
-- Which snapshot a sealed create starts, and what its runner starts.
use Prim.Native.String.{String}
use package.text.Mathlib.TextEquality.{eq_iff}
use g_sandbox.Base.{
  ◌≡◌, refl, sym, subst, ◌∙◌, ◌≢◌, ◌⊎◌, inl, inr, true, false, Option, none, some, List, [], ◌∷◌,
  Bool-cases, Option-cases, if◌then◌else◌, arith,
}
use g_sandbox.Proxy.Snapshots.{
  SnapshotRecord, is_match, consider, find_match, is_shadowed, resolve_snapshot,
}

abbrev pub In : SnapshotRecord → List SnapshotRecord → Type 0
In s [] = ⊥
In s (u ∷ us) = (u ≡ s) ⊎ In s us

-- The record that a reference certainly stands for, for whoever looks it up by id or name: all that
-- match have one id, which is not empty, and no record with another id bears that id as its name.
pub record Certain (snaps : List SnapshotRecord) (ref : String) (s : SnapshotRecord) : Type 0 where
  pub listed : In s snaps
  pub matches : is_match ref s ≡ true
  pub has_id : s.id ≢ ""
  pub only : (u : SnapshotRecord) → In u snaps → is_match ref u ≡ true → u.id ≡ s.id
  pub unshadowed : (u : SnapshotRecord) → In u snaps → u.name ≡ s.id → u.id ≡ s.id

-- What a match at the end of the loop says of the records and of the match before.
record Found (ref : String) (ss : List SnapshotRecord) (m : Option SnapshotRecord)
    (s : SnapshotRecord) : Type 0 where
  from : (m ≡ some s) ⊎ (In s ss × (is_match ref s ≡ true) × (s.id ≢ ""))
  alike : (u : SnapshotRecord) → In u ss → is_match ref u ≡ true → u.id ≡ s.id
  kept : (u : SnapshotRecord) → m ≡ some u → u.id ≡ s.id

-- A round passes over a record that does not match, or takes it for the match.
consider-cases :
    (ref : String) (v : SnapshotRecord) (m m' : Option SnapshotRecord)
    → consider ref v m ≡ some m'
    → ((is_match ref v ≡ false) × (m' ≡ m))
      ⊎ ((is_match ref v ≡ true)
          × (v.id ≢ "")
          × (m' ≡ some v)
          × ((u : SnapshotRecord) → m ≡ some u → u.id ≡ v.id))
unfolding consider
consider-cases ref v m m' h = elim (Bool-cases (is_match ref v)) [
  | inl at ↦ elim (Option-cases m) [
    | inl e ↦ inr (at, ground (arith, eq_iff v.id ""), ground arith, λ u q. absurd (ground arith))
    | inr (w, e) ↦
        inr (
          at,
          ground (arith, eq_iff v.id ""),
          ground arith,
          λ u q. ground (arith, eq_iff w.id v.id),
        )
  ]
  | inr not_at ↦ inl (not_at, ground arith)
]

find_match-Found :
    (ref : String) (ss : List SnapshotRecord) (m : Option SnapshotRecord) (s : SnapshotRecord)
    → find_match ref ss m ≡ some (some s)
    → Found ref ss m s
unfolding find_match
find_match-Found ref [] m s h = record {
  from = inl (ground arith);
  alike = λ u i. elim i [ ];
  kept = λ u e. ground arith;
}
find_match-Found ref (v ∷ ss) m s h = elim (Option-cases (consider ref v m)) [
  | inl e ↦ absurd (ground arith)
  | inr (m', e) ↦
      let f = find_match-Found ref ss m' s (ground arith) in
      elim (consider-cases ref v m m' e) [
        | inl (passed, same) ↦ record {
          from = elim f.from [
            | inl q ↦ inl (sym same ∙ q)
            | inr (i, at, has_id) ↦ inr (inr i, at, has_id)
          ];
          alike = λ u i at. elim i [
            | inl q ↦ absurd (cc (sym passed ∙ subst (λ x. is_match ref x ≡ true) (sym q) at))
            | inr j ↦ f.alike u j at
          ];
          kept = λ u q. f.kept u (same ∙ q);
        }
        | inr (at, has_id, taken, alike) ↦ record {
          from = elim f.from [
            | inl q ↦
                let e' : v ≡ s = ground arith in
                inr (
                  inl e',
                  subst (λ x. is_match ref x ≡ true) e' at,
                  subst (λ x. x.id ≢ "") e' has_id,
                )
            | inr (i, at', has_id') ↦ inr (inr i, at', has_id')
          ];
          alike = λ u i at'. elim i [
            | inl q ↦ subst (λ x. x.id ≡ s.id) q (f.kept v taken)
            | inr j ↦ f.alike u j at'
          ];
          kept = λ u q. alike u q ∙ f.kept v taken;
        }
      ]
]

consider-take :
    (ref : String) (v : SnapshotRecord) (m : Option SnapshotRecord)
    → is_match ref v ≡ true
    → v.id ≢ ""
    → ((u : SnapshotRecord) → m ≡ some u → u.id ≡ v.id)
    → consider ref v m ≡ some (some v)
unfolding consider
consider-take ref v none at has_id alike = ground (arith, eq_iff v.id "")
consider-take ref v (some w) at has_id alike =
    ground (arith, eq_iff v.id "", eq_iff w.id v.id, alike w refl)

consider-pass :
    (ref : String) (v : SnapshotRecord) (m : Option SnapshotRecord)
    → is_match ref v ≡ false
    → consider ref v m ≡ some m
unfolding consider
consider-pass ref v m passed = rw passed refl

-- If the records that match all have one id, the loop finds one of them.
find_match-finds :
    (ref : String) (ss : List SnapshotRecord) (m : Option SnapshotRecord) (s : SnapshotRecord)
    → s.id ≢ ""
    → ((u : SnapshotRecord) → In u ss → is_match ref u ≡ true → u.id ≡ s.id)
    → ((u : SnapshotRecord) → m ≡ some u → u.id ≡ s.id)
    → (m ≢ none) ⊎ (In s ss × (is_match ref s ≡ true))
    → (t : SnapshotRecord) × (find_match ref ss m ≡ some (some t))
unfolding find_match
find_match-finds ref [] none s has_id alike kept found = absurd (ground arith)
find_match-finds ref [] (some t) s has_id alike kept found = (t, refl)
find_match-finds ref (v ∷ ss) m s has_id alike kept found = elim (Bool-cases (is_match ref v)) [
  | inr passed ↦
      let later : (m ≢ none) ⊎ (In s ss × (is_match ref s ≡ true)) = elim found [
        | inl q ↦ inl q
        | inr (inl q, at) ↦ absurd (cc (sym passed ∙ subst (λ x. is_match ref x ≡ true) (sym q) at))
        | inr (inr i, at) ↦ inr (i, at)
      ] in
      let (t, e) = find_match-finds ref ss m s has_id (λ u i. alike u (inr i)) kept later in
      (t, rw (consider-pass ref v m passed, find_match) e)
  | inl at ↦
      let same : v.id ≡ s.id = alike v (inl refl) at in
      let (t, e) =
        find_match-finds ref ss (some v) s has_id (λ u i. alike u (inr i)) (λ u q. ground arith)
          (inl (λ q. cc)) in
      let taken =
        consider-take ref v m at (λ q. has_id (sym same ∙ q)) (λ u q. kept u q ∙ sym same) in
      (t, rw (taken, find_match) e)
]

shadow_free :
    (m : SnapshotRecord) (ss : List SnapshotRecord) (u : SnapshotRecord)
    → is_shadowed m ss ≡ false
    → In u ss
    → u.name ≡ m.id
    → u.id ≡ m.id
unfolding is_shadowed
shadow_free m [] u h i named = elim i [ ]
shadow_free m (v ∷ ss) u h (inl q) named = ground (arith, q, eq_iff v.id m.id, eq_iff v.name m.id)
shadow_free m (v ∷ ss) u h (inr i) named = shadow_free m ss u (ground arith) i named

shadow :
    (m s : SnapshotRecord) (ss : List SnapshotRecord)
    → m.id ≡ s.id
    → ((u : SnapshotRecord) → In u ss → u.name ≡ s.id → u.id ≡ s.id)
    → is_shadowed m ss ≡ false
unfolding is_shadowed
shadow m s [] same free = refl
shadow m s (v ∷ ss) same free = ground (
  arith,
  eq_iff v.id m.id,
  eq_iff v.name m.id,
  free v (inl refl),
  shadow m s ss same (λ u i. free u (inr i)),
)

abbrev pub Answers : List SnapshotRecord → String → Option SnapshotRecord → Type 0
Answers snaps ref (some s) = Certain snaps ref s
Answers snaps ref none = (s : SnapshotRecord) → Certain snaps ref s → ⊥

module _ (snaps : List SnapshotRecord) (ref : String) where
  abbrev decide : Option (Option SnapshotRecord) → Option SnapshotRecord
  decide none = none
  decide (some none) = none
  decide (some (some m)) = if is_shadowed m snaps then none else some m

  decided :
      (o : Option (Option SnapshotRecord))
      → find_match ref snaps none ≡ o
      → Answers snaps ref (decide o)
  decided none e = λ s c.
      let (t, e') =
        find_match-finds ref snaps none s c.has_id c.only (λ u q. absurd (ground arith))
          (inr (c.listed, c.matches)) in
      cc
  decided (some none) e = λ s c.
      let (t, e') =
        find_match-finds ref snaps none s c.has_id c.only (λ u q. absurd (ground arith))
          (inr (c.listed, c.matches)) in
      cc
  decided (some (some m)) e = elim (Bool-cases (is_shadowed m snaps)) [
    | inl dark ↦
        rw dark (λ s c.
          cc (sym dark ∙ shadow m s snaps (sym (f.alike s c.listed c.matches)) c.unshadowed))
    | inr clear ↦ rw clear (elim f.from [
      | inl q ↦ absurd (ground arith)
      | inr (i, at, has_id) ↦ record {
        listed = i;
        matches = at;
        has_id = has_id;
        only = f.alike;
        unshadowed = λ u j. shadow_free m snaps u clear j;
      }
    ])
  ]
    where
      f : Found ref snaps none m
      f = find_match-Found ref snaps none m e

-- The snapshot that a create reference resolves to is one that it certainly stands for; and a
-- reference is refused only if it stands for none with certainty.
pub resolve_snapshot-Answers :
    (snaps : List SnapshotRecord) (ref : String) → Answers snaps ref (resolve_snapshot snaps ref)
unfolding resolve_snapshot
resolve_snapshot-Answers snaps ref = decided snaps ref (find_match ref snaps none) refl
