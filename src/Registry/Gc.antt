-- ===== src/Registry/Gc.antt =====
-- What the GC of derived tags removes.
use Prim.Native.String.{String}
use package.text.Mathlib.Text.{◌==◌}
use package.text.Mathlib.TextEquality.{eq_iff}
use package.text.Mathlib.TextPositions.{eq_refl}
use g_sandbox.Base.{
  none, subst, ℕ, ◌+◌, ◌≡◌, ◌⊎◌, refl, sym, ◌∙◌, inl, inr, Bool, true, false, List, [], ◌∷◌, length,
  Bool-cases, arith,
}
use g_sandbox.Proxy.Text.{contains}
use g_sandbox.Registry.{
  Reference, Crane, IsLawful, Deletion, deleted, shares_manifest, failed, GcReport, empty_gc,
  report, in_use, collect_one, collect,
}
use g_sandbox.Registry.Tags.{Names, Names-cases, Untags, delete_tag-Untags}

abbrev pub entries : GcReport → ℕ
entries r = length r.removed + length r.kept + length r.skipped + length r.failures

module _ (C : Crane) (L : IsLawful C) (parse : String → Reference) where
  -- A tag that no reference outside the names in use stands for.
  abbrev pub Spared : List String → List String → (repo tag : String) → Type 0
  Spared images refs repo tag =
      (ref : String)
      → contains ref refs ≡ true
      → in_use images ref ≡ false
      → Names (parse ref) repo tag
      → ⊥

  one_spared :
      (dry : Bool) (images : List String) (ref repo tag : String) (r : GcReport) (s : C.State)
      → (in_use images ref ≡ false → Names (parse ref) repo tag → ⊥)
      → C.holds (collect_one C parse dry images ref r s).1 repo tag ≡ C.holds s repo tag
  unfolding collect_one
  one_spared dry images ref repo tag r s n = elim (Bool-cases (in_use images ref)) [
    | inl used ↦ rw used refl
    | inr unused ↦ elim (Bool-cases dry) [
      | inl d ↦ rw (unused, d) refl
      | inr d ↦ rw (unused, d) ((delete_tag-Untags C L (parse ref) s).others repo tag (n unused))
    ]
  ]

  spared :
      (dry : Bool) (images refs : List String) (repo tag : String) (r : GcReport) (s : C.State)
      → Spared images refs repo tag
      → C.holds (collect C parse dry images refs r s).1 repo tag ≡ C.holds s repo tag
  unfolding collect
  spared dry images [] repo tag r s n = refl
  spared dry images (ref ∷ refs) repo tag r s n =
      spared dry images refs repo tag _ _ (λ x m. n x (ground arith))
      ∙ one_spared dry images ref repo tag r s (n ref (ground (arith, eq_refl ref)))

  -- The tags that are reported as removed are gone.
  abbrev pub Removed : List String → C.State → Type 0
  Removed refs s =
      (ref repo tag : String)
      → contains ref refs ≡ true
      → Names (parse ref) repo tag
      → C.holds s repo tag ≡ none

  reported :
      (ref : String) (r : GcReport) (s : C.State) (out : Deletion × C.State)
      → Untags C L (parse ref) s out
      → Removed r.removed s
      → Removed (report ref out.0 r).removed out.1
  unfolding report
  reported ref r s (deleted, s') u h x repo tag m n = elim (Bool-cases (ref == x)) [
    | inl e ↦
        u.gone repo tag refl (subst (λ y. Names (parse y) repo tag) (sym ((eq_iff ref x).0 e)) n)
    | inr e ↦ u.stays repo tag (h x repo tag (ground arith) n)
  ]
  reported ref r s (shares_manifest, s') u h x repo tag m n = u.stays repo tag (h x repo tag m n)
  reported ref r s (failed, s') u h x repo tag m n = u.stays repo tag (h x repo tag m n)

  one_removed :
      (images : List String) (ref : String) (r : GcReport) (s : C.State)
      → Removed r.removed s
      → Removed
          (collect_one C parse false images ref r s).0.removed
          (collect_one C parse false images ref r s).1
  unfolding collect_one
  one_removed images ref r s h = elim (Bool-cases (in_use images ref)) [
    | inl used ↦ rw used h
    | inr unused ↦ rw unused (reported ref r s _ (delete_tag-Untags C L (parse ref) s) h)
  ]

  removed_gone :
      (images refs : List String) (r : GcReport) (s : C.State)
      → Removed r.removed s
      → Removed
          (collect C parse false images refs r s).0.removed
          (collect C parse false images refs r s).1
  unfolding collect
  removed_gone images [] r s h = h
  removed_gone images (ref ∷ refs) r s h =
      removed_gone images refs _ _ (one_removed images ref r s h)

  report-entries :
      (ref : String) (d : Deletion) (r : GcReport) → entries (report ref d r) ≡ entries r + 1
  unfolding report
  report-entries ref deleted r = omega arith
  report-entries ref _ r = omega arith

  one_entry :
      (dry : Bool) (images : List String) (ref : String) (r : GcReport) (s : C.State)
      → entries (collect_one C parse dry images ref r s).0 ≡ entries r + 1
  unfolding collect_one
  one_entry dry images ref r s = elim (Bool-cases (in_use images ref)) [
    | inl used ↦ rw used (omega arith)
    | inr unused ↦ elim (Bool-cases dry) [
      | inl d ↦ rw (unused, d) (omega arith)
      | inr d ↦ rw (unused, d) (report-entries ref _ r)
    ]
  ]

  all_entries :
      (dry : Bool) (images refs : List String) (r : GcReport) (s : C.State)
      → entries (collect C parse dry images refs r s).0 ≡ entries r + length refs
  unfolding collect
  all_entries dry images [] r s = omega arith
  all_entries dry images (ref ∷ refs) r s = omega (
    arith,
    all_entries dry images refs (collect_one C parse dry images ref r s).0
        (collect_one C parse dry images ref r s).1,
    one_entry dry images ref r s,
  )

  one_dry :
      (images : List String) (ref : String) (r : GcReport) (s : C.State)
      → (collect_one C parse true images ref r s).1 ≡ s
  unfolding collect_one
  one_dry images ref r s = elim (Bool-cases (in_use images ref)) [
    | inl used ↦ rw used refl
    | inr unused ↦ rw unused refl
  ]

  dry_keeps :
      (images refs : List String) (r : GcReport) (s : C.State)
      → (collect C parse true images refs r s).1 ≡ s
  unfolding collect
  dry_keeps images [] r s = refl
  dry_keeps images (ref ∷ refs) r s = dry_keeps images refs _ _ ∙ one_dry images ref r s

  -- A candidate outside the names in use that stands for the tag.
  abbrev pub Collectable : List String → List String → (repo tag : String) → Type 0
  Collectable images refs repo tag =
      (ref : String) × (contains ref refs ≡ true)
      × (in_use images ref ≡ false)
      × Names (parse ref) repo tag

  first-Spared :
      (images refs : List String) (x repo tag : String)
      → ((in_use images x ≡ true) ⊎ (Names (parse x) repo tag → ⊥))
      → Spared images refs repo tag
      → Spared images (x ∷ refs) repo tag
  first-Spared images refs x repo tag why rest ref m unused named = elim (Bool-cases (x == ref)) [
    | inr other ↦ rest ref (ground arith) unused named
    | inl e ↦
        let same : x ≡ ref = (eq_iff x ref).0 e in
        elim why [
          | inl used ↦ ground (arith, subst (λ y. in_use images y ≡ true) same used)
          | inr never ↦ never (subst (λ y. Names (parse y) repo tag) (sym same) named)
        ]
  ]

  collect_one-Spared :
      (images refs : List String) (repo tag : String)
      → Collectable images refs repo tag ⊎ Spared images refs repo tag
  collect_one-Spared images [] repo tag = inr (λ ref m unused named. absurd (ground arith))
  collect_one-Spared images (x ∷ refs) repo tag = elim (collect_one-Spared images refs repo tag) [
    | inl (ref, m, unused, named) ↦ inl (ref, ground arith, unused, named)
    | inr rest ↦ elim (Bool-cases (in_use images x)) [
      | inl used ↦ inr (first-Spared images refs x repo tag (inl used) rest)
      | inr unused ↦ elim (Names-cases (parse x) repo tag) [
        | inl named ↦ inl (x, ground (arith, eq_refl x), unused, named)
        | inr never ↦ inr (first-Spared images refs x repo tag (inr never) rest)
      ]
    ]
  ]

  -- A reference that is reported as removed names no tag that is still there.
  reported_gone :
      (images refs : List String) (s : C.State) (ref repo tag : String)
      → let (r, s') = collect C parse false images refs empty_gc s in
        (contains ref r.removed ≡ false)
        ⊎ (Names (parse ref) repo tag → ⊥)
        ⊎ (C.holds s' repo tag ≡ none)
  reported_gone images refs s ref repo tag =
      let (r, s') = collect C parse false images refs empty_gc s in
      elim (Bool-cases (contains ref r.removed)) [
        | inr absent ↦ inl absent
        | inl m ↦ elim (Names-cases (parse ref) repo tag) [
          | inr never ↦ inr (inl never)
          | inl named ↦ inr (
              inr (
                removed_gone images refs empty_gc s (λ x r t e. absurd (ground arith)) ref repo tag
                  m named))
        ]
      ]

  -- A GC over any candidates leaves a tag as it is, or a candidate outside the image names of the snapshots
  -- stands for it; no tag of a reference that it reports as removed is there at the end; its four
  -- lists together have one entry for each candidate; and a dry run changes nothing.
  pub collect_lem :
      (images refs : List String) (s : C.State) (repo tag ref repo' tag' : String)
      → let (r, s') = collect C parse false images refs empty_gc s in
        (Collectable images refs repo tag ⊎ (C.holds s' repo tag ≡ C.holds s repo tag))
        × ((contains ref r.removed ≡ false)
            ⊎ (Names (parse ref) repo' tag' → ⊥)
            ⊎ (C.holds s' repo' tag' ≡ none))
        × (entries r ≡ length refs)
        × ((collect C parse true images refs empty_gc s).1 ≡ s)
  collect_lem images refs s repo tag ref repo' tag' = (
    elim (collect_one-Spared images refs repo tag) [
      | inl may ↦ inl may
      | inr kept ↦ inr (spared false images refs repo tag empty_gc s kept)
    ],
    reported_gone images refs s ref repo' tag',
    omega (arith, all_entries false images refs empty_gc s),
    dry_keeps images refs empty_gc s,
  )
