-- ===== src/Examples/Registries.antt =====
-- The registry, the snapshots and the seals at concrete inputs.
use Prim.Native.String.{String}
use package.text.Mathlib.Text.{◌==◌}
use package.text.Mathlib.TextEquality.{eq_iff}
use package.text.Mathlib.TextPositions.{eq_refl}
use g_sandbox.Base.{
  ◌≡◌, refl, subst, ◌⊎◌, inl, inr, Bool, true, false, ◌&&◌, ◌||◌, Bool-cases, is_some, Option, none,
  some, List, [], ◌∷◌, arith, if◌then◌else◌,
}
use g_sandbox.Proxy.Text.{contains}
use g_sandbox.Registry.{Reference, tagged, unparsed, Crane, IsLawful, empty_gc, collect, delete_tag}
use g_sandbox.Registry.Tags.{Names, Untags, delete_tag-Untags}
use g_sandbox.Proxy.Snapshots.{SnapshotRecord, SnapshotDelete, handle_snapshot_delete}
use g_sandbox.Proxy.Snapshots.Cleanup.{MayGo, handle_snapshot_delete-MayGo}
use g_sandbox.Registry.Gc.{Collectable, entries, collect_lem}

-- A registry is what the tags of one repository point at.
abbrev Tags : Type 0
Tags = String → String → Option String

abbrev tag_names : List String
tag_names = "d-1" ∷ "d-2" ∷ "latest" ∷ []

abbrev points : Tags → String → String → Option String
points s r t = if contains t tag_names then s r t else none

abbrev listed : Tags → String → List String → List String
listed s r [] = []
listed s r (t ∷ ts) = if is_some (points s r t) then t ∷ listed s r ts else listed s r ts

abbrev is_at : Option String → String → Bool
is_at none d = false
is_at (some e) d = e == d

abbrev without : Tags → String → String → Tags
without s repo d r t = if repo == r && is_at (s r t) d then none else s r t

abbrev crane : Crane
crane = record {
  State = Tags;
  holds = points;
  digest = points;
  list_tags = λ s r. some (listed s r tag_names);
  delete = λ s repo d. (true, without s repo d);
}

is_at-eq : (o : Option String) (d : String) → is_at o d ≡ true → o ≡ some d
is_at-eq none d h = ground arith
is_at-eq (some e) d h = ground (arith, eq_iff e d)

is_some-none : (o : Option String) → is_some o ≡ false → o ≡ none
is_some-none none h = refl
is_some-none (some d) h = ground arith

contains-listed :
    (s : Tags) (repo tag : String) (ts : List String)
    → contains tag (listed s repo ts) ≡ false
    → contains tag ts ≡ true
    → points s repo tag ≡ none
contains-listed s repo tag [] h m = absurd (ground arith)
contains-listed s repo tag (t ∷ ts) h m =
    let rest = contains-listed s repo tag ts in
    elim (Bool-cases (is_some (points s repo t))) [
      | inl e ↦ rest (ground (arith, eq_iff t tag)) (ground (arith, eq_iff t tag))
      | inr e ↦ elim (Bool-cases (t == tag)) [
        | inl same ↦
            is_some-none (points s repo tag)
              (subst (λ x. is_some (points s repo x) ≡ false) ((eq_iff t tag).0 same) e)
        | inr other ↦ rest (ground arith) (ground arith)
      ]
    ]

unlisted :
    (s : Tags) (repo tag : String) (tags : List String)
    → some (listed s repo tag_names) ≡ some tags
    → contains tag tags ≡ false
    → points s repo tag ≡ none
unlisted s repo tag tags e h = elim (Bool-cases (contains tag tag_names)) [
  | inl in_repo ↦
      let q : tags ≡ listed s repo tag_names = ground arith in
      contains-listed s repo tag tag_names (rw q at h) in_repo
  | inr other ↦ rw other refl
]

without-keeps :
    (s : Tags) (repo d r t : String)
    → (points (without s repo d) r t ≡ points s r t) ⊎ ((repo ≡ r) × (points s r t ≡ some d))
without-keeps s repo d r t = elim (Bool-cases (contains t tag_names)) [
  | inr other ↦ inl (rw other refl)
  | inl known ↦ elim (Bool-cases (repo == r && is_at (s r t) d)) [
    | inr kept ↦ inl (rw (known, kept) refl)
    | inl takes ↦ inr (ground (arith, eq_iff repo r), rw known (is_at-eq (s r t) d (ground arith)))
  ]
]

without-takes :
    (s : Tags) (repo d t : String)
    → points s repo t ≡ some d
    → points (without s repo d) repo t ≡ none
without-takes s repo d t h = elim (Bool-cases (contains t tag_names)) [
  | inr other ↦ rw other refl
  | inl known ↦
      let at : s repo t ≡ some d = rw known at h in rw (known, eq_refl repo, at, eq_refl d) refl
]

crane_IsLawful : IsLawful crane
crane_IsLawful = record {
  digest-holds = λ s repo tag d h. h;
  list_tags-complete = unlisted;
  delete-keeps = without-keeps;
  delete-takes = λ s repo d t done h. without-takes s repo d t h;
}

-- The tag and the name it is read from.
abbrev parse : String → Reference
parse s = if s == "d-1" || s == "d-2" || s == "latest" then tagged "app" s else unparsed

-- "d-1" stands alone, "d-2" shares its manifest with "latest".
abbrev tags : Tags
tags r t =
    if r == "app"
    then (if t == "d-1"
        then some "sha256:aa"
        else if contains t tag_names
        then some "sha256:bb"
        else none)
    else none

abbrev refs : List String
refs = "d-1" ∷ "d-2" ∷ []

collect_lem_example :
    let (r, t) = collect crane parse false [] refs empty_gc tags in
    (Collectable crane crane_IsLawful parse [] refs "app" "latest"
      ⊎ (crane.holds t "app" "latest" ≡ some "sha256:bb"))
    × ((contains "d-1" r.removed ≡ false)
        ⊎ (Names (parse "d-1") "app" "d-1" → ⊥)
        ⊎ (crane.holds t "app" "d-1" ≡ none))
    × (entries r ≡ 2)
    × ((collect crane parse true [] refs empty_gc tags).1 ≡ tags)
collect_lem_example =
    collect_lem crane crane_IsLawful parse [] refs tags "app" "latest" "d-1" "app" "d-1"

delete_tag-Untags_example :
    Untags crane crane_IsLawful
      (tagged "app" "d-2")
      tags
      (delete_tag crane (tagged "app" "d-2") tags)
delete_tag-Untags_example = delete_tag-Untags crane crane_IsLawful (tagged "app" "d-2") tags

abbrev deletes : SnapshotDelete
deletes = record { id = "s1"; before = none; status = 200; after = some none; snaps = some [] }

handle_snapshot_delete-MayGo_example :
    (crane.holds (handle_snapshot_delete crane parse true deletes tags).1 "app" "latest"
      ≡ some "sha256:bb")
    ⊎ ((snaps : List SnapshotRecord) × MayGo parse true deletes snaps "app" "latest")
handle_snapshot_delete-MayGo_example =
    handle_snapshot_delete-MayGo crane crane_IsLawful parse true deletes tags "app" "latest"
