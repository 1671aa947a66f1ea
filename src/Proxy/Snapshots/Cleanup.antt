-- ===== src/Proxy/Snapshots/Cleanup.antt =====
-- What the delete of a snapshot takes out of the registry.
use Prim.Native.String.{String}
use package.text.Mathlib.Text.{◌==◌}
use package.text.Mathlib.TextEquality.{eq_iff}
use g_sandbox.Base.{
  ◌≡◌, refl, ◌⊎◌, inl, inr, Bool, true, false, ◌||◌, not, Option, none, some, List, [], ◌∷◌,
  Bool-cases, arith,
}
use g_sandbox.Registry.{Reference, Crane, IsLawful, is_derived_tag}
use g_sandbox.Registry.Tags.{Names, Names-cases, delete_tag-Untags}
use g_sandbox.Proxy.Snapshots.{
  SnapshotRecord, SnapshotDelete, image_of, was_deleted, is_referenced, cleanup_derived_tag,
  handle_snapshot_delete,
}

-- No other snapshot has the image.
abbrev pub Unreferenced : String → String → List SnapshotRecord → Type 0
Unreferenced id image [] = Unit
Unreferenced id image (s ∷ ss) =
    ((s.id ≡ id) ⊎ (s.image_name ≡ image → ⊥)) × Unreferenced id image ss

unreferenced :
    (id image : String) (ss : List SnapshotRecord)
    → is_referenced id image ss ≡ false
    → Unreferenced id image ss
unfolding is_referenced
unreferenced id image [] h = tt
unreferenced id image (s ∷ ss) h = (
  elim (Bool-cases (s.id == id)) [
    | inl e ↦ inl ((eq_iff s.id id).0 e)
    | inr e ↦ inr (λ q. ground (arith, eq_iff s.image_name image))
  ],
  unreferenced id image ss (ground arith),
)

-- Why a tag may go with a snapshot.
pub record MayGo (parse : String → Reference) (is_admin : Bool) (d : SnapshotDelete)
    (snaps : List SnapshotRecord) (repo tag : String) : Type 0 where
  pub by_operator : is_admin ≡ true
  pub done : was_deleted d ≡ true
  pub listed : d.snaps ≡ some snaps
  pub named : Names (parse (image_of d.before)) repo tag
  pub derived : is_derived_tag (parse (image_of d.before)) ≡ true
  pub unused : Unreferenced d.id (image_of d.before) snaps

module _ (C : Crane) (L : IsLawful C) (parse : String → Reference) where
  cleaned :
      (d : SnapshotDelete) (s : C.State) (repo tag : String) (o : Option (List SnapshotRecord))
      → was_deleted d ≡ true
      → d.snaps ≡ o
      → (C.holds (cleanup_derived_tag C parse d.id (image_of d.before) o s) repo tag
          ≡ C.holds s repo tag)
        ⊎ ((snaps : List SnapshotRecord) × MayGo parse true d snaps repo tag)
  unfolding cleanup_derived_tag
  cleaned d s repo tag none done e = inl refl
  cleaned d s repo tag (some snaps) done e =
      let image : String = image_of d.before in
      elim (Bool-cases
        (image == "" || not (is_derived_tag (parse image)) || is_referenced d.id image snaps)) [
          | inl skipped ↦ inl (rw skipped refl)
          | inr cleans ↦ elim (Names-cases (parse image) repo tag) [
            | inr other ↦
                inl (rw cleans ((delete_tag-Untags C L (parse image) s).others repo tag other))
            | inl named ↦ inr (
              snaps,
              record {
                by_operator = refl;
                done = done;
                listed = e;
                named = named;
                derived = ground arith;
                unused = unreferenced d.id image snaps (ground arith);
              },
            )
          ]
        ]

  -- Deleting a snapshot leaves every tag of the registry as it is, but for the tag of the deleted
  -- snapshot's image, which may go if an operator asks, the snapshot is deleted, the tag is a derived
  -- one and no other snapshot in the listing has that image.
  pub handle_snapshot_delete-MayGo :
      (is_admin : Bool) (d : SnapshotDelete) (s : C.State) (repo tag : String)
      → (C.holds (handle_snapshot_delete C parse is_admin d s).1 repo tag ≡ C.holds s repo tag)
        ⊎ ((snaps : List SnapshotRecord) × MayGo parse is_admin d snaps repo tag)
  unfolding handle_snapshot_delete
  handle_snapshot_delete-MayGo false d s repo tag = inl refl
  handle_snapshot_delete-MayGo true d s repo tag = elim (Bool-cases (was_deleted d)) [
    | inr kept ↦ inl (rw kept refl)
    | inl done ↦ rw done (cleaned d s repo tag d.snaps done refl)
  ]
