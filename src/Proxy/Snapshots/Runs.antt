-- ===== src/Proxy/Snapshots/Runs.antt =====
-- What the runner of a sealed create from a snapshot starts.
use Prim.Native.String.{String}
use package.text.Mathlib.TextEquality.{eq_iff}
use g_sandbox.Base.{
  ◌≡◌, refl, subst, ◌≢◌, ◌⊎◌, inl, inr, true, false, Option, none, some, List, [], ◌∷◌, Bool-cases,
  Option-cases, arith,
}
use g_sandbox.Proxy.Json.{Body}
use g_sandbox.Proxy.Owner.{create_field}
use g_sandbox.Registry.{Reference, pin_ref}
use g_sandbox.Proxy.Snapshots.{
  SnapshotRecord, resolve_snapshot, SealedSource, source_of, resolve_image_ref, ImageConfig,
  same_texts, is_nonempty, compare_configs, check_snapshot_runs_image,
}
use g_sandbox.Proxy.Snapshots.Certain.{Certain, Answers, resolve_snapshot-Answers}

same_texts-eq : (as' bs : List String) → same_texts as' bs ≡ true → as' ≡ bs
same_texts-eq [] [] h = refl
same_texts-eq [] (b ∷ bs) h = absurd (ground arith)
same_texts-eq (a ∷ as') [] h = absurd (ground arith)
same_texts-eq (a ∷ as') (b ∷ bs) h = ground (arith, eq_iff a b, same_texts-eq as' bs)

is_nonempty-false : (as' : List String) → is_nonempty as' ≡ false → as' ≡ []
is_nonempty-false [] h = refl
is_nonempty-false (a ∷ as') h = absurd (ground arith)

-- The image that a runner starts for a source has the config of the one that is certified, its
-- manifest pinned to the hash, and the source brings no other entrypoint.
abbrev pub RunsCertified :
    (String → Reference) → (String → Option ImageConfig) → SealedSource → String → Type 0
RunsCertified parse get_config src image_hash =
    (p : String) × (certified : ImageConfig) × (runs : ImageConfig) × (pin_ref (parse src.image)
        image_hash
      ≡ some p)
    × (get_config p ≡ some certified)
    × (get_config src.run_ref ≡ some runs)
    × (runs.digest ≡ certified.digest)
    × ((src.entrypoint ≡ []) ⊎ (certified.entrypoint ≡ src.entrypoint))

compare_configs-none :
    (src : SealedSource) (certified runs : ImageConfig)
    → compare_configs src certified runs ≡ none
    → (runs.digest ≡ certified.digest)
      × ((src.entrypoint ≡ []) ⊎ (certified.entrypoint ≡ src.entrypoint))
unfolding compare_configs
compare_configs-none src certified runs h = (
  ground (arith, eq_iff runs.digest certified.digest),
  elim (Bool-cases (is_nonempty src.entrypoint)) [
    | inr e ↦ inl (is_nonempty-false src.entrypoint e)
    | inl e ↦ inr (same_texts-eq certified.entrypoint src.entrypoint (ground arith))
  ],
)

check-RunsCertified :
    (parse : String → Reference) (get_config : String → Option ImageConfig) (src : SealedSource)
    (image_hash : String)
    → check_snapshot_runs_image parse get_config src image_hash ≡ none
    → RunsCertified parse get_config src image_hash
unfolding check_snapshot_runs_image
check-RunsCertified parse get_config src image_hash h =
    elim (Option-cases (pin_ref (parse src.image) image_hash)) [
      | inl e ↦ absurd (ground arith)
      | inr (p, e) ↦ elim (Option-cases (get_config p)) [
        | inl e' ↦ absurd (ground arith)
        | inr (certified, e') ↦ elim (Option-cases (get_config src.run_ref)) [
          | inl e2 ↦ absurd (ground arith)
          | inr (runs, e2) ↦
              let (same, entry) = compare_configs-none src certified runs (ground arith) in
              (p, certified, runs, e, e', e2, same, entry)
        ]
      ]
    ]

-- The snapshot record behind a source that is no image named directly.
source-Certain :
    (b : Body) (snaps : List SnapshotRecord) (src : SealedSource)
    → resolve_image_ref b (some snaps) ≡ some src
    → src.snapshot_id ≢ ""
    → (s : SnapshotRecord) × Certain snaps (create_field b "snapshot") s
      × (s.has_build_info ≡ false)
      × (src ≡ record {
        image = s.image_name;
        run_ref = s.ref;
        entrypoint = s.entrypoint;
        snapshot_id = s.id;
      })
unfolding resolve_image_ref source_of
source-Certain b snaps src h has_id =
    elim (Option-cases (resolve_snapshot snaps (create_field b "snapshot"))) [
      | inl e ↦ absurd (ground arith)
      | inr (s, e) ↦ (
        s,
        subst (Answers snaps (create_field b "snapshot")) e
            (resolve_snapshot-Answers snaps (create_field b "snapshot")),
        ground arith,
        ground arith,
      )
    ]

-- A sealed create from a snapshot that passes the checks starts a record that its reference certainly
-- stands for, that is not built from a Dockerfile, whose id, image and entrypoint are the source's, and
-- whose runner starts an image with the config of the certified one and with no other entrypoint.
pub source_certified :
    (parse : String → Reference) (get_config : String → Option ImageConfig) (b : Body)
    (snaps : List SnapshotRecord) (src : SealedSource) (image_hash : String)
    → resolve_image_ref b (some snaps) ≡ some src
    → src.snapshot_id ≢ ""
    → check_snapshot_runs_image parse get_config src image_hash ≡ none
    → (s : SnapshotRecord) × Certain snaps (create_field b "snapshot") s
      × (s.has_build_info ≡ false)
      × (src ≡ record {
        image = s.image_name;
        run_ref = s.ref;
        entrypoint = s.entrypoint;
        snapshot_id = s.id;
      })
      × RunsCertified parse get_config src image_hash
source_certified parse get_config b snaps src image_hash h has_id ok =
    let (s, certain, plain, same) = source-Certain b snaps src h has_id in
    (s, certain, plain, same, check-RunsCertified parse get_config src image_hash ok)
