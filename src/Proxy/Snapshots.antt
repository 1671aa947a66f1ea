-- ===== src/Proxy/Snapshots.antt =====
-- Snapshots in internal/proxy/handler.go: what a sealed create starts (`resolveSnapshot`,
-- `resolveImageRef`, `checkSnapshotRunsImage`), and the handlers that make and delete snapshots.
-- Daytona's and the registry's answers are given.
pub mod Certain
pub mod Runs
pub mod Cleanup
use Prim.Native.Char.{code}
use Prim.Native.String.{String, ◌++◌}
use package.text.Mathlib.Text.{◌==◌}
use g_sandbox.Base.{
  ℕ, zero, suc, ◌⊎◌, inl, inr, Bool, true, false, ◌&&◌, ◌||◌, not, Option, none, some, List, [],
  ◌∷◌, leb, if◌then◌else◌,
}
use g_sandbox.Proxy.Json.{string, Fields, find, put_field, Body, unmarshal}
use g_sandbox.Proxy.Owner.{as_string, create_field}
use g_sandbox.Registry.{
  Reference, tagged, pinned, unparsed, Crane, pin_ref, derived_tag, is_derived_tag, delete_tag,
}

-- `Snapshot` of internal/daytona/client.go, what is used of it here.
pub record SnapshotRecord : Type 0 where
  pub id : String
  pub name : String
  pub image_name : String
  pub ref : String
  pub entrypoint : List String
  pub has_build_info : Bool

abbrev pub is_match : String → SnapshotRecord → Bool
is_match ref s = s.name == ref || s.id == ref

-- One round of the loop of `resolveSnapshot`: the match so far, or `none` for an error.
unfoldable pub consider :
    String → SnapshotRecord → Option SnapshotRecord → Option (Option SnapshotRecord)
consider ref s match =
    if not (is_match ref s)
    then some match
    else if s.id == ""
    then none
    else elim match [ none ↦ some (some s) | some m ↦ if m.id == s.id then some (some s) else none ]

unfoldable pub find_match :
    String → List SnapshotRecord → Option SnapshotRecord → Option (Option SnapshotRecord)
find_match ref [] match = some match
find_match ref (s ∷ ss) match = elim (consider ref s match) [
  | none ↦ none
  | some match' ↦ find_match ref ss match'
]

-- Whether another record has the match's id for a name.
unfoldable pub is_shadowed : SnapshotRecord → List SnapshotRecord → Bool
is_shadowed m [] = false
is_shadowed m (s ∷ ss) = (not (s.id == m.id) && s.name == m.id) || is_shadowed m ss

-- `resolveSnapshot`; its errors are one here.
unfoldable pub resolve_snapshot : List SnapshotRecord → String → Option SnapshotRecord
resolve_snapshot snaps ref = elim (find_match ref snaps none) [
  | none ↦ none
  | some none ↦ none
  | some (some m) ↦ if is_shadowed m snaps then none else some m
]

-- `sealedSource`
pub record SealedSource : Type 0 where
  pub image : String
  pub run_ref : String
  pub entrypoint : List String
  pub snapshot_id : String

unfoldable pub source_of : Option SnapshotRecord → Option SealedSource
source_of none = none
source_of (some s) =
    if s.has_build_info
    then none
    else some (record {
      image = s.image_name;
      run_ref = s.ref;
      entrypoint = s.entrypoint;
      snapshot_id = s.id;
    })

-- `resolveImageRef`, with the listing of the snapshots; the errors are one.
unfoldable pub resolve_image_ref : Body → Option (List SnapshotRecord) → Option SealedSource
resolve_image_ref b snaps =
    if not (create_field b "image" == "")
    then some
        (record { image = create_field b "image"; run_ref = ""; entrypoint = []; snapshot_id = "" })
    else if create_field b "snapshot" == ""
    then none
    else elim snaps [
      | none ↦ none
      | some ss ↦ source_of (resolve_snapshot ss (create_field b "snapshot"))
    ]

-- `ImageConfig` of internal/registry/digest.go
pub record ImageConfig : Type 0 where
  pub digest : String
  pub entrypoint : List String

abbrev pub same_texts : List String → List String → Bool
same_texts [] [] = true
same_texts (a ∷ as') (b ∷ bs) = a == b && same_texts as' bs
same_texts _ _ = false

abbrev pub is_nonempty : List String → Bool
is_nonempty [] = false
is_nonempty (a ∷ as') = true

unfoldable pub compare_configs : SealedSource → ImageConfig → ImageConfig → Option ℕ
compare_configs src certified runs =
    if not (runs.digest == certified.digest)
    then some 400
    else if is_nonempty src.entrypoint && not (same_texts certified.entrypoint src.entrypoint)
    then some 400
    else none

-- `checkSnapshotRunsImage`: the status of a refusal. `get_config` is `GetConfig`.
unfoldable pub check_snapshot_runs_image :
    (String → Reference) → (String → Option ImageConfig) → SealedSource → String → Option ℕ
check_snapshot_runs_image parse get_config src image_hash =
    if src.run_ref == "" then some 400 else elim (pin_ref (parse src.image) image_hash) [
      | none ↦ some 422
      | some pinned_ref ↦ elim (get_config pinned_ref) [
        | none ↦ some 422
        | some certified ↦ elim (get_config src.run_ref) [
          | none ↦ some 422
          | some runs ↦ compare_configs src certified runs
        ]
      ]
    ]

-- `uuidShaped`: groups of hexadecimal digits, by what is left of a group and of the groups behind it.
abbrev pub is_hex : ℕ → Bool
is_hex c = (leb 48 c && leb c 57) || (leb 65 c && leb c 70) || (leb 97 c && leb c 102)

unfoldable pub has_groups : ℕ → List ℕ → String → Bool
has_groups zero [] String.[] = true
has_groups zero [] (String.◌∷◌ c s) = false
has_groups zero (n ∷ ns) String.[] = false
has_groups zero (n ∷ ns) (String.◌∷◌ c s) = leb 45 (code c) && leb (code c) 45 && has_groups n ns s
has_groups (suc n) ns String.[] = false
has_groups (suc n) ns (String.◌∷◌ c s) = is_hex (code c) && has_groups n ns s

unfoldable pub uuid_shaped : String → Bool
uuid_shaped s = has_groups 8 (4 ∷ 4 ∷ 4 ∷ 12 ∷ []) s

-- `TagByDigest`: the derived reference, with the digest that is read and whether the tag is written.
unfoldable pub tag_by_digest : Reference → Option String → Bool → Option String
tag_by_digest ref none tag_ok = none
tag_by_digest ref (some digest) tag_ok = elim (derived_tag digest) [
  | none ↦ none
  | some tag ↦ elim ref [
    | tagged repo old ↦ if tag_ok then some (repo ++ ":" ++ tag) else none
    | pinned repo old ↦ if tag_ok then some (repo ++ ":" ++ tag) else none
    | unparsed ↦ none
  ]
]

-- What `handleSnapshotCreate` forwards, or the status of a refusal; `tag` is `TagByDigest`.
unfoldable pub handle_snapshot_create :
    (is_admin : Bool) → Option Body → (String → Option String) → Fields ⊎ ℕ
handle_snapshot_create false b tag = inr 403
handle_snapshot_create true none tag = inr 400
handle_snapshot_create true (some b) tag = elim (unmarshal b) [
  | none ↦ inr 400
  | some m ↦
      if as_string (find "imageName" m) == "" || uuid_shaped (as_string (find "name" m))
      then inr 400
      else elim (tag (as_string (find "imageName" m))) [
        | none ↦ inr 422
        | some ref ↦ inl (put_field "imageName" (string ref) m)
      ]
]

-- What one snapshot delete meets. `none` is an error, `some none` a snapshot that is not there.
pub record SnapshotDelete : Type 0 where
  pub id : String
  pub before : Option (Option SnapshotRecord)
  pub status : ℕ
  pub after : Option (Option SnapshotRecord)
  pub snaps : Option (List SnapshotRecord)

abbrev pub image_of : Option (Option SnapshotRecord) → String
image_of (some (some s)) = s.image_name
image_of _ = ""

abbrev pub is_gone : Option (Option SnapshotRecord) → Bool
is_gone (some none) = true
is_gone _ = false

abbrev pub was_deleted : SnapshotDelete → Bool
was_deleted d =
    (leb 200 d.status && leb d.status 299)
    || (leb 500 d.status && leb d.status 500 && is_gone d.after)

-- Whether another snapshot names the image.
unfoldable pub is_referenced : String → String → List SnapshotRecord → Bool
is_referenced id image [] = false
is_referenced id image (s ∷ ss) =
    (not (s.id == id) && s.image_name == image) || is_referenced id image ss

module _ (C : Crane) (parse : String → Reference) where
  -- `cleanupDerivedTag`; a failure of the deletion is ignored.
  unfoldable pub cleanup_derived_tag :
      String → String → Option (List SnapshotRecord) → C.State → C.State
  cleanup_derived_tag id image none s = s
  cleanup_derived_tag id image (some snaps) s =
      if image == "" || not (is_derived_tag (parse image)) || is_referenced id image snaps
      then s
      else (delete_tag C (parse image) s).1

  -- `handleSnapshotDelete`: its status, and the registry.
  unfoldable pub handle_snapshot_delete : (is_admin : Bool) → SnapshotDelete → C.State → ℕ × C.State
  handle_snapshot_delete false d s = (403, s)
  handle_snapshot_delete true d s =
      if was_deleted d
      then (200, cleanup_derived_tag d.id (image_of d.before) d.snaps s)
      else (d.status, s)
