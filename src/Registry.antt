-- ===== src/Registry.antt =====
-- The internal image registry: internal/registry/digest.go and gc.go, and the registry GC of
-- cmd/billing/main.go. The registry itself and the client library for it (crane) are given, as an
-- interface; so are the parser of image references, and the texts of errors are left out.

pub mod Tags
pub mod Gc
pub mod Pull
use Prim.Native.String.{String, ◌++◌, len, slice}
use package.text.Mathlib.Text.{◌==◌, starts_with}
use g_sandbox.Base.{
  ℕ, ◌≡◌, ◌≢◌, ◌⊎◌, Bool, true, false, ◌&&◌, ◌||◌, not, Option, none, some, List, [], ◌∷◌,
  if◌then◌else◌, ltb, inl, inr,
}
use g_sandbox.Proxy.Text.{contains}

-- `name.ParseReference`: by tag or by digest, in the repository under its full name.
pub data Reference : Type 0 where
  tagged : (repo tag : String) → Reference
  pinned : (repo digest : String) → Reference
  unparsed : Reference

-- What the code calls of crane. `none` is an error, `delete` may fail with or without effect.
pub record Crane : Type 1 where
  pub State : Type 0
  pub holds : State → (repo tag : String) → Option String  -- the digest that the tag points at
  pub digest : State → (repo tag : String) → Option String
  pub list_tags : State → (repo : String) → Option (List String)
  pub delete : State → (repo digest : String) → Bool × State

-- What is relied on: answers are true and listings complete, and a delete takes the manifest, with all
-- tags of the repository that point at it, and nothing else.
pub record IsLawful (C : Crane) : Type 0 where
  pub digest-holds :
      (s : C.State) (repo tag d : String)
      → C.digest s repo tag ≡ some d
      → C.holds s repo tag ≡ some d
  pub list_tags-complete :
      (s : C.State) (repo tag : String) (tags : List String)
      → C.list_tags s repo ≡ some tags
      → contains tag tags ≡ false
      → C.holds s repo tag ≡ none
  pub delete-keeps :
      (s : C.State) (repo d r t : String)
      → (C.holds (C.delete s repo d).1 r t ≡ C.holds s r t)
        ⊎ ((repo ≡ r) × (C.holds s r t ≡ some d))
  pub delete-takes :
      (s : C.State) (repo d t : String)
      → (C.delete s repo d).0 ≡ true
      → C.holds s repo t ≡ some d
      → C.holds (C.delete s repo d).1 repo t ≡ none

-- How `DeleteTag` ends.
pub data Deletion : Type 0 where
  deleted shares_manifest failed : Deletion

-- The search for a sibling: `none` if one cannot be probed.
pub data Siblings : Type 0 where
  apart shared unknown : Siblings

-- `PinRef`, of a parsed reference.
unfoldable pub pin_ref : Reference → String → Option String
pin_ref (tagged repo tag) digest = some (repo ++ "@" ++ digest)
pin_ref (pinned repo old) digest = some (repo ++ "@" ++ digest)
pin_ref unparsed digest = none

-- The tag of `TagByDigest`, for a digest that was read; `none` if it is too short. Digests are ASCII.
unfoldable pub derived_tag : String → Option String
derived_tag digest =
    let short =
      if starts_with digest "sha256:" then slice digest (len "sha256:") (len digest) else digest in
    if ltb (len short) 16 then none else some ("d-" ++ slice short 0 16)

-- `IsDerivedTag`
unfoldable pub is_derived_tag : Reference → Bool
is_derived_tag (tagged repo tag) = starts_with tag "d-"
is_derived_tag (pinned repo digest) = false
is_derived_tag unparsed = false

module _ (C : Crane) where
  -- The loop of `DeleteTag` over the repository's tags.
  unfoldable pub probe_siblings : C.State → (repo tag target : String) → List String → Siblings
  probe_siblings s repo tag target [] = apart
  probe_siblings s repo tag target (t ∷ ts) =
      let rest = probe_siblings s repo tag target ts in
      if t == tag then rest else elim (C.digest s repo t) [
        | none ↦ unknown
        | some d ↦ if d == target then shared else rest
      ]

  unfoldable pub delete_apart : C.State → (repo target : String) → Siblings → Deletion × C.State
  delete_apart s repo target unknown = (failed, s)
  delete_apart s repo target shared = (shares_manifest, s)
  delete_apart s repo target apart =
      let (done, s') = C.delete s repo target in (if done then deleted else failed, s')

  -- `DeleteTag`, of a parsed reference.
  unfoldable pub delete_tag : Reference → C.State → Deletion × C.State
  delete_tag unparsed s = (failed, s)
  delete_tag (pinned repo digest) s = (failed, s)
  delete_tag (tagged repo tag) s = elim (C.digest s repo tag) [
    | none ↦ (failed, s)
    | some target ↦ elim (C.list_tags s repo) [
      | none ↦ (failed, s)
      | some tags ↦ delete_apart s repo target (probe_siblings s repo tag target tags)
    ]
  ]

-- The end of the text behind the last slash: `leaf` in `ListDerivedTags`.
unfoldable pub leaf_of : String → String → String
leaf_of acc String.[] = acc
leaf_of acc (String.◌∷◌ c r) = leaf_of (if String.◌∷◌ c String.[] == "/" then r else acc) r

unfoldable pub is_internal_repo : String → Bool
is_internal_repo repo =
    starts_with (leaf_of repo repo) "daytona-" || starts_with (leaf_of repo repo) "backup-"

-- The references of one repository's derived tags.
unfoldable pub derived_refs : String → String → List String → List String → List String
derived_refs host repo [] refs = refs
derived_refs host repo (tag ∷ tags) refs =
    let rest = derived_refs host repo tags refs in
    if starts_with tag "d-" then (host ++ "/" ++ repo ++ ":" ++ tag) ∷ rest else rest

-- `ListDerivedTags`, over the catalog with what is answered for each repository.
unfoldable pub list_derived_tags :
    String → List (String × Option (List String)) → Option (List String)
list_derived_tags host [] = some []
list_derived_tags host ((repo, answer) ∷ catalog) =
    let rest = list_derived_tags host catalog in
    if is_internal_repo repo then rest else elim answer [
      | none ↦ none
      | some tags ↦ elim rest [ none ↦ none | some refs ↦ some (derived_refs host repo tags refs) ]
    ]

-- The reply of the GC; its lists here grow at the front.
pub record GcReport : Type 0 where
  pub removed : List String
  pub kept : List String
  pub skipped : List String
  pub failures : List String

abbrev pub empty_gc : GcReport
empty_gc = record { removed = []; kept = []; skipped = []; failures = [] }

unfoldable pub report : String → Deletion → GcReport → GcReport
report ref deleted r = record r { removed = ref ∷ r.removed }
report ref shares_manifest r = record r { skipped = ref ∷ r.skipped }
report ref failed r = record r { failures = ref ∷ r.failures }

-- `inUse`: the image names of the snapshots, but the empty one.
abbrev pub in_use : List String → String → Bool
in_use images ref = not (ref == "") && contains ref images

module _ (C : Crane) (parse : String → Reference) where
  -- What the GC does with one reference.
  unfoldable pub collect_one :
      (dry_run : Bool) → List String → String → GcReport → C.State → GcReport × C.State
  collect_one dry images ref r s =
      if in_use images ref
      then (record r { kept = ref ∷ r.kept }, s)
      else if dry
      then (record r { removed = ref ∷ r.removed }, s)
      else let (d, s') = delete_tag C (parse ref) s in (report ref d r, s')

  -- The loop of the GC.
  unfoldable pub collect :
      (dry_run : Bool) → List String → List String → GcReport → C.State → GcReport × C.State
  collect dry images [] r s = (r, s)
  collect dry images (ref ∷ refs) r s =
      let (r', s') = collect_one dry images ref r s in collect dry images refs r' s'

  -- The handler of POST /registry/gc, with the two listings: a report, or the status of a refusal.
  unfoldable pub handle_gc :
      (is_admin dry_run : Bool)
      → Option (List String)
      → Option (List String)
      → C.State
      → (GcReport ⊎ ℕ) × C.State
  handle_gc false dry candidates images s = (inr 403, s)
  handle_gc true dry none images s = (inr 502, s)
  handle_gc true dry (some refs) none s = (inr 502, s)
  handle_gc true dry (some refs) (some images) s =
      let (r, s') = collect dry images refs empty_gc s in (inl r, s')
