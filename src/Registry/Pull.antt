-- ===== src/Registry/Pull.antt =====
-- The import of an image into the internal registry: internal/registry/puller.go. Imports are one after
-- the other, as its mutex has them. The registry and what crane answers are given, as an interface.
pub mod Immutable
use Prim.Native.String.{String, ◌++◌}
use package.text.Mathlib.Text.{◌==◌, starts_with}
use g_sandbox.Base.{
  ◌≡◌, ◌⊎◌, Bool, true, false, ◌&&◌, ◌||◌, not, Option, none, some, List, [], ◌∷◌, if◌then◌else◌,
}

-- What `crane.Head` answers: the digest, that there is no such tag, or another error.
pub data Head : Type 0 where
  present : String → Head
  missing : Head
  unreadable : Head

-- What the import calls of crane. A copy may fail with or without effect.
pub record Importer : Type 1 where
  pub State : Type 0
  pub holds : State → (repo tag : String) → Option String
  pub head : State → (repo tag : String) → Head
  pub source_digest : State → (src : String) → Option String
  pub copy : State → (src repo tag : String) → Bool × State

-- What is relied on: the answers to a HEAD are true, and a copy writes one tag.
pub record IsLawfulImporter (I : Importer) : Type 0 where
  pub head-present :
      (s : I.State) (repo tag d : String)
      → I.head s repo tag ≡ present d
      → I.holds s repo tag ≡ some d
  pub head-missing :
      (s : I.State) (repo tag : String) → I.head s repo tag ≡ missing → I.holds s repo tag ≡ none
  pub copy-keeps :
      (s : I.State) (src repo tag r t : String)
      → (I.holds (I.copy s src repo tag).1 r t ≡ I.holds s r t) ⊎ ((repo ≡ r) × (tag ≡ t))

-- An import: `parses` is whether the target and the source are well-formed references.
pub record Import : Type 0 where
  pub src : String
  pub target_name : String
  pub target_tag : String
  pub target_parses : Bool
  pub src_parses : Bool

-- How an import ends; the errors that are neither of the named ones are one.
pub data Imported : Type 0 where
  imported reserved tag_exists failed : Imported

abbrev pub internal_import_prefix : String
internal_import_prefix = "registry:6000/daytona/"

-- Whether a part behind a slash begins with "daytona-".
unfoldable pub has_daytona_part : String → Bool
has_daytona_part String.[] = false
has_daytona_part (String.◌∷◌ c s) =
    (String.◌∷◌ c String.[] == "/" && starts_with s "daytona-") || has_daytona_part s

-- `reservedTarget`
unfoldable pub reserved_target : (target_name target_tag : String) → Bool
reserved_target target_name target_tag =
    starts_with target_tag "d-"
    || starts_with target_name "daytona-"
    || has_daytona_part target_name

-- For a tag that exists: whether it already holds the source.
unfoldable pub same_source : String → Option String → Imported
same_source held none = failed
same_source held (some d) = if d == held then imported else tag_exists

module _ (I : Importer) where
  -- What follows the HEAD.
  unfoldable pub copy_checked : Head → Import → I.State → Imported × I.State
  copy_checked (present d) c s = (same_source d (I.source_digest s c.src), s)
  copy_checked missing c s =
      let (done, s') = I.copy s c.src (internal_import_prefix ++ c.target_name) c.target_tag in
      (if done then imported else failed, s')
  copy_checked unreadable c s = (failed, s)

  -- `Copy`, which is `copyTo` with the prefix.
  unfoldable pub copy_to : Import → I.State → Imported × I.State
  copy_to c s =
      if c.target_tag == "latest" || not c.target_parses
      then (failed, s)
      else if reserved_target c.target_name c.target_tag
      then (reserved, s)
      else if not c.src_parses
      then (failed, s)
      else copy_checked (I.head s (internal_import_prefix ++ c.target_name) c.target_tag) c s

  -- The registry after some imports, the first of them first.
  unfoldable pub copy_all : List Import → I.State → I.State
  copy_all [] s = s
  copy_all (c ∷ cs) s = copy_all cs (copy_to c s).1
