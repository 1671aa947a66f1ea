-- ===== src/Examples/Imports.antt =====
-- Imports into a registry at concrete inputs.
use Prim.Native.String.{String}
use package.text.Mathlib.Text.{◌==◌}
use package.text.Mathlib.TextEquality.{eq_iff}
use g_sandbox.Base.{
  ◌≡◌, refl, ◌⊎◌, inl, inr, true, ◌&&◌, Bool-cases, Option, none, some, List, [], ◌∷◌, arith,
  if◌then◌else◌,
}
use g_sandbox.Registry.Pull.{
  Head, present, missing, Importer, IsLawfulImporter, Import, copy_to, copy_checked, same_source,
  reserved_target, has_daytona_part, copy_all,
}
use g_sandbox.Registry.Pull.Immutable.{SomeWrites, copy_all-Fresh}

abbrev head_of : Option String → Head
head_of none = missing
head_of (some d) = present d

head_of-present : (o : Option String) (d : String) → head_of o ≡ present d → o ≡ some d
head_of-present none d h = absurd (ground arith)
head_of-present (some e) d h = ground arith

head_of-missing : (o : Option String) → head_of o ≡ missing → o ≡ none
head_of-missing none h = refl
head_of-missing (some e) h = absurd (ground arith)

-- A source is its own digest.
abbrev written :
    (String → String → Option String) → (src repo tag : String) → String → String → Option String
written s src repo tag r t = if repo == r && tag == t then some src else s r t

abbrev importer : Importer
importer = record {
  State = String → String → Option String;
  holds = λ s r t. s r t;
  head = λ s r t. head_of (s r t);
  source_digest = λ s src. some src;
  copy = λ s src repo tag. (true, written s src repo tag);
}

written-keeps :
    (s : String → String → Option String) (src repo tag r t : String)
    → (written s src repo tag r t ≡ s r t) ⊎ ((repo ≡ r) × (tag ≡ t))
written-keeps s src repo tag r t = elim (Bool-cases (repo == r && tag == t)) [
  | inl e ↦ inr (ground (arith, eq_iff repo r), ground (arith, eq_iff tag t))
  | inr e ↦ inl (rw e refl)
]

importer_IsLawful : IsLawfulImporter importer
importer_IsLawful = record {
  head-present = λ s repo tag d h. head_of-present (s repo tag) d h;
  head-missing = λ s repo tag h. head_of-missing (s repo tag) h;
  copy-keeps = written-keeps;
}

abbrev import_of : String → Import
import_of src = record {
  src = src;
  target_name = "app";
  target_tag = "1.0";
  target_parses = true;
  src_parses = true;
}

-- The second import meets the tag of the first one.
abbrev imports : List Import
imports = import_of "a" ∷ import_of "b" ∷ []

abbrev at_app : Option String
at_app = copy_all importer imports (λ r t. none) "registry:6000/daytona/app" "1.0"

first_stays : at_app ≡ some "a"
unfolding copy_all copy_to copy_checked same_source reserved_target has_daytona_part
first_stays = refl

copy_all-Fresh_example :
    (at_app ≡ none)
    ⊎ (◌≡◌ {A = Option String} none none × SomeWrites imports "registry:6000/daytona/app" "1.0")
copy_all-Fresh_example =
    copy_all-Fresh importer importer_IsLawful imports (λ r t. none) "registry:6000/daytona/app"
      "1.0"
