-- ===== src/Proxy/Owner/Names.antt =====
-- What the rewriting needs of case folding: it does not identify the field names that the code writes.
use Prim.Native.String.{String}
use package.text.Mathlib.Text.{◌==◌}
use g_sandbox.Base.{◌≡◌, true, false, List, [], ◌∷◌}
use g_sandbox.Proxy.Text.{Folding, equal_fold, contains}

abbrev pub field_names : List String
field_names =
    "labels" ∷ "sealed" ∷ "volumes" ∷ "image" ∷ "snapshot" ∷ "public" ∷ "publicPorts"
    ∷ "autoStopInterval" ∷ "autoArchiveInterval" ∷ "autoDeleteInterval" ∷ "daytona-owner"
    ∷ "0g-sealed" ∷ "0g-image" ∷ []

abbrev pub NamesApart : Folding → Type 0
NamesApart fold =
    (a b : String)
    → contains a field_names ≡ true
    → contains b field_names ≡ true
    → (a == b) ≡ false
    → equal_fold fold a b ≡ false
