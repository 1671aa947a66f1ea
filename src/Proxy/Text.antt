-- ===== src/Proxy/Text.antt =====
-- What the API does with texts: strings.EqualFold and foldName, strings.TrimSpace, strings.Contains of
-- a dot, and lists of names.
use Prim.Native.Char.{code}
use Prim.Native.String.{String}
use package.text.Mathlib.Text.{◌==◌}
use g_sandbox.Base.{ℕ, Bool, true, false, ◌||◌, ◌&&◌, List, [], ◌∷◌, leb, mem}

-- `foldName`: the smallest letter of each case-folding orbit, by the Unicode tables.
abbrev pub Folding : Type 0
Folding = String → String

-- `strings.EqualFold`, by the folded names as the comment of `foldName` has it.
abbrev pub equal_fold : Folding → String → String → Bool
equal_fold fold a b = fold a == fold b

-- `slices.ContainsFunc` with EqualFold.
unfoldable pub contains_fold : Folding → String → List String → Bool
contains_fold fold k [] = false
contains_fold fold k (f ∷ fs) = equal_fold fold k f || contains_fold fold k fs

abbrev pub contains : String → List String → Bool
contains k [] = false
contains k (f ∷ fs) = f == k || contains k fs

-- `unicode.IsSpace`
abbrev pub is_space : ℕ → Bool
is_space c =
    (leb 9 c && leb c 13)
    || (leb 8192 c && leb c 8202)
    || mem c (32 ∷ 133 ∷ 160 ∷ 5760 ∷ 8232 ∷ 8233 ∷ 8239 ∷ 8287 ∷ 12288 ∷ [])

-- `strings.TrimSpace(s) == ""`
abbrev pub is_blank : String → Bool
is_blank String.[] = true
is_blank (String.◌∷◌ c s) = is_space (code c) && is_blank s

-- `strings.Contains(s, ".")`
abbrev pub has_dot : String → Bool
has_dot String.[] = false
has_dot (String.◌∷◌ c s) = mem (code c) (46 ∷ []) || has_dot s
