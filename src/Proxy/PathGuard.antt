-- ===== src/Proxy/PathGuard.antt =====
-- `PathTraversalGuard` of internal/proxy/pathguard.go, with `path.Clean` on paths that begin with a
-- slash, as those of requests do. Texts are lists of bytes.
pub mod Segments
pub mod Escapes
pub mod Canonical
use g_sandbox.Base.{
  ℕ, ◌+◌, Bool, true, false, ◌&&◌, ◌||◌, not, Option, none, some, List, [], ◌∷◌, ◌++◌, map, ◌==◌,
  leb, mem, same_bytes, if◌then◌else◌,
}

abbrev pub Bytes : Type 0
Bytes = List ℕ

abbrev pub slash : ℕ
slash = 47

abbrev pub dot : Bytes
dot = 46 ∷ []

abbrev pub dot_dot : Bytes
dot_dot = 46 ∷ 46 ∷ []

abbrev pub grow_head : ℕ → List Bytes → List Bytes
grow_head c [] = (c ∷ []) ∷ []
grow_head c (s ∷ ss) = (c ∷ s) ∷ ss

-- What stands between the slashes, one text at least.
unfoldable pub split : Bytes → List Bytes
split [] = [] ∷ []
split (c ∷ cs) = let rest = split cs in if c == slash then [] ∷ rest else grow_head c rest

-- The texts with a slash between each two.
unfoldable pub join : List Bytes → Bytes
join [] = []
join (s ∷ []) = s
join (s ∷ t ∷ ss) = s ++ slash ∷ join (t ∷ ss)

abbrev pub is_skipped : Bytes → Bool
is_skipped s = same_bytes s [] || same_bytes s dot

abbrev pub pop : List Bytes → List Bytes
pop [] = []
pop (s ∷ ss) = ss

-- One segment on the stack of `path.Clean`, the last first; ".." at the root is dropped.
unfoldable pub push : Bytes → List Bytes → List Bytes
push s out = if is_skipped s then out else if same_bytes s dot_dot then pop out else s ∷ out

unfoldable pub clean_loop : List Bytes → List Bytes → List Bytes
clean_loop [] out = out
clean_loop (s ∷ ss) out = clean_loop ss (push s out)

unfoldable pub unstack : List Bytes → List Bytes → List Bytes
unstack [] done = done
unstack (s ∷ ss) done = unstack ss (s ∷ done)

-- `path.Clean` of a slash and `q`, without that slash.
unfoldable pub clean : Bytes → Bytes
clean q = join (unstack (clean_loop (split q) []) [])

-- `strings.HasSuffix(p, "/")`
unfoldable pub ends_in_slash : Bytes → Bool
ends_in_slash [] = false
ends_in_slash (c ∷ []) = c == slash
ends_in_slash (c ∷ d ∷ cs) = ends_in_slash (d ∷ cs)

-- A slash and `q`, as it is compared with: a slash at the end is put back.
unfoldable pub canonical_of : Bytes → Bytes
canonical_of q =
    if not (same_bytes q []) && ends_in_slash (slash ∷ q) && not (ends_in_slash (slash ∷ clean q))
    then clean q ++ slash ∷ []
    else clean q

-- `strings.ToLower`, of ASCII.
abbrev pub lower : ℕ → ℕ
lower c = if leb 65 c && leb c 90 then c + 32 else c

unfoldable pub starts : Bytes → Bytes → Bool
starts [] s = true
starts (a ∷ pre) [] = false
starts (a ∷ pre) (b ∷ s) = a == b && starts pre s

-- `strings.Contains`
unfoldable pub has_part : Bytes → Bytes → Bool
has_part part [] = starts part []
has_part part (c ∷ s) = starts part (c ∷ s) || has_part part s

unfoldable pub has_any : List Bytes → Bytes → Bool
has_any [] s = false
has_any (part ∷ parts) s = has_part part s || has_any parts s

-- "%2e", "%2f", "%5c" and "%25"
abbrev pub escapes : List Bytes
escapes =
    (37 ∷ 50 ∷ 101 ∷ []) ∷ (37 ∷ 50 ∷ 102 ∷ []) ∷ (37 ∷ 53 ∷ 99 ∷ []) ∷ (37 ∷ 50 ∷ 53 ∷ []) ∷ []

abbrev pub backslash : ℕ
backslash = 92

-- Whether `PathTraversalGuard` passes a request on: its decoded path, a slash and `q`, and the escaped
-- one.
unfoldable pub passes : Bytes → Bytes → Bool
passes q escaped =
    same_bytes (canonical_of q) q
    && not (mem backslash (slash ∷ q))
    && not (has_any escapes (map lower escaped))
