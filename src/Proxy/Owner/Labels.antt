-- ===== src/Proxy/Owner/Labels.antt =====
-- What `MergeProtectedLabels` forwards.
use Prim.Native.String.{String}
use package.text.Mathlib.Text.{◌==◌}
use package.text.Mathlib.TextEquality.{eq_iff}
use package.text.Mathlib.TextPositions.{eq_refl}
use g_sandbox.Base.{
  ◌≡◌, refl, ◌∙◌, ap, subst, inl, inr, Bool-cases, Option, none, some, if◌then◌else◌, arith,
}
use g_sandbox.Proxy.Text.{Folding}
use g_sandbox.Proxy.Json.{Json, string, object, Fields, find, drop_where}
use g_sandbox.Proxy.Json.Find.{find-drop_where, find-put_field}
use g_sandbox.Proxy.Owner.{owner_label, sealed_label, as_map, is_protected, restore, merge_fields}
use g_sandbox.Proxy.Owner.Names.{NamesApart}

abbrev pub as_label : Option String → Option Json
as_label none = none
as_label (some v) = some (string v)

-- The labels that Daytona will store: for the two protected ones those of the sandbox, under no other
-- spelling of them any, and under the rest what the caller sent.
unfoldable pub stored : Folding → (String → Option String) → Fields → String → Option Json
stored fold current sent k =
    if sealed_label == k
    then as_label (current sealed_label)
    else if owner_label == k
    then as_label (current owner_label)
    else if is_protected fold k
    then none
    else find k sent

find-restore :
    (k key : String) (v : Option String) (labels : Fields)
    → find key labels ≡ none
    → find k (restore key v labels) ≡ (if key == k then as_label v else find k labels)
unfolding restore
find-restore k key (some v) labels gone = find-put_field k key (string v) labels
find-restore k key none labels gone = elim (Bool-cases (key == k)) [
  | inl e ↦ rw e (subst (λ i. find i labels ≡ none) ((eq_iff key k).0 e) gone)
  | inr e ↦ rw e refl
]

module _ (fold : Folding) (current : String → Option String) (sent : Fields) where
  abbrev others : Fields
  others = drop_where (is_protected fold) sent

  abbrev owned : Fields
  owned = restore owner_label (current owner_label) others

  find-owned :
      (k : String)
      → find k owned ≡ (
          if owner_label == k
          then as_label (current owner_label)
          else if is_protected fold k
          then none
          else find k sent)
  find-owned k =
      let gone : find owner_label others ≡ none = simp (find-drop_where, eq_refl) in
      find-restore k owner_label (current owner_label) others gone ∙ simp find-drop_where

  find-sealed :
      (k : String)
      → find k (restore sealed_label (current sealed_label) owned) ≡ stored fold current sent k
  unfolding stored
  find-sealed k =
      let gone : find sealed_label owned ≡ none =
        find-owned sealed_label ∙ ground (arith, eq_refl (fold sealed_label)) in
      find-restore k sealed_label (current sealed_label) owned gone ∙ rw (find-owned k) refl

-- If folding tells the names of the code apart: whatever the caller sends, under the exact name
-- "labels" Daytona gets labels that are as `stored` says.
pub merge-stored :
    (fold : Folding) (current : String → Option String) (m : Fields) (k : String)
    → NamesApart fold
    → (labels : Fields) × (find "labels" (merge_fields fold current m) ≡ some (object labels))
      × (find k labels ≡ stored fold current (as_map (find "labels" m)) k)
unfolding merge_fields stored
merge-stored fold current m k apart =
    let owner = apart "labels" "daytona-owner" refl refl refl in
    let mark = apart "labels" "0g-sealed" refl refl refl in
    let top = drop_where (is_protected fold) m in
    let same : find "labels" top ≡ find "labels" m = simp (find-drop_where, owner, mark) in
    let labels =
      restore sealed_label (current sealed_label)
        (owned fold current (as_map (find "labels" top))) in
    (
      labels,
      find-put_field "labels" "labels" (object labels) top,
      find-sealed fold current (as_map (find "labels" top)) k
          ∙ ap (λ x. stored fold current (as_map x) k) same,
    )
