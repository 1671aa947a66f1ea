-- ===== src/Proxy/Owner/Inject.antt =====
-- What `InjectOwner` forwards.
use Prim.Native.String.{String, ◌++◌}
use package.text.Mathlib.Text.{◌==◌}
use g_sandbox.Base.{
  ◌≡◌, ◌⊎◌, Bool, true, false, ◌&&◌, ◌||◌, Option, none, some, List, [], ◌∷◌, is_some,
  if◌then◌else◌,
}
use g_sandbox.Proxy.Text.{Folding, equal_fold}
use g_sandbox.Proxy.Json.{
  Json, null, boolean, number, natural, negative, string, array, item, no_items, object, Fields,
  find, drop_where, put_field,
}
use g_sandbox.Proxy.Owner.{
  as_string, as_map, inject_labels, public_ports, agent_port_only, expose, is_exposure, is_interval,
  inject_fields,
}

abbrev pub bare_of : Folding → Fields → Fields
bare_of fold m =
    drop_where (λ k. equal_fold fold k "volumes") (drop_where (λ k. equal_fold fold k "sealed") m)

abbrev pub is_managed : Folding → String → Bool
is_managed fold k =
    equal_fold fold k "sealed"
    || equal_fold fold k "volumes"
    || is_exposure fold k
    || is_interval fold k

-- The managed fields that the code writes itself, in this spelling.
abbrev pub written_names : List String
written_names =
    "public" ∷ "publicPorts" ∷ "autoStopInterval" ∷ "autoArchiveInterval" ∷ "autoDeleteInterval"
    ∷ []

-- What the code puts under each name.
unfoldable field_of : Folding → String → Bool → Fields → String → Option Json
field_of fold wallet sealed m k =
    let ports = public_ports (find "publicPorts" m) in
    if "autoStopInterval" == k
    then some (number (natural 0))
    else if "autoArchiveInterval" == k
    then some (number (natural 60))
    else if "autoDeleteInterval" == k
    then some (number (negative 0))
    else if "public" == k
    then some (boolean (is_some ports || sealed))
    else if "publicPorts" == k
    then elim ports as (λ _. Option Json) [
      | some v ↦ some v
      | none ↦ if sealed then some agent_port_only else none
    ]
    else if "labels" == k
    then some (object (inject_labels wallet sealed (bare_of fold m) (as_map (find "labels" m))))
    else if is_managed fold k
    then none
    else find k m

module _ (fold : Folding) (wallet : String) (sealed : Bool) (m : Fields) where
  abbrev labelled : Fields
  labelled =
      put_field "labels"
        (object (inject_labels wallet sealed (bare_of fold m) (as_map (find "labels" m))))
        (bare_of fold m)

  abbrev exposed : Fields
  exposed =
      expose (public_ports (find "publicPorts" labelled)) sealed
        (drop_where (is_exposure fold) labelled)

  abbrev out : Fields
  out = inject_fields fold wallet sealed m

  abbrev labels_out : Fields
  labels_out = inject_labels wallet sealed (bare_of fold m) (as_map (find "labels" m))

  Injected : String → Type 0
  Injected k = find k out ≡ field_of fold wallet sealed m k

-- A text, unless it is empty.
abbrev pub text_of : Option Json → Option String
text_of (some (string t)) = if t == "" then none else some t
text_of _ = none

-- What the caller sent as a label.
abbrev pub sent_label : Option Json → String → Option Json
sent_label (some (object labels)) j = find j labels
sent_label _ j = none

-- The source that the image label names: of an image, or of a snapshot.
abbrev pub source_of : Option String → Option String → Option Json
source_of (some image) snapshot = some (string image)
source_of none (some snapshot) = some (string ("snapshot:" ++ snapshot))
source_of none none = none

-- What Daytona gets as a label: the name of the source if the caller names one, the mark of a sealed
-- create, the wallet as the owner, and what the caller sent as any other.
unfoldable pub label_of : String → Bool → Fields → String → Option Json
label_of wallet sealed m j =
    let plain =
      if sealed && "0g-sealed" == j
      then some (string "true")
      else if "daytona-owner" == j
      then some (string wallet)
      else sent_label (find "labels" m) j in
    if "0g-image" == j
    then elim (source_of (text_of (find "image" m)) (text_of (find "snapshot" m))) [
      | some source ↦ some source
      | none ↦ plain
    ]
    else plain

-- What the caller asks to open; null is as good as nothing.
abbrev pub asked_ports : Option Json → Option Json
asked_ports (some null) = none
asked_ports asked = asked

-- The fields that are the proxy's, whatever their case.
abbrev pub managed_names : List String
managed_names =
    "sealed" ∷ "volumes" ∷ "public" ∷ "publicPorts" ∷ "autoStopInterval" ∷ "autoArchiveInterval"
    ∷ "autoDeleteInterval" ∷ []

abbrev pub folds_into : Folding → String → List String → Bool
folds_into fold k [] = false
folds_into fold k (n ∷ ns) = equal_fold fold k n || folds_into fold k ns

-- What Daytona gets under each name: the fixed intervals; public, if the caller asks for ports or the
-- create is sealed; the ports that the caller asks for, or 8080 of a sealed create; the labels;
-- nothing under another spelling of a managed name; and what the caller sent under the rest.
unfoldable pub forwarded : Folding → Bool → Fields → Fields → String → Option Json
forwarded fold sealed m labels k =
    if "autoStopInterval" == k
    then some (number (natural 0))
    else if "autoArchiveInterval" == k
    then some (number (natural 60))
    else if "autoDeleteInterval" == k
    then some (number (negative 0))
    else if "public" == k
    then some (boolean (is_some (asked_ports (find "publicPorts" m)) || sealed))
    else if "publicPorts" == k
    then elim (asked_ports (find "publicPorts" m)) as (λ _. Option Json) [
      | some v ↦ some v
      | none ↦ if sealed then some (array (item (number (natural 8080)) no_items)) else none
    ]
    else if "labels" == k
    then some (object labels)
    else if folds_into fold k managed_names
    then none
    else find k m

-- A field is an empty text or none, or the text that it is.
IsText : Option Json → Type 0
IsText v =
    (((as_string v == "") ≡ true) × (text_of v ≡ none))
    ⊎ (((as_string v == "") ≡ false) × (text_of v ≡ some (as_string v)))
