-- ===== src/Registry/Tags.antt =====
-- What `DeleteTag` takes out of the registry.
use Prim.Native.String.{String}
use package.text.Mathlib.Text.{◌==◌}
use package.text.Mathlib.TextEquality.{eq_iff}
use g_sandbox.Base.{
  ◌⊎◌, ◌&&◌, ◌≡◌, refl, sym, ◌∙◌, ◌≢◌, inl, inr, true, Option, none, some, List, [], ◌∷◌,
  Bool-cases, Option-cases, arith,
}
use g_sandbox.Proxy.Text.{contains}
use g_sandbox.Registry.{
  Reference, tagged, pinned, unparsed, Crane, IsLawful, Deletion, deleted, shares_manifest, failed,
  Siblings, apart, shared, unknown, probe_siblings, delete_apart, delete_tag,
}

abbrev pub Names : Reference → (repo tag : String) → Type 0
Names (tagged repo tag) r t = (repo ≡ r) × (tag ≡ t)
Names _ r t = ⊥

pub Names-cases : (ref : Reference) (r t : String) → Names ref r t ⊎ (Names ref r t → ⊥)
Names-cases (tagged repo tag) r t = elim (Bool-cases (repo == r && tag == t)) [
  | inl e ↦ inl (ground (arith, eq_iff repo r), ground (arith, eq_iff tag t))
  | inr e ↦ inr (λ (a, b). ground (arith, eq_iff repo r, eq_iff tag t))
]
Names-cases (pinned repo d) r t = inr (λ n. n)
Names-cases unparsed r t = inr (λ n. n)

module _ (C : Crane) (L : IsLawful C) where
  -- If the search finds no sibling, no other tag points at the manifest.
  probe_siblings-apart :
      (s : C.State) (repo tag target t : String) (ts : List String)
      → probe_siblings C s repo tag target ts ≡ apart
      → contains t ts ≡ true
      → t ≢ tag
      → C.holds s repo t ≢ some target
  unfolding probe_siblings
  probe_siblings-apart s repo tag target t [] h m n = cc
  probe_siblings-apart s repo tag target t (u ∷ ts) h m n =
      let rest = probe_siblings-apart s repo tag target t ts in
      elim (Bool-cases (u == tag)) [
        | inl own ↦ ground (arith, rest, eq_iff u tag, eq_iff u t)
        | inr other ↦ elim (Option-cases (C.digest s repo u)) [
          | inl e ↦ ground arith
          | inr (d, e) ↦
              ground (arith, rest, eq_iff u t, eq_iff d target, L.digest-holds s repo u d e)
        ]
      ]

  -- A search that ends at a shared manifest has a sibling.
  probe_siblings-shared :
      (s : C.State) (repo tag target : String) (ts : List String)
      → probe_siblings C s repo tag target ts ≡ shared
      → (t : String) × (t ≢ tag) × (C.holds s repo t ≡ some target)
  unfolding probe_siblings
  probe_siblings-shared s repo tag target [] h = absurd (ground arith)
  probe_siblings-shared s repo tag target (u ∷ ts) h =
      let rest = probe_siblings-shared s repo tag target ts in
      elim (Bool-cases (u == tag)) [
        | inl own ↦ rest (ground arith)
        | inr other ↦ elim (Option-cases (C.digest s repo u)) [
          | inl e ↦ absurd (ground arith)
          | inr (d, e) ↦ elim (Bool-cases (d == target)) [
            | inl same ↦ (
              u,
              ground (arith, eq_iff u tag),
              ground (arith, eq_iff d target, L.digest-holds s repo u d e),
            )
            | inr differs ↦ rest (ground arith)
          ]
        ]
      ]

  -- What a deletion does to the registry: no tag but the named one changes; that one is gone if the
  -- deletion says so, none appears; and if it says that the manifest is shared, another tag of the repository points
  -- at it, and nothing has changed.
  pub record Untags (ref : Reference) (s : C.State) (out : Deletion × C.State) : Type 0 where
    pub others : (r t : String) → (Names ref r t → ⊥) → C.holds out.1 r t ≡ C.holds s r t
    pub stays : (r t : String) → C.holds s r t ≡ none → C.holds out.1 r t ≡ none
    pub gone : (r t : String) → out.0 ≡ deleted → Names ref r t → C.holds out.1 r t ≡ none
    pub shares :
        (r t : String)
        → out.0 ≡ shares_manifest
        → Names ref r t
        → (out.1 ≡ s) × ((u : String) × (u ≢ t) × (C.holds s r u ≡ C.holds s r t))

  Untags-failed : (ref : Reference) (s : C.State) → Untags ref s (failed, s)
  Untags-failed ref s = record {
    others = λ r t n. refl;
    stays = λ r t e. e;
    gone = λ r t e. absurd (ground arith);
    shares = λ r t e. absurd (ground arith);
  }

  -- A tag of the repository that is found points elsewhere, and one that is not found nowhere.
  holds-ne_target :
      (s : C.State) (repo tag target t : String) (tags : List String)
      → C.list_tags s repo ≡ some tags
      → probe_siblings C s repo tag target tags ≡ apart
      → t ≢ tag
      → C.holds s repo t ≢ some target
  holds-ne_target s repo tag target t tags listed h n = elim (Bool-cases (contains t tags)) [
    | inl found ↦ probe_siblings-apart s repo tag target t tags h found n
    | inr absent ↦ λ e. cc (sym (L.list_tags-complete s repo t tags listed absent) ∙ e)
  ]

  others_keep :
      (s : C.State) (repo tag target r t : String) (tags : List String)
      → C.list_tags s repo ≡ some tags
      → probe_siblings C s repo tag target tags ≡ apart
      → ((repo ≡ r) × (tag ≡ t) → ⊥)
      → C.holds (C.delete s repo target).1 r t ≡ C.holds s r t
  others_keep s repo tag target r t tags listed h n = elim (L.delete-keeps s repo target r t) [
    | inl same ↦ same
    | inr (here, at) ↦
        absurd
          (holds-ne_target s repo tag target t tags listed h (λ e. n (here, sym e)) (ground arith))
  ]

  delete_apart-Untags :
      (s : C.State) (repo tag target : String) (tags : List String) (found : Siblings)
      → C.holds s repo tag ≡ some target
      → C.list_tags s repo ≡ some tags
      → probe_siblings C s repo tag target tags ≡ found
      → Untags (tagged repo tag) s (delete_apart C s repo target found)
  unfolding delete_apart
  delete_apart-Untags s repo tag target tags unknown at listed h = Untags-failed (tagged repo tag) s
  delete_apart-Untags s repo tag target tags shared at listed h =
      let (u, apart_from, same) = probe_siblings-shared s repo tag target tags h in
      record {
        others = λ r t n. refl;
        stays = λ r t e. e;
        gone = λ r t e. absurd (ground arith);
        shares = λ r t e n. (refl, (u, ground arith, ground arith));
      }
  delete_apart-Untags s repo tag target tags apart at listed h =
      elim (Bool-cases (C.delete s repo target).0) [
        | inl done ↦ record {
          others = λ r t n. others_keep s repo tag target r t tags listed h n;
          stays = λ r t e. ground (arith, L.delete-keeps s repo target r t);
          gone = λ r t e n. ground (arith, L.delete-takes s repo target tag done at);
          shares = λ r t e. absurd (ground arith);
        }
        | inr undone ↦ record {
          others = λ r t n. others_keep s repo tag target r t tags listed h n;
          stays = λ r t e. ground (arith, L.delete-keeps s repo target r t);
          gone = λ r t e. absurd (ground arith);
          shares = λ r t e. absurd (ground arith);
        }
      ]

  -- However the deletion of a tag ends, no other tag of any repository changes; if it succeeds the tag
  -- is gone; and if it ends because the manifest is shared, another tag of the repository points at the
  -- same manifest and nothing has changed.
  pub delete_tag-Untags : (ref : Reference) (s : C.State) → Untags ref s (delete_tag C ref s)
  unfolding delete_tag
  delete_tag-Untags unparsed s = Untags-failed unparsed s
  delete_tag-Untags (pinned repo digest) s = Untags-failed (pinned repo digest) s
  delete_tag-Untags (tagged repo tag) s = probed (C.digest s repo tag) refl
    where
      listed :
          (target : String) (o : Option (List String))
          → C.holds s repo tag ≡ some target
          → C.list_tags s repo ≡ o
          → Untags (tagged repo tag) s (elim o [
            | none ↦ (failed, s)
            | some tags ↦ delete_apart C s repo target (probe_siblings C s repo tag target tags)
          ])
      listed target none at e = Untags-failed (tagged repo tag) s
      listed target (some tags) at e = delete_apart-Untags s repo tag target tags _ at e refl

      probed :
          (o : Option String)
          → C.digest s repo tag ≡ o
          → Untags (tagged repo tag) s (elim o [
            | none ↦ (failed, s)
            | some target ↦ elim (C.list_tags s repo) [
              | none ↦ (failed, s)
              | some tags ↦ delete_apart C s repo target (probe_siblings C s repo tag target tags)
            ]
          ])
      probed none e = Untags-failed (tagged repo tag) s
      probed (some target) e =
          listed target (C.list_tags s repo) (L.digest-holds s repo tag target e) refl
