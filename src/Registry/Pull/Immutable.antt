-- ===== src/Registry/Pull/Immutable.antt =====
-- What imports do to the tags of the internal registry.
use Prim.Native.String.{String, ◌++◌}
use package.text.Mathlib.Text.{◌==◌}
use package.text.Mathlib.TextPositions.{eq_refl}
use g_sandbox.Base.{
  ◌≡◌, refl, sym, ap, ◌∙◌, ◌≢◌, ◌⊎◌, inl, inr, false, ◌||◌, not, none, List, [], ◌∷◌, Bool-cases,
  arith,
}
use g_sandbox.Registry.Pull.{
  Head, present, missing, unreadable, Importer, IsLawfulImporter, Import, internal_import_prefix,
  reserved_target, copy_checked, copy_to, copy_all,
}

-- The import writes to this tag, which is neither reserved nor "latest".
pub record Writes (c : Import) (repo tag : String) : Type 0 where
  pub in_repo : internal_import_prefix ++ c.target_name ≡ repo
  pub at_tag : c.target_tag ≡ tag
  pub not_latest : tag ≢ "latest"
  pub not_reserved : reserved_target c.target_name tag ≡ false

-- One of the imports does.
abbrev pub SomeWrites : List Import → (repo tag : String) → Type 0
SomeWrites [] repo tag = ⊥
SomeWrites (c ∷ cs) repo tag = Writes c repo tag ⊎ SomeWrites cs repo tag

module _ (I : Importer) (L : IsLawfulImporter I) where
  copy_checked-Fresh :
      (h : Head) (c : Import) (s : I.State) (repo tag : String)
      → I.head s (internal_import_prefix ++ c.target_name) c.target_tag ≡ h
      → (I.holds (copy_checked I h c s).1 repo tag ≡ I.holds s repo tag)
        ⊎ ((I.holds s repo tag ≡ none)
            × (internal_import_prefix ++ c.target_name ≡ repo)
            × (c.target_tag ≡ tag))
  unfolding copy_checked
  copy_checked-Fresh (present d) c s repo tag e = inl refl
  copy_checked-Fresh unreadable c s repo tag e = inl refl
  copy_checked-Fresh missing c s repo tag e =
      elim (L.copy-keeps s c.src (internal_import_prefix ++ c.target_name) c.target_tag repo tag) [
        | inl same ↦ inl same
        | inr (p, q) ↦ inr (rw (p, q) at (L.head-missing s _ _ e), p, q)
      ]

  copy_to-Fresh :
      (c : Import) (s : I.State) (repo tag : String)
      → (I.holds (copy_to I c s).1 repo tag ≡ I.holds s repo tag)
        ⊎ ((I.holds s repo tag ≡ none) × Writes c repo tag)
  unfolding copy_to
  copy_to-Fresh c s repo tag = elim (Bool-cases (c.target_tag == "latest" || not c.target_parses)) [
    | inl bad ↦ inl (rw bad refl)
    | inr good ↦ elim (Bool-cases (reserved_target c.target_name c.target_tag)) [
      | inl owned ↦ inl (rw (good, owned) refl)
      | inr ours ↦ elim (Bool-cases c.src_parses) [
        | inr e ↦ inl (rw (good, ours, e) refl)
        | inl e ↦
            let before : Head = I.head s (internal_import_prefix ++ c.target_name) c.target_tag in
            let q : copy_to I c s ≡ copy_checked I before c s = simp (good, ours, e) in
            elim (copy_checked-Fresh before c s repo tag refl) [
              | inl same ↦ inl (ap (λ p. I.holds p.1 repo tag) q ∙ same)
              | inr (free, at_repo, at_tag) ↦ inr (
                free,
                record {
                  in_repo = at_repo;
                  at_tag = at_tag;
                  not_latest = λ l. ground (arith, eq_refl "latest", rw (at_tag ∙ l) at good);
                  not_reserved = rw at_tag at ours;
                },
              )
            ]
      ]
    ]
  ]

  -- After any imports, however they end, each tag of the registry is as it was, or it pointed at nothing
  -- and one of the imports writes to it, which is neither "latest" nor reserved for Daytona and the
  -- snapshots. So no import points an existing tag at another image.
  pub copy_all-Fresh :
      (cs : List Import) (s : I.State) (repo tag : String)
      → (I.holds (copy_all I cs s) repo tag ≡ I.holds s repo tag)
        ⊎ ((I.holds s repo tag ≡ none) × SomeWrites cs repo tag)
  unfolding copy_all
  copy_all-Fresh [] s repo tag = inl refl
  copy_all-Fresh (c ∷ cs) s repo tag = elim (copy_to-Fresh c s repo tag) [
    | inr (free, w) ↦ inr (free, inl w)
    | inl same ↦ elim (copy_all-Fresh cs (copy_to I c s).1 repo tag) [
      | inl rest ↦ inl (rest ∙ same)
      | inr (free, w) ↦ inr (sym same ∙ free, inr w)
    ]
  ]
