-- ===== src/Indexer/Rounds.antt =====
-- What a round of the indexer makes of the index.
use Prim.Native.String.{String}
use package.text.Mathlib.Text.{◌==◌ as str_eq}
use g_sandbox.Base.{
  ℕ, zero, suc, ◌+◌, ◌/◌, ◌≡◌, refl, sym, ap, subst, ◌∙◌, ◌⊎◌, inl, inr, ==_iff, Bool, true, false,
  ◌&&◌, not, Option, none, some, List, [], ◌∷◌, ◌==◌, ltb, Bool-cases, Option-cases, if◌then◌else◌,
  arith,
}
use g_sandbox.Base.Assoc.{
  lookup, insert, lookup-insert, lookup-erase, Distinct, insert-Distinct, erase-Distinct,
}
use g_sandbox.Voucher.{Address}
use g_sandbox.Indexer.{
  ServiceInfo, ProviderRecord, Records, ProviderEvent, Index, Round, is_live, remove_provider,
  revalidate_each, revalidate, latest_of, record_of, keep_provider, refresh, refresh_each,
  save_last_block, last_block, sync, round, get,
}

-- The highest block of a provider's events.
unfoldable pub newest : Address → List ProviderEvent → Option ℕ
newest p [] = none
newest p ((k, block) ∷ evs) =
    let rest = newest p evs in
    if k == p
    then some (elim rest [ none ↦ block | some later ↦ if ltb block later then later else block ])
    else rest

abbrev later_of : Option ℕ → Option ℕ → Option ℕ
later_of none o = o
later_of (some a) none = some a
later_of (some a) (some b) = some (if ltb a b then b else a)

lookup-latest_of :
    (p : Address) (evs : List ProviderEvent) (acc : List (Address × ℕ))
    → lookup p (latest_of evs acc) ≡ later_of (lookup p acc) (newest p evs)
unfolding latest_of newest
lookup-latest_of p [] acc = ground arith
lookup-latest_of p ((k, block) ∷ evs) acc = elim (Option-cases (lookup k acc)) [
  | inl e ↦
      rw e
        (lookup-latest_of p evs (insert k block acc) ∙ ground (arith, lookup-insert k p block acc))
  | inr (prev, e) ↦ rw e (elim (Bool-cases (ltb prev block)) [
    | inl newer ↦
        rw newer (
          lookup-latest_of p evs (insert k block acc) ∙ ground (arith, lookup-insert k p block acc))
    | inr older ↦ rw older (lookup-latest_of p evs acc ∙ ground arith)
  ])
]

latest_of-Distinct :
    (evs : List ProviderEvent) (acc : List (Address × ℕ))
    → Distinct acc
    → Distinct (latest_of evs acc)
unfolding latest_of
latest_of-Distinct [] acc d = d
latest_of-Distinct ((k, block) ∷ evs) acc d =
    latest_of-Distinct evs _
      (go (Bool-cases (elim (lookup k acc) [ none ↦ true | some prev ↦ ltb prev block ])))
  where
    b : Bool
    b = elim (lookup k acc) [ none ↦ true | some prev ↦ ltb prev block ]

    go : (b ≡ true) ⊎ (b ≡ false) → Distinct (if b then insert k block acc else acc)
    go (inl e) = rw e (insert-Distinct k block acc d)
    go (inr e) = rw e d

-- Whether a key counts: the service names an app, and the chain does not say that the key is inactive.
abbrev pub counts : Option Bool → String → Bool
counts (some false) app_id = false
counts _ app_id = not (str_eq app_id "")

counts_lem :
    (is_active : Address → Option Bool) (app_id : String) (p : Address)
    → is_live is_active app_id p ≡ counts (is_active p) app_id
unfolding is_live
counts_lem is_active app_id p = go (is_active p)
  where
    go :
        (o : Option Bool)
        → (if str_eq app_id "" then false else elim o [ none ↦ true | some live ↦ live ])
          ≡ counts o app_id
    go none = ground arith
    go (some true) = ground arith
    go (some false) = ground arith

-- What a provider with an event has in the store afterwards, by what is answered about it.
unfoldable pub refreshed_by :
    Round → Address → ℕ → Option ServiceInfo → Option ProviderRecord → Option ProviderRecord
refreshed_by r p block none old = old
refreshed_by r p block (some info) old =
    if counts (r.is_active p) info.app_id
    then some (record {
      address = p;
      url = info.url;
      app_id = info.app_id;
      price_per_cpu_per_min = info.price_per_cpu_per_min;
      price_per_cpu_per_sec = info.price_per_cpu_per_min / 60;
      price_per_mem_gb_per_min = info.price_per_mem_gb_per_min;
      price_per_mem_gb_per_sec = info.price_per_mem_gb_per_min / 60;
      create_fee = info.create_fee;
      last_block = block;
    })
    else none

-- And what any provider has, with its latest event, if there is one.
unfoldable pub refreshed :
    Round → Address → Option ℕ → Option ProviderRecord → Option ProviderRecord
refreshed r p none old = old
refreshed r p (some block) old = refreshed_by r p block (r.service_info p) old

refresh-store :
    (r : Round) (k : Address) (block : ℕ) (o : Option ServiceInfo) (p : Address) (x : Index)
    → lookup p (refresh r k block o x).store
      ≡ (if k == p then refreshed_by r k block o (lookup p x.store) else lookup p x.store)
unfolding refresh refreshed_by keep_provider remove_provider record_of
refresh-store r k block none p x = ground arith
refresh-store r k block (some info) p x =
    let same = counts_lem r.is_active info.app_id k in
    elim (Bool-cases (is_live r.is_active info.app_id k)) [
      | inl up ↦
          let counted : counts (r.is_active k) info.app_id ≡ true = sym same ∙ up in
          simp (up, counted) (lookup-insert k p _ x.store)
      | inr gone ↦
          let dropped : counts (r.is_active k) info.app_id ≡ false = sym same ∙ gone in
          simp (gone, dropped) (lookup-erase k p x.store)
    ]

refresh_each-store :
    (r : Round) (ks : List (Address × ℕ)) (p : Address) (x : Index)
    → Distinct ks
    → lookup p (refresh_each r ks x).store ≡ refreshed r p (lookup p ks) (lookup p x.store)
unfolding refresh_each refreshed lookup
refresh_each-store r [] p x d = refl
refresh_each-store r ((k, block) ∷ ks) p x d =
    refresh_each-store r ks p (refresh r k block (r.service_info k) x) d.1
    ∙ elim (Bool-cases (k == p)) [
      | inl e ↦
          let same : k ≡ p = (==_iff k p).0 e in
          let only : lookup p ks ≡ none = subst (λ i. lookup i ks ≡ none) same d.0 in
          rw (only, e) (refresh-store r k block (r.service_info k) p x ∙ rw (e, same) refl)
      | inr e ↦
          let other : lookup p (refresh r k block (r.service_info k) x).store ≡ lookup p x.store =
            refresh-store r k block (r.service_info k) p x ∙ rw e refl in
          rw (other, e) refl
    ]

-- A record stays while the chain counts its provider as active, or does not answer.
unfoldable pub checked : Round → Address → Option ProviderRecord → Option ProviderRecord
checked r p none = none
checked r p (some q) = if counts (r.is_active_again p) q.app_id then some q else none

-- What is left of a record, with what the list at the start says of its provider.
abbrev survivor :
    Round → Address → Option ProviderRecord → Option ProviderRecord → Option ProviderRecord
survivor r p none old = old
survivor r p (some q) old = if is_live r.is_active_again q.app_id p then old else none

revalidate_each-store :
    (r : Round) (ps : Records) (p : Address) (x : Index)
    → Distinct ps
    → lookup p (revalidate_each r ps x).store ≡ survivor r p (lookup p ps) (lookup p x.store)
unfolding revalidate_each lookup
revalidate_each-store r [] p x d = refl
revalidate_each-store r ((k, q) ∷ ps) p x d =
    elim (Bool-cases (is_live r.is_active_again q.app_id k)) [
      | inl up ↦
          ap (λ b. lookup p (revalidate_each r ps (if b then x else remove_provider r k x)).store)
            up
          ∙ (revalidate_each-store r ps p x d.1 ∙ elim (Bool-cases (k == p)) [
            | inl e ↦
                let same : k ≡ p = (==_iff k p).0 e in
                let only : lookup p ps ≡ none = subst (λ i. lookup i ps ≡ none) same d.0 in
                rw (only, e, ← same, up) refl
            | inr e ↦ rw e refl
          ])
      | inr gone ↦
          ap (λ b. lookup p (revalidate_each r ps (if b then x else remove_provider r k x)).store)
            gone
          ∙ (revalidate_each-store r ps p (remove_provider r k x) d.1
              ∙ unfold remove_provider in
                (elim (Bool-cases (k == p)) [
                  | inl e ↦
                      let same : k ≡ p = (==_iff k p).0 e in
                      let only : lookup p ps ≡ none = subst (λ i. lookup i ps ≡ none) same d.0 in
                      rw (only, lookup-erase k p x.store, e, ← same, gone) refl
                  | inr e ↦ rw (lookup-erase k p x.store, e) refl
                ]))
    ]

save_last_block-store :
    (r : Round) (latest : ℕ) (x : Index) → (save_last_block r latest x).store ≡ x.store
unfolding save_last_block
save_last_block-store r zero x = refl
save_last_block-store r (suc n) x = ground arith

-- The other facts about the loops: no provider stands twice, and the last block is left.
revalidate_each-Distinct :
    (r : Round) (ps : Records) (x : Index)
    → Distinct x.store
    → Distinct (revalidate_each r ps x).store
unfolding revalidate_each remove_provider
revalidate_each-Distinct r [] x d = d
revalidate_each-Distinct r ((k, q) ∷ ps) x d =
    revalidate_each-Distinct r ps
      (if is_live r.is_active_again q.app_id k then x else remove_provider r k x)
      (elim (Bool-cases (is_live r.is_active_again q.app_id k)) [
        | inl e ↦ rw e d
        | inr e ↦ rw e (erase-Distinct k x.store d)
      ])

refresh-Distinct :
    (r : Round) (k : Address) (block : ℕ) (o : Option ServiceInfo) (x : Index)
    → Distinct x.store
    → Distinct (refresh r k block o x).store
unfolding refresh keep_provider remove_provider
refresh-Distinct r k block none x d = d
refresh-Distinct r k block (some info) x d = elim (Bool-cases (is_live r.is_active info.app_id k)) [
  | inl e ↦ rw e (insert-Distinct k _ x.store d)
  | inr e ↦ rw e (erase-Distinct k x.store d)
]

refresh_each-Distinct :
    (r : Round) (ks : List (Address × ℕ)) (x : Index)
    → Distinct x.store
    → Distinct (refresh_each r ks x).store
unfolding refresh_each
refresh_each-Distinct r [] x d = d
refresh_each-Distinct r ((k, block) ∷ ks) x d =
    refresh_each-Distinct r ks _ (refresh-Distinct r k block (r.service_info k) x d)

revalidate_each-last_block :
    (r : Round) (ps : Records) (x : Index) → (revalidate_each r ps x).last_block ≡ x.last_block
unfolding revalidate_each
revalidate_each-last_block r [] x = refl
revalidate_each-last_block r ((k, q) ∷ ps) x =
    revalidate_each-last_block r ps
      (if is_live r.is_active_again q.app_id k then x else remove_provider r k x)
    ∙ unfold remove_provider in (ground arith)

refresh_each-last_block :
    (r : Round) (ks : List (Address × ℕ)) (x : Index)
    → (refresh_each r ks x).last_block ≡ x.last_block
unfolding refresh_each
refresh_each-last_block r [] x = refl
refresh_each-last_block r ((k, block) ∷ ks) x =
    refresh_each-last_block r ks (refresh r k block (r.service_info k) x)
    ∙ unfold refresh keep_provider remove_provider in (ground arith)

sync_lem :
    (r : Round) (x : Index) (evs : List ProviderEvent) (latest : ℕ)
    → r.events (last_block r x + 1) ≡ some (evs, latest)
    → sync r x ≡ save_last_block r latest (refresh_each r (latest_of evs []) x)
unfolding sync
sync_lem r x evs latest h = ground arith

save_last_block_lem :
    (r : Round) (latest : ℕ) (x : Index)
    → (save_last_block r latest x).last_block
      ≡ (if r.save_ok && ltb 0 latest then some latest else x.last_block)
unfolding save_last_block
save_last_block_lem r zero x = ground arith
save_last_block_lem r (suc n) x = ground arith

survivor-checked :
    (r : Round) (p : Address) (o : Option ProviderRecord) → survivor r p o o ≡ checked r p o
unfolding checked
survivor-checked r p none = refl
survivor-checked r p (some q) =
    ap (λ b. if b then some q else none) (counts_lem r.is_active_again q.app_id p)

-- A round that gets the events up to `latest`, on a store in which no provider stands twice: a provider
-- with an event is recorded as its service is now, with its latest block, dropped if its key no longer
-- counts, and left as it was if its service cannot be read; and after that none is left whose key no
-- longer counts or that has no app. The last block moves on to `latest` in each of these cases.
pub round_lem :
    (r : Round) (x : Index) (p : Address) (evs : List ProviderEvent) (latest : ℕ)
    → Distinct x.store
    → r.events (last_block r x + 1) ≡ some (evs, latest)
    → (get p (round r x) ≡ checked r p (refreshed r p (newest p evs) (get p x)))
      × Distinct (round r x).store
      × ((round r x).last_block ≡ (if r.save_ok && ltb 0 latest then some latest else x.last_block))
unfolding round revalidate get
round_lem r x p evs latest d h =
    let y = save_last_block r latest (refresh_each r (latest_of evs []) x) in
    let store : y.store ≡ (refresh_each r (latest_of evs []) x).store =
      save_last_block-store r latest (refresh_each r (latest_of evs []) x) in
    let distinct : Distinct y.store = rw store (refresh_each-Distinct r (latest_of evs []) x d) in
    let blocks : lookup p (latest_of evs []) ≡ newest p evs =
      lookup-latest_of p evs [] ∙ unfold lookup in refl in
    let found : lookup p y.store ≡ refreshed r p (newest p evs) (lookup p x.store) =
      ap (lookup p) store
      ∙ refresh_each-store r (latest_of evs []) p x (latest_of-Distinct evs [] tt)
      ∙ rw blocks refl in
    let whole : round r x ≡ revalidate r y = ap (revalidate r) (sync_lem r x evs latest h) in
    rw whole (
      revalidate_each-store r y.store p y distinct
          ∙ ap (λ o. survivor r p o o) found
          ∙ survivor-checked r p _,
      revalidate_each-Distinct r y.store y distinct,
      revalidate_each-last_block r y.store y
          ∙ (save_last_block_lem r latest _ ∙ rw refresh_each-last_block refl),
    )
