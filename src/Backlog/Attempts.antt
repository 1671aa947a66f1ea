-- ===== src/Backlog/Attempts.antt =====
-- The optimistic transaction: it writes a split of one snapshot, or it writes nothing.
use g_sandbox.Base.{
  ℕ, zero, suc, ◌≡◌, refl, sym, ap, subst, ◌∙◌, Bool, Option, none, some, List, [], ◌∷◌, ◌++◌,
  append-nil, append_assoc, or_zero,
}
use g_sandbox.Voucher.{Address, Raw, Hashing}
use g_sandbox.Store.{Store, gets, ◌>>=◌, command_cases, commands_cases, later_ok}
use g_sandbox.Backlog.Defs.{
  split_of, write_split, CoveredResult, result_of, conflict, exec_covered, write_covered,
  covered_attempts, max_retries, aggregate_covered,
}

-- What others have pushed in some of the rounds.
abbrev pub pushed : List (Option (List Raw)) → List Raw
pushed [] = []
pushed (none ∷ rounds) = pushed rounds
pushed (some new ∷ rounds) = new ++ pushed rounds

pub pushed-append : (a b : List (Option (List Raw))) → pushed (a ++ b) ≡ pushed a ++ pushed b
pushed-append [] b = refl
pushed-append (none ∷ a) b = pushed-append a b
pushed-append (some new ∷ a) b =
    ap (λ q. new ++ q) (pushed-append a b) ∙ sym (append_assoc new (pushed a) (pushed b))

-- A store behind some rounds of others, whose pushes are in its queue, and some commands.
abbrev pub grown : List (Option (List Raw)) → List Bool → List (Option (List Raw)) → Store → Store
grown rounds faults arrivals s = record s {
  queue = s.queue ++ pushed rounds;
  faults = faults;
  arrivals = arrivals;
}

both :
    (s : Store) (a b : List (Option (List Raw)))
    → (s.queue ++ pushed a) ++ pushed b ≡ s.queue ++ pushed (a ++ b)
both s a b =
    append_assoc s.queue (pushed a) (pushed b) ∙ ap (λ q. s.queue ++ q) (sym (pushed-append a b))

module _ (h : Hashing) (now : ℕ) (user provider : Address) (balance : ℕ) where
  -- The rounds that are over are the first ones, and what they pushed is in the queue.
  abbrev pub Atomic : Store → Option CoveredResult × Store → Type 0
  Atomic s (none, s') =
      (rounds : List (Option (List Raw))) × (fs : List Bool) × (arr : List (Option (List Raw)))
      × (s.arrivals ≡ rounds ++ arr)
      × (s' ≡ grown rounds fs arr s)
  Atomic s (some r, s') =
      (rounds : List (Option (List Raw))) × (fs : List Bool) × (arr : List (Option (List Raw)))
      × (gs : List Bool) × (s.arrivals ≡ rounds ++ arr)
      × (let seen = grown rounds fs arr s in
          let sp = split_of user provider balance seen in
          (r ≡ result_of sp)
          × (s' ≡ record (write_split h now user provider sp seen) { faults = gs }))

  -- What has been seen later has been seen from the start.
  Atomic-grown :
      (s : Store) (rounds : List (Option (List Raw))) (fs : List Bool)
      (arr : List (Option (List Raw))) (r : Option CoveredResult × Store)
      → s.arrivals ≡ rounds ++ arr
      → Atomic (grown rounds fs arr s) r
      → Atomic s r
  Atomic-grown s rounds fs arr (none, s') over (later, fs', arr', over', e) = (
    rounds ++ later,
    fs',
    arr',
    over ∙ (ap (λ x. rounds ++ x) over' ∙ sym (append_assoc rounds later arr')),
    e ∙ ap (λ q. record s { queue = q; faults = fs'; arrivals = arr' }) (both s rounds later),
  )
  Atomic-grown s rounds fs arr (some r, s') over (later, fs', arr', gs, over', e) = (
    rounds ++ later,
    fs',
    arr',
    gs,
    over ∙ (ap (λ x. rounds ++ x) over' ∙ sym (append_assoc rounds later arr')),
    rw (both s rounds later) at e,
  )

  grown_nothing :
      (s : Store) (rounds : List (Option (List Raw))) (fs : List Bool)
      (arr : List (Option (List Raw)))
      → pushed rounds ≡ []
      → record s { faults = fs; arrivals = arr } ≡ grown rounds fs arr s
  grown_nothing s rounds fs arr quiet =
      ap (λ q. record s { queue = q; faults = fs; arrivals = arr })
        (sym (ap (λ q. s.queue ++ q) quiet ∙ append-nil s.queue))

  write_covered-Atomic :
      (s : Store) (rounds : List (Option (List Raw))) (fs : List Bool)
      (arr : List (Option (List Raw)))
      → pushed rounds ≡ []
      → s.arrivals ≡ rounds ++ arr
      → let seen = record s { faults = fs; arrivals = arr } in
        Atomic s (write_covered h now user provider (split_of user provider balance seen) seen)
  unfolding write_covered write_split
  write_covered-Atomic s rounds fs arr quiet over =
      let seen = record s { faults = fs; arrivals = arr } in
      let sp = split_of user provider balance seen in
      command_cases (Atomic s) (λ x. (some (result_of sp), write_split h now user provider sp x))
        seen (rounds, later_ok fs, arr, over, grown_nothing s rounds (later_ok fs) arr quiet)
        (
          rounds,
          fs,
          arr,
          later_ok fs,
          over,
          subst
              (λ (seen' : Store).
                let sp' = split_of user provider balance seen' in
                (result_of sp ≡ result_of sp')
                × (write_split h now user provider sp (record seen { faults = later_ok fs })
                    ≡ record (write_split h now user provider sp' seen') { faults = later_ok fs }))
              (grown_nothing s rounds fs arr quiet) (refl, refl),
        )

  exec_covered-Atomic :
      (n : ℕ) (s : Store) (fs : List Bool)
      → ((s' : Store) → Atomic s' (covered_attempts n h now user provider balance s'))
      → let seen = record s { faults = fs } in
        Atomic s (
          exec_covered
            (covered_attempts n h now user provider balance)
            h
            now
            user
            provider
            (split_of user provider balance seen)
            seen)
  unfolding exec_covered conflict write_split split_of
  exec_covered-Atomic n s fs again = go s.arrivals refl
    where
      go :
          (arr : List (Option (List Raw)))
          → s.arrivals ≡ arr
          → let seen = record s { faults = fs; arrivals = arr } in
            Atomic s (
              exec_covered
                (covered_attempts n h now user provider balance)
                h
                now
                user
                provider
                (split_of user provider balance seen)
                seen)
      go [] e = write_covered-Atomic s [] fs [] refl e
      go (none ∷ arr) e = write_covered-Atomic s (none ∷ []) fs arr refl e
      go (some new ∷ arr) e =
          let rounds : List (Option (List Raw)) = some new ∷ [] in
          let seen : Store = record s { queue = s.queue ++ new; faults = fs; arrivals = arr } in
          let same : grown rounds fs arr s ≡ seen =
            ap (λ q. record s { queue = s.queue ++ q; faults = fs; arrivals = arr })
              (append-nil new) in
          Atomic-grown s rounds fs arr (covered_attempts n h now user provider balance seen) e (
            subst (λ x. Atomic x (covered_attempts n h now user provider balance seen)) (sym same)
              (again seen))

  attempts-Atomic :
      (n : ℕ) (s : Store) → Atomic s (covered_attempts n h now user provider balance s)
  unfolding covered_attempts
  attempts-Atomic zero s =
      ([], s.faults, s.arrivals, refl, grown_nothing s [] s.faults s.arrivals refl)
  attempts-Atomic (suc n) s =
      commands_cases (Atomic s) 3
        (gets (split_of user provider balance)
          >>= exec_covered (covered_attempts n h now user provider balance) h now user provider)
        s (λ fs. ([], fs, s.arrivals, refl, grown_nothing s [] fs s.arrivals refl))
        (λ fs. exec_covered-Atomic n s fs (attempts-Atomic n))

-- `AggregateCovered` is atomic, whichever commands fail and whatever is pushed to the queue between
-- its attempts. Some of the first rounds of others are over at its end, and their pushes, all of them,
-- are in the queue that it leaves or has split. If it returns an error it has changed nothing else. If
-- it returns a result, then that reports the split of the old store with these pushes, and the store is
-- this one with the split written.
pub aggregate_covered-Atomic :
    (h : Hashing) (now : ℕ) (user provider : Address) (balance : Option ℕ) (s : Store)
    → Atomic h now user provider
        (or_zero balance)
        s
        (aggregate_covered h now user provider balance s)
unfolding aggregate_covered
aggregate_covered-Atomic h now user provider balance =
    attempts-Atomic h now user provider (or_zero balance) max_retries
