-- ===== src/Backlog/Operator/Merged.antt =====
-- The operator's merge of a pair's vouchers keeps what every pair owes.
use g_sandbox.Base.{
  ℕ, zero, suc, ◌+◌, ◌≡◌, refl, ◌∙◌, ap, append-nil, Bool, ◌&&◌, Option, none, some, List, [], ◌∷◌,
  ◌++◌, arith, ◌==◌, if◌then◌else◌, Bool-cases, ==_refl, inl, inr,
}
use g_sandbox.Voucher.{Address, Raw, json, malformed, Hashing}
use g_sandbox.Store.{Store, Action, ◌>>=◌, gets, commands_cases, command_cases, later_ok}
use g_sandbox.Backlog.Defs.{is_mine, sum_mine, own_entries, kept_entries, conflict, max_retries}
use g_sandbox.Backlog.Attempts.{pushed}
use g_sandbox.Backlog.Operator.{
  AggregateResult, merged_voucher, matches, write_merged, run_merge, exec_merge, merge_items,
  merge_attempts, aggregate,
}

sum_mine-append :
    (u p : Address) (xs ys : List Raw) → sum_mine u p (xs ++ ys) ≡ sum_mine u p xs + sum_mine u p ys
sum_mine-append u p [] ys = omega arith
sum_mine-append u p (json v ∷ xs) ys = omega (arith, sum_mine-append u p xs ys)
sum_mine-append u p (malformed _ ∷ xs) ys = sum_mine-append u p xs ys

-- What the kept entries are short of is the pair's own sum.
sum_mine-kept_entries :
    (user provider u p : Address) (queue : List Raw)
    → sum_mine u p (kept_entries user provider queue)
        + (if user == u && provider == p then sum_mine user provider queue else 0)
      ≡ sum_mine u p queue
unfolding kept_entries
sum_mine-kept_entries user provider u p [] = ground arith
sum_mine-kept_entries user provider u p (malformed _ ∷ q) =
    sum_mine-kept_entries user provider u p q
sum_mine-kept_entries user provider u p (json v ∷ q) =
    ground (arith, sum_mine-kept_entries user provider u p q)

sum_mine-write_merged :
    (h : Hashing) (now : ℕ) (user provider u p : Address) (queue : List Raw)
    → sum_mine u p (write_merged h now user provider (matches user provider queue) queue)
      ≡ sum_mine u p queue
unfolding write_merged matches merged_voucher
sum_mine-write_merged h now user provider u p queue =
    let v = json (merged_voucher h now user provider (sum_mine user provider queue)) in
    ground (
      arith,
      sum_mine-append u p (kept_entries user provider queue) (v ∷ []),
      sum_mine-kept_entries user provider u p queue,
    )

-- Some of the first rounds of others are over, and the queue owes for every pair what it owed before and
-- what they pushed in these rounds.
abbrev pub Balanced : Store → Option AggregateResult × Store → Type 0
Balanced s (r, s') =
    (rounds : List (Option (List Raw))) × (s.arrivals ≡ rounds ++ s'.arrivals)
    × ((u p : Address)
        → sum_mine u p s'.queue ≡ sum_mine u p s.queue + sum_mine u p (pushed rounds))

-- A call that has not met others, or only where they were idle.
quiet-Balanced :
    (s s' : Store) (r : Option AggregateResult) (rounds : List (Option (List Raw)))
    → pushed rounds ≡ []
    → s.arrivals ≡ rounds ++ s'.arrivals
    → ((u p : Address) → sum_mine u p s'.queue ≡ sum_mine u p s.queue)
    → Balanced s (r, s')
quiet-Balanced s s' r rounds quiet over same =
    (rounds, over, λ u p. rw (same u p, quiet) (omega arith))

module _ (h : Hashing) (now : ℕ) (user provider : Address) where
  run_merge-Balanced :
      (s : Store) (rounds : List (Option (List Raw))) (fs : List Bool)
      (arr : List (Option (List Raw)))
      → pushed rounds ≡ []
      → s.arrivals ≡ rounds ++ arr
      → Balanced s (
          run_merge h now user provider
            (matches user provider s.queue)
            s.queue
            (record s { faults = fs; arrivals = arr }))
  unfolding run_merge
  run_merge-Balanced s rounds fs arr quiet over =
      let found = matches user provider s.queue in
      let write : Action AggregateResult =
        λ x. (some found, record x { queue = write_merged h now user provider found s.queue }) in
      let written : Store = record s {
        queue = write_merged h now user provider found s.queue;
        faults = later_ok fs;
        arrivals = arr;
      } in
      command_cases (Balanced s) write (record s { faults = fs; arrivals = arr })
        (quiet-Balanced s (record s { faults = later_ok fs; arrivals = arr }) none rounds quiet over
          (λ u p. refl))
        (quiet-Balanced s written (some found) rounds quiet over
          (λ u p. sum_mine-write_merged h now user provider u p s.queue))

  grown-Balanced :
      (s : Store) (new : List Raw) (fs : List Bool) (arr : List (Option (List Raw)))
      (r : Option AggregateResult × Store)
      → s.arrivals ≡ some new ∷ arr
      → Balanced (record s { queue = s.queue ++ new; faults = fs; arrivals = arr }) r
      → Balanced s r
  grown-Balanced s new fs arr r met (rounds, over, e) = (
    some new ∷ rounds,
    met ∙ ap (λ x. some new ∷ x) over,
    λ u p.
        rw (e u p, sum_mine-append u p s.queue new, sum_mine-append u p new (pushed rounds))
          (omega arith),
  )

  exec_merge-Balanced :
      (n : ℕ) (s : Store) (fs : List Bool) (arr : List (Option (List Raw)))
      → ((s' : Store) → Balanced s' (merge_attempts n h now user provider s'))
      → s.arrivals ≡ arr
      → Balanced s (
          exec_merge
            (merge_attempts n h now user provider)
            h
            now
            user
            provider
            (matches user provider s.queue)
            s.queue
            (record s { faults = fs; arrivals = arr }))
  unfolding exec_merge conflict
  exec_merge-Balanced n s fs [] again e = run_merge-Balanced s [] fs [] refl e
  exec_merge-Balanced n s fs (none ∷ arr) again e = run_merge-Balanced s (none ∷ []) fs arr refl e
  exec_merge-Balanced n s fs (some new ∷ arr) again e =
      let s' : Store = record s { queue = s.queue ++ new; faults = fs; arrivals = arr } in
      grown-Balanced s new fs arr (merge_attempts n h now user provider s') e (again s')

  idle-Balanced :
      (s : Store) (fs : List Bool) (r : Option AggregateResult)
      → Balanced s (r, record s { faults = fs })
  idle-Balanced s fs r = quiet-Balanced s (record s { faults = fs }) r [] refl refl (λ u p. refl)

  merge_items-Balanced :
      (n : ℕ) (s : Store) (fs : List Bool)
      → ((s' : Store) → Balanced s' (merge_attempts n h now user provider s'))
      → Balanced s (
          merge_items
            (merge_attempts n h now user provider)
            h
            now
            user
            provider
            s.queue
            (record s { faults = fs }))
  unfolding merge_items
  merge_items-Balanced n s fs again =
      let found = matches user provider s.queue in
      elim (Bool-cases (found.matched == 0)) [
        | inl nothing ↦ rw nothing (idle-Balanced s fs (some found))
        | inr matching ↦ rw matching (exec_merge-Balanced n s fs s.arrivals again refl)
      ]

  attempts-Balanced : (n : ℕ) (s : Store) → Balanced s (merge_attempts n h now user provider s)
  unfolding merge_attempts
  attempts-Balanced zero s = idle-Balanced s s.faults none
  attempts-Balanced (suc n) s =
      commands_cases (Balanced s) 2
        (gets (λ x. x.queue)
          >>= merge_items (merge_attempts n h now user provider) h now user provider)
        s (λ fs. idle-Balanced s fs none) (λ fs. merge_items-Balanced n s fs (attempts-Balanced n))

-- Whatever commands fail and whatever is pushed between the attempts, the operator's aggregation of a
-- pair leaves a queue that owes, for every pair, the sum of what the queue owed before and what others
-- pushed in the rounds that are over at its end.
pub aggregate-Balanced :
    (h : Hashing) (now : ℕ) (user provider : Address) (s : Store)
    → Balanced s (aggregate h now user provider s)
unfolding aggregate
aggregate-Balanced h now user provider s = attempts-Balanced h now user provider max_retries s

own_entries-append :
    (u p : Address) (xs ys : List Raw)
    → own_entries u p (xs ++ ys) ≡ own_entries u p xs ++ own_entries u p ys
unfolding own_entries
own_entries-append u p [] ys = refl
own_entries-append u p (malformed _ ∷ xs) ys = own_entries-append u p xs ys
own_entries-append u p (json v ∷ xs) ys = elim (Bool-cases (is_mine u p v)) [
  | inl mine ↦ rw (mine, own_entries-append u p xs ys)
  | inr other ↦ rw (other, own_entries-append u p xs ys)
]

own_entries-kept_entries :
    (u p : Address) (queue : List Raw) → own_entries u p (kept_entries u p queue) ≡ []
unfolding own_entries kept_entries
own_entries-kept_entries u p [] = refl
own_entries-kept_entries u p (malformed _ ∷ q) = own_entries-kept_entries u p q
own_entries-kept_entries u p (json v ∷ q) = elim (Bool-cases (is_mine u p v)) [
  | inl mine ↦ rw (mine, own_entries-kept_entries u p q)
  | inr other ↦ rw (other, other, own_entries-kept_entries u p q)
]

kept_entries-append :
    (u p : Address) (xs ys : List Raw)
    → kept_entries u p (xs ++ ys) ≡ kept_entries u p xs ++ kept_entries u p ys
unfolding kept_entries
kept_entries-append u p [] ys = refl
kept_entries-append u p (malformed t ∷ xs) ys =
    ap (λ rs. malformed t ∷ rs) (kept_entries-append u p xs ys)
kept_entries-append u p (json v ∷ xs) ys = elim (Bool-cases (is_mine u p v)) [
  | inl mine ↦ rw (mine, kept_entries-append u p xs ys)
  | inr other ↦ rw (other, kept_entries-append u p xs ys)
]

kept_entries_twice :
    (u p : Address) (queue : List Raw)
    → kept_entries u p (kept_entries u p queue) ≡ kept_entries u p queue
unfolding kept_entries
kept_entries_twice u p [] = refl
kept_entries_twice u p (malformed t ∷ q) = ap (λ rs. malformed t ∷ rs) (kept_entries_twice u p q)
kept_entries_twice u p (json v ∷ q) = elim (Bool-cases (is_mine u p v)) [
  | inl mine ↦ rw (mine, kept_entries_twice u p q)
  | inr other ↦ rw (other, other, kept_entries_twice u p q)
]

-- The merge leaves the pair exactly one voucher, without a sandbox, for the sum of all its fees, and
-- leaves the entries of other pairs and those that do not parse as they stand.
pub write_merged_lem :
    (h : Hashing) (now : ℕ) (user provider : Address) (queue : List Raw)
    → let merged = write_merged h now user provider (matches user provider queue) queue in
      (own_entries user provider merged
        ≡ json (merged_voucher h now user provider (sum_mine user provider queue)) ∷ [])
      × (kept_entries user provider merged ≡ kept_entries user provider queue)
unfolding write_merged matches merged_voucher own_entries kept_entries
write_merged_lem h now user provider queue =
    let v = json (merged_voucher h now user provider (sum_mine user provider queue)) in
    (
      rw (
        own_entries-append user provider (kept_entries user provider queue) (v ∷ []),
        own_entries-kept_entries user provider queue,
        ==_refl user,
        ==_refl provider,
      ),
      rw
          (
            kept_entries-append user provider (kept_entries user provider queue) (v ∷ []),
            kept_entries_twice user provider queue,
            ==_refl user,
            ==_refl provider,
          )
          (append-nil (kept_entries user provider queue)),
    )
