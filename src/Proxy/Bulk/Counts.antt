-- ===== src/Proxy/Bulk/Counts.antt =====
-- What the bulk archive reports.
use package.text.Mathlib.Text.{◌==◌}
use g_sandbox.Base.{
  ℕ, suc, ◌+◌, ◌≡◌, subst, ◌||◌, Option, none, some, List, [], ◌∷◌, length, Bool-cases, inl, inr,
  arith,
}
use g_sandbox.Store.{Store, ◌>>=◌}
use g_sandbox.Billing.Events.{on_archive, on_delete}
use g_sandbox.Proxy.Bulk.{
  Listed, ArchiveReport, empty_report, archive_stopped, archive_one, archive_all,
}

abbrev pub size : ArchiveReport → ℕ
size r = length r.archived + length r.skipped + length r.failed

-- A report comes back, larger by so much.
abbrev pub Reports : ℕ → Option ArchiveReport × Store → Type 0
Reports n (none, s) = ⊥
Reports n (some r, s) = size r ≡ n

stopped-Reports :
    (sb : Listed) (r : ArchiveReport) (s : Store) → Reports (suc (size r)) (archive_stopped sb r s)
unfolding archive_stopped on_archive on_delete
stopped-Reports sb r s = elim (Bool-cases sb.archives) [
  | inl ok ↦ simp ok (omega arith)
  | inr no_archive ↦ simp no_archive (omega arith)
]

one-Reports :
    (sb : Listed) (r : ArchiveReport) (s : Store) → Reports (suc (size r)) (archive_one sb r s)
unfolding archive_one
one-Reports sb r s = elim (Bool-cases (sb.state == "started" || sb.state == "starting")) [
  | inl runs ↦ elim (Bool-cases sb.waits) [
    | inl waits ↦ simp (runs, waits) (stopped-Reports sb r s)
    | inr late ↦ simp (runs, late) (omega arith)
  ]
  | inr rests ↦ elim (Bool-cases (sb.state == "stopped")) [
    | inl stopped ↦ simp (rests, stopped) (stopped-Reports sb r s)
    | inr other ↦ simp (rests, other) (omega arith)
  ]
]

-- The rest of the loop behind one sandbox.
then-Reports :
    (n : ℕ) (sbs : List Listed)
    → ((r : ArchiveReport) (s : Store) → Reports (size r + length sbs) (archive_all sbs r s))
    → (x : Option ArchiveReport × Store) → Reports n x
    → Reports (n + length sbs) (elim x.0 as (λ _. Option ArchiveReport × Store) [
      | none ↦ (none, x.1)
      | some r ↦ archive_all sbs r x.1
    ])
then-Reports n sbs rest (none, s) one = one
then-Reports n sbs rest (some r, s) one =
    subst (λ k. Reports (k + length sbs) (archive_all sbs r s)) one (rest r s)

all-Reports :
    (sbs : List Listed) (r : ArchiveReport) (s : Store)
    → Reports (size r + length sbs) (archive_all sbs r s)
unfolding archive_all
all-Reports [] r s = omega arith
all-Reports (sb ∷ sbs) r s =
    let after =
      then-Reports (suc (size r)) sbs (all-Reports sbs) (archive_one sb r s) (one-Reports sb r s) in
    subst (λ n. Reports n ((archive_one sb r >>= archive_all sbs) s)) (omega arith) after

-- The bulk archive comes back with a report, whatever Redis and Daytona answer, and the report has as
-- many entries in its three lists together as there are sandboxes.
pub archive_all-Reports :
    (sbs : List Listed) (s : Store) → Reports (length sbs) (archive_all sbs empty_report s)
archive_all-Reports sbs s =
    subst (λ n. Reports n (archive_all sbs empty_report s)) (omega arith)
      (all-Reports sbs empty_report s)
