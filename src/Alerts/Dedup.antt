-- ===== src/Alerts/Dedup.antt =====
-- What a run of alerts leaves in the history.
use Prim.Native.String.{String, ◌++◌}
use package.text.Mathlib.Text.{◌==◌}
use g_sandbox.Base.{
  ℕ, zero, suc, ◌≡◌, refl, ap, ◌∙◌, true, Option, none, some, List, [], ◌∷◌, take, if◌then◌else◌,
  Bool-cases, inl, inr,
}
use g_sandbox.Alerts.{
  Detail, text, stringer, other_value, subject_part, subject, Notice, history_max_len, Webhook,
  AlertState, dedup_key, has_text, claim_dedup, persist, dispatch, notify, notify_all,
}

-- A subject's text, in lower case behind a colon, if there is one.
abbrev pub named : Webhook → Option Detail → String
named w (some (text s)) = if s == "" then "" else ":" ++ w.lower s
named w (some (stringer s)) = if s == "" then "" else ":" ++ w.lower s
named w _ = ""

-- What tells reports apart: the kind, and the texts under user, provider and sandbox.
abbrev pub told_by : Webhook → Notice → String
told_by w n = "alert:dedup:" ++ n.kind ++ named w n.user ++ named w n.provider ++ named w n.sandbox

named_lem : (w : Webhook) (d : Option Detail) → subject_part w d ≡ named w d
unfolding subject_part
named_lem w none = refl
named_lem w (some other_value) = refl
named_lem w (some (text s)) = refl
named_lem w (some (stringer s)) = refl

dedup_key_lem : (w : Webhook) (n : Notice) → dedup_key w n ≡ told_by w n
unfolding dedup_key subject
dedup_key_lem w n = rw (named_lem w n.user, named_lem w n.provider, named_lem w n.sandbox) refl

-- The first report of each kind and subject that was not claimed before, in order.
abbrev pub first_reports : Webhook → List String → List Notice → List Notice
first_reports w claimed [] = []
first_reports w claimed (n ∷ ns) =
    if has_text (told_by w n) claimed
    then first_reports w claimed ns
    else n ∷ first_reports w (told_by w n ∷ claimed) ns

abbrev pub newest_first : List Notice → List Notice → List Notice
newest_first [] done = done
newest_first (n ∷ ns) done = newest_first ns (n ∷ done)

take-take : {A : Type 0} (k : ℕ) (xs : List A) → take k (take (suc k) xs) ≡ take k xs
take-take zero xs = refl
take-take (suc k) [] = refl
take-take (suc k) (x ∷ xs) = ap (λ ys. x ∷ ys) (take-take k xs)

-- A bounded list takes a new head as the unbounded one does.
take-cons : {A : Type 0} (k : ℕ) (x : A) (xs : List A) → take k (x ∷ take k xs) ≡ take k (x ∷ xs)
take-cons zero x xs = refl
take-cons (suc k) x xs = ap (λ ys. x ∷ ys) (take-take k xs)

notify_lem :
    (w : Webhook) (n : Notice) (s : AlertState)
    → w.dedups ≡ true
    → w.has_url ≡ true
    → notify w (record { set_nx = true; persists = true }) n s ≡ (
        if has_text (told_by w n) s.claimed then s else record {
          claimed = told_by w n ∷ s.claimed;
          history = take history_max_len (n ∷ s.history);
          sent = n ∷ s.sent;
        })
unfolding notify claim_dedup persist dispatch
notify_lem w n s dedups url =
    let key = dedup_key_lem w n in
    elim (Bool-cases (has_text (told_by w n) s.claimed)) [
      | inl seen ↦ simp (dedups, url, key, seen)
      | inr new ↦ simp (dedups, url, key, new)
    ]

-- If Redis answers, the window is positive and there is a webhook: of a run of alerts within one window
-- the first report of each kind and subject goes out and no other, and the history is the newest
-- hundred of what ever went out, if it was before.
pub run_reports_first :
    (w : Webhook) (ns : List Notice) (s : AlertState)
    → w.dedups ≡ true
    → w.has_url ≡ true
    → s.history ≡ take history_max_len s.sent
    → ((notify_all w ns s).sent ≡ newest_first (first_reports w s.claimed ns) s.sent)
      × ((notify_all w ns s).history
          ≡ take history_max_len (newest_first (first_reports w s.claimed ns) s.sent))
unfolding notify_all
run_reports_first w [] s dedups url bounded = (refl, bounded)
run_reports_first w (n ∷ ns) s dedups url bounded =
    let now = notify_lem w n s dedups url in
    elim (Bool-cases (has_text (told_by w n) s.claimed)) [
      | inl seen ↦
          let same : notify w (record { set_nx = true; persists = true }) n s ≡ s =
            now ∙ (rw seen refl) in
          simp (same, seen) (run_reports_first w ns s dedups url bounded)
      | inr new ↦
          let s1 : AlertState = record {
            claimed = told_by w n ∷ s.claimed;
            history = take history_max_len (n ∷ s.history);
            sent = n ∷ s.sent;
          } in
          let goes : notify w (record { set_nx = true; persists = true }) n s ≡ s1 =
            now ∙ (rw new refl) in
          let bounded1 : s1.history ≡ take history_max_len s1.sent =
            ap (λ h. take history_max_len (n ∷ h)) bounded ∙ take-cons history_max_len n s.sent in
          simp (goes, new) (run_reports_first w ns s1 dedups url bounded1)
    ]
