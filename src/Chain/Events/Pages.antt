-- ===== src/Chain/Events/Pages.antt =====
-- The pages of the events, newest first.
use mathlib.Core.List.{reverse, reverse-append}
use g_sandbox.Base.{
  ℕ, zero, suc, ◌+◌, ◌-◌, ◌*◌, ◌%◌, ◌^◌, ◌<◌, ◌≤◌, ◌≡◌, ◌⊎◌, inl, inr, refl, sym, ap, ◌∙◌, min,
  false, Option, some, List, [], ◌∷◌, ◌++◌, length, take, drop, ltb, leb, Bool-cases,
  take-append-drop, length-take, length-append, append_assoc, arith,
}
use g_sandbox.Chain.Events.{
  Log, Logs, found, since_logs, last_of, page_from, page_logs, page_found, page_of, events_of,
  from_block, answer_at, answer_found, get_voucher_events,
}

module _ {ℓ} {A : Type ℓ} where
  length-drop : (n : ℕ) (xs : List A) → length (drop n xs) ≡ length xs - n
  length-drop n xs = omega (
    arith,
    ap length (take-append-drop n xs),
    length-append (take n xs) (drop n xs),
    length-take n xs,
  )

  length-reverse : (xs : List A) → length (reverse xs) ≡ length xs
  length-reverse [] = refl
  length-reverse (x ∷ xs) = omega (
    arith,
    ap length (reverse-append (x ∷ []) xs),
    length-append (reverse xs) (x ∷ []),
    length-reverse xs,
  )

  drop-append : (n : ℕ) (xs ys : List A) → length xs ≡ n → drop n (xs ++ ys) ≡ ys
  drop-append n [] ys h = rw⁻¹ h refl
  drop-append zero (x ∷ xs) ys h = absurd (omega (arith, h))
  drop-append (suc n) (x ∷ xs) ys h = drop-append n xs ys (omega (arith, h))

  -- As much as there is in front, or all.
  take-append :
      (n : ℕ) (xs ys : List A)
      → (length xs ≤ n)
      → (length (xs ++ ys) ≤ length xs) ⊎ (length xs ≡ n)
      → take n (xs ++ ys) ≡ xs
  take-append zero [] ys le h = refl
  take-append (suc n) [] [] le h = refl
  take-append (suc n) [] (y ∷ ys) le h = absurd (omega (arith, h))
  take-append zero (x ∷ xs) ys le h = absurd (omega (arith, le))
  take-append (suc n) (x ∷ xs) ys le h =
      ap (◌∷◌ x) (take-append n xs ys (omega (arith, le)) (omega (arith, h)))

  reverse_parts :
      (xs ys zs : List A) → reverse (xs ++ (ys ++ zs)) ≡ reverse zs ++ (reverse ys ++ reverse xs)
  reverse_parts xs ys zs =
      reverse-append xs (ys ++ zs)
      ∙ (ap (λ w. w ++ reverse xs) (reverse-append ys zs)
          ∙ append_assoc (reverse zs) (reverse ys) (reverse xs))

  -- In the middle of a list there is, read backwards, the middle of the reversed list.
  reverse_middle :
      (k : ℕ) (xs ys zs : List A)
      → length ys ≤ k
      → (length xs ≡ 0) ⊎ (length ys ≡ k)
      → reverse ys ≡ take k (drop (length zs) (reverse (xs ++ (ys ++ zs))))
  reverse_middle k xs ys zs le h =
      rw
        (
          reverse_parts xs ys zs,
          drop-append (length zs) (reverse zs) (reverse ys ++ reverse xs) (length-reverse zs),
        )
        (sym (
          take-append k (reverse ys) (reverse xs) (omega (arith, le, length-reverse ys)) (
            omega (
              arith,
              h,
              length-append (reverse ys) (reverse xs),
              length-reverse xs,
              length-reverse ys,
            ))))

-- What `page_logs` has in the middle of the logs is, newest first, a page of them.
page_middle :
    (k start last : ℕ) (ls : List Log)
    → start ≤ last
    → last ≡ min (length ls) (start + k)
    → reverse (take (last - start) (drop (length ls - last) ls)) ≡ take k (drop start (reverse ls))
page_middle k start last ls le e =
    let xs = take (length ls - last) ls in
    let rest = drop (length ls - last) ls in
    let ys = take (last - start) rest in
    let zs = drop (last - start) rest in
    let size_xs = length-take (length ls - last) ls in
    let size_rest = length-drop (length ls - last) ls in
    let size_ys = length-take (last - start) rest in
    let size_zs = length-drop (last - start) rest in
    let whole : xs ++ (ys ++ zs) ≡ ls =
      ap (λ w. xs ++ w) (take-append-drop (last - start) rest)
      ∙ take-append-drop (length ls - last) ls in
    let size : length zs ≡ start = omega (arith, le, e, size_rest, size_zs) in
    reverse_middle k xs ys zs (omega (arith, e, size_ys))
      (omega (arith, le, e, size_xs, size_rest, size_ys))
    ∙ ap (λ w. take k (drop (length zs) (reverse w))) whole
    ∙ ap (λ n. take k (drop n (reverse ls))) size

drop_all : (n : ℕ) (ls : List Log) → length ls ≤ n → drop n ls ≡ []
drop_all zero [] h = refl
drop_all zero (l ∷ ls) h = absurd (omega (arith, h))
drop_all (suc n) [] h = refl
drop_all (suc n) (l ∷ ls) h = drop_all n ls (omega (arith, h))

take_nil : (n : ℕ) → take {A = Log} n [] ≡ []
take_nil zero = refl
take_nil (suc n) = refl

nothing_past :
    (k start : ℕ) (ls : List Log) → length ls ≤ start → [] ≡ take k (drop start (reverse ls))
nothing_past k start ls past =
    rw (drop_all start (reverse ls) (omega (arith, past, length-reverse ls))) (sym (take_nil k))

last_of-min : (total n : ℕ) → last_of total n ≡ min total n
last_of-min total n = elim (Bool-cases (ltb total n)) [
  | inl e ↦ rw e (ground arith)
  | inr e ↦ rw e (ground arith)
]

abbrev Newest : (start k : ℕ) → List Log → Option (List Log) → Type 0
Newest start k ls page =
    (on_page : List Log) × (page ≡ some on_page)
    × (reverse on_page ≡ take k (drop start (reverse ls)))

page_from-Newest :
    (start k : ℕ) (ls : List Log) → start + k < 2 ^ 63 → Newest start k ls (page_from start k ls)
unfolding page_from
page_from-Newest start k ls fits =
    let total = length ls in
    let wraps : (start + k) % 2 ^ 64 ≡ start + k = omega (arith, fits) in
    let low : leb (2 ^ 63) start ≡ false = ground arith in
    let low' : leb (2 ^ 63) (start + k) ≡ false = ground arith in
    elim (Bool-cases (leb total start)) [
      | inl past ↦ rw (low, past) ([], refl, nothing_past k start ls (ground arith))
      | inr within ↦
          let before : start < total = ground arith in
          rw (low, wraps, within, low')
            (
              _,
              refl,
              page_middle k start (last_of total (start + k)) ls
                  (omega (arith, last_of-min total (start + k), before))
                  (last_of-min total (start + k)),
            )
    ]

page_logs-Newest :
    (page k : ℕ) (ls : List Log)
    → (page + 1) * suc k < 2 ^ 63
    → Newest (page * suc k) (suc k) ls (page_logs page (suc k) ls)
unfolding page_logs
page_logs-Newest page k ls fits =
    let wraps : page * suc k % 2 ^ 64 ≡ page * suc k = omega (arith, fits) in
    rw wraps (page_from-Newest (page * suc k) (suc k) ls (omega (arith, fits)))

page_of-Newest :
    (c : Logs) (page k latest : ℕ) (ls : List Log)
    → (page + 1) * suc k < 2 ^ 63
    → page_of c page (suc k) latest ls
      ≡ found
          (events_of c.timestamp (take (suc k) (drop (page * suc k) (reverse ls))))
          (length ls)
          latest
unfolding page_found
page_of-Newest c page k latest ls fits =
    let (on_page, e, newest) = page_logs-Newest page k ls fits in
    ap (page_found c (length ls) latest) e
    ∙ ap (λ es. found (events_of c.timestamp es) (length ls) latest) newest

-- A page of a positive size whose end is an int64 holds, of the logs that the query counts, those that
-- stand there when they are read newest first, but for those that do not parse.
pub get_voucher_events_lem :
    (c : Logs) (since page k latest : ℕ) (ls : List Log)
    → c.latest ≡ some latest
    → c.filter_logs (from_block c since latest) ≡ some ls
    → (page + 1) * suc k < 2 ^ 63
    → get_voucher_events c since page (suc k)
      ≡ found
          (events_of c.timestamp
            (take (suc k) (drop (page * suc k) (reverse (since_logs c since ls)))))
          (length (since_logs c since ls))
          latest
unfolding get_voucher_events answer_at answer_found
get_voucher_events_lem c since page k latest ls e e' fits =
    ap (answer_at c since page (suc k)) e
    ∙ (ap (answer_found c since page (suc k) latest) e'
        ∙ page_of-Newest c page k latest (since_logs c since ls) fits)
