-- ===== src/Veto/Later.antt =====
-- Which bar `locateMarkBar` of veto-analyzer.service.ts finds.
use open_neotrader.Base.{
  some_eq, subst, ℕ, zero, suc, String, ◌≤◌, ◌<◌, ◌≡◌, refl, ap, sym, ◌∙◌, Bool, true, false, ◌&&◌,
  Option, none, some, List, [], ◌∷◌, ltb, leb, length, select, All, arith, Bool-cases, Option-cases,
  inl, inr,
}
use mathlib.Core.List.{Mem, mem-cons_self, mem-cons_of_mem}
use open_neotrader.Exec.{Result, ok, err}
use open_neotrader.Veto.State.{OhlcvBar}
use open_neotrader.Veto.Mark.{
  Dated, later_bars, insert_by_time, sort_by_time, get_elem?, locate_after, locate_mark_bar,
}

-- how many of the dated bars are earlier than a time, and how many are no later
abbrev before : ℕ → List Dated → ℕ
before t xs = length (select (λ x. ltb x.1 t) xs)

abbrev up_to : ℕ → List Dated → ℕ
up_to t xs = length (select (λ x. leb x.1 t) xs)

-- every bar of the list is as late as a time, or later
abbrev AreFrom : ℕ → List Dated → Type 0
AreFrom t xs = All (λ x. t ≤ x.1) xs

abbrev IsSorted : List Dated → Type 0
IsSorted [] = Unit
IsSorted (x ∷ xs) = AreFrom x.1 xs × IsSorted xs

module _ (P : Dated → Type 0) where
  All-insert : (x : Dated) (xs : List Dated) → P x → All P xs → All P (insert_by_time x xs)
  All-insert x [] p ps = (p, tt)
  All-insert x (y ∷ ys) p ps = elim (Bool-cases (leb x.1 y.1)) [
    | inl e ↦ rw e (p, ps)
    | inr e ↦ rw e (ps.0, All-insert x ys p ps.1)
  ]

  All-sort : (xs : List Dated) → All P xs → All P (sort_by_time xs)
  All-sort [] ps = tt
  All-sort (x ∷ xs) ps = All-insert x (sort_by_time xs) ps.0 (All-sort xs ps.1)

  All-get_elem? : (xs : List Dated) (n : ℕ) {x : Dated} → All P xs → get_elem? xs n ≡ some x → P x
  All-get_elem? [] n ps h = cc
  All-get_elem? (y ∷ ys) zero {x} ps h = rw (sym (some_eq h)) ps.0
  All-get_elem? (y ∷ ys) (suc n) ps h = All-get_elem? ys n ps.1 h

AreFrom-le : (s t : ℕ) (xs : List Dated) → s ≤ t → AreFrom t xs → AreFrom s xs
AreFrom-le s t [] h f = tt
AreFrom-le s t (x ∷ xs) h f = (omega (arith, h, f.0), AreFrom-le s t xs h f.1)

insert_by_time-IsSorted :
    (x : Dated) (xs : List Dated) → IsSorted xs → IsSorted (insert_by_time x xs)
insert_by_time-IsSorted x [] s = (tt, tt)
insert_by_time-IsSorted x (y ∷ ys) s = elim (Bool-cases (leb x.1 y.1)) [
  | inl e ↦ let h : x.1 ≤ y.1 = ground (arith, e) in rw e ((h, AreFrom-le x.1 y.1 ys h s.0), s)
  | inr e ↦
      let h : y.1 ≤ x.1 = ground (arith, e) in
      rw e (All-insert (λ z. y.1 ≤ z.1) x ys h s.0, insert_by_time-IsSorted x ys s.1)
]

sort_by_time-IsSorted : (xs : List Dated) → IsSorted (sort_by_time xs)
sort_by_time-IsSorted [] = tt
sort_by_time-IsSorted (x ∷ xs) =
    insert_by_time-IsSorted x (sort_by_time xs) (sort_by_time-IsSorted xs)

module _ (p : Dated → Bool) where
  count-insert :
      (x : Dated) (xs : List Dated)
      → length (select p (insert_by_time x xs)) ≡ length (select p (x ∷ xs))
  count-insert x [] = refl
  count-insert x (y ∷ ys) = ground (arith, count-insert x ys)

  count-sort : (xs : List Dated) → length (select p (sort_by_time xs)) ≡ length (select p xs)
  count-sort [] = refl
  count-sort (x ∷ xs) = ground (arith, count-insert x (sort_by_time xs), count-sort xs)

length-insert : (x : Dated) (xs : List Dated) → length (insert_by_time x xs) ≡ suc (length xs)
length-insert x [] = refl
length-insert x (y ∷ ys) = ground (arith, length-insert x ys)

length-sort : (xs : List Dated) → length (sort_by_time xs) ≡ length xs
length-sort [] = refl
length-sort (x ∷ xs) = ground (arith, length-insert x (sort_by_time xs), length-sort xs)

none_before : (t : ℕ) (xs : List Dated) → AreFrom t xs → before t xs ≡ 0
none_before t [] f = refl
none_before t (x ∷ xs) f = ground (arith, f.0, none_before t xs f.1)

rank_of_head :
    (y : Dated) (ys : List Dated)
    → AreFrom y.1 ys
    → (before y.1 (y ∷ ys) ≤ 0) × (0 < up_to y.1 (y ∷ ys))
rank_of_head y ys f = ground (arith, none_before y.1 ys f)

-- the element at an index of a sorted list has as many before it, at most, and more up to it
rank_of :
    (xs : List Dated) (n : ℕ) {x : Dated}
    → IsSorted xs
    → get_elem? xs n ≡ some x
    → (before x.1 xs ≤ n) × (n < up_to x.1 xs)
rank_of [] n s h = cc
rank_of (y ∷ ys) zero {x} s h =
    subst (λ z. (before z.1 (y ∷ ys) ≤ 0) × (0 < up_to z.1 (y ∷ ys))) (some_eq h)
      (rank_of_head y ys s.0)
rank_of (y ∷ ys) (suc n) {x} s h =
    let later = All-get_elem? (λ z. y.1 ≤ z.1) ys n s.0 h in
    ground (arith, rank_of ys n s.1 h, later)

in_range : (xs : List Dated) (n : ℕ) → n < length xs → (x : Dated) × (get_elem? xs n ≡ some x)
in_range [] n h = ground (arith, h)
in_range (x ∷ xs) zero h = (x, refl)
in_range (x ∷ xs) (suc n) h = in_range xs n (omega (arith, h))

all_of : (xs : List Dated) → length (select (λ x. true) xs) ≡ length xs
all_of [] = refl
all_of (x ∷ xs) = ap suc (all_of xs)

-- whether a bar is later than the decision and, with that, as `test` says
abbrev is_later : (ℕ → Bool) → ℕ → Option ℕ → Bool
is_later test decision none = false
is_later test decision (some ms) = ltb decision ms && test ms

-- how many of the bars are later than the decision, among those that `test` takes
abbrev pub count_later : (String → Option ℕ) → (ℕ → Bool) → ℕ → List OhlcvBar → ℕ
count_later parse test decision bars =
    length (select (λ b. is_later test decision (parse b.ts)) bars)

module _ (parse : String → Option ℕ) (decision : ℕ) where
  -- a bar that was read, with its own time, which is later than the decision
  abbrev IsLaterBar : List OhlcvBar → Dated → Type 0
  IsLaterBar bars x = Mem x.0 bars × (parse x.0.ts ≡ some x.1) × (decision < x.1)

  widened :
      (b : OhlcvBar) (bars : List OhlcvBar) (xs : List Dated)
      → All (IsLaterBar bars) xs
      → All (IsLaterBar (b ∷ bars)) xs
  widened b bars [] h = tt
  widened b bars (x ∷ xs) h = ((mem-cons_of_mem b h.0.0, h.0.1, h.0.2), widened b bars xs h.1)

  later_bars-All : (bars : List OhlcvBar) → All (IsLaterBar bars) (later_bars parse decision bars)
  later_bars-All [] = tt
  later_bars-All (b ∷ bars) = elim (Option-cases (parse b.ts)) [
    | inl e ↦ rw e (widened b bars _ (later_bars-All bars))
    | inr (ms, e) ↦ elim (Bool-cases (ltb decision ms)) [
      | inl l ↦
          rw (e, l) ((mem-cons_self, e, ground (arith, l)), widened b bars _ (later_bars-All bars))
      | inr l ↦ rw (e, l) (widened b bars _ (later_bars-All bars))
    ]
  ]

  count-later_bars :
      (test : ℕ → Bool) (bars : List OhlcvBar)
      → length (select (λ x. test x.1) (later_bars parse decision bars))
        ≡ count_later parse test decision bars
  count-later_bars test [] = refl
  count-later_bars test (b ∷ bars) = elim (Option-cases (parse b.ts)) [
    | inl e ↦ rw e (count-later_bars test bars)
    | inr (ms, e) ↦ elim (Bool-cases (ltb decision ms)) [
      | inl l ↦
          rw (e, l)
            (elim (Bool-cases (test ms)) [
              | inl u ↦ rw u (ap suc (count-later_bars test bars))
              | inr u ↦ rw u (count-later_bars test bars)
            ])
      | inr l ↦ rw (e, l) (count-later_bars test bars)
    ]
  ]

  -- What a search for the bar with `n` later bars before it may return: no bar where there are no more
  -- than `n`, and otherwise the one with that rank.
  abbrev pub IsMark : List OhlcvBar → ℕ → Result (Option OhlcvBar) → Type 0
  IsMark bars n (ok none) = count_later parse (λ t. true) decision bars ≤ n
  IsMark bars n (ok (some b)) =
      Mem b bars
      × (ms : ℕ) × (parse b.ts ≡ some ms)
      × (decision < ms)
      × (count_later parse (λ t. ltb t ms) decision bars ≤ n)
      × (n < count_later parse (λ t. leb t ms) decision bars)
  IsMark bars n (err e) = ⊥

  found :
      (bars : List OhlcvBar) (n : ℕ) {x : Dated}
      → get_elem? (sort_by_time (later_bars parse decision bars)) n ≡ some x
      → IsMark bars n (ok (some x.0))
  found bars n {x} h =
      let later = later_bars parse decision bars in
      let known =
        All-get_elem? (IsLaterBar bars) (sort_by_time later) n
          (All-sort (IsLaterBar bars) later (later_bars-All bars)) h in
      let rank = rank_of (sort_by_time later) n (sort_by_time-IsSorted later) h in
      let early = count-sort (λ y. ltb y.1 x.1) later ∙ count-later_bars (λ t. ltb t x.1) bars in
      let upto = count-sort (λ y. leb y.1 x.1) later ∙ count-later_bars (λ t. leb t x.1) bars in
      (known.0, x.1, known.1, known.2, omega (arith, rank.0, early), omega (arith, rank.1, upto))

  few :
      (bars : List OhlcvBar) (n : ℕ)
      → ltb (length (sort_by_time (later_bars parse decision bars))) (suc n) ≡ true
      → count_later parse (λ t. true) decision bars ≤ n
  few bars n e =
      let later = later_bars parse decision bars in
      ground (arith, e, length-sort later, all_of later, count-later_bars (λ t. true) bars)

  located :
      (bars : List OhlcvBar) (n : ℕ)
      → IsMark bars n (locate_after parse bars (some decision) (suc n))
  located bars n =
      elim (Bool-cases (ltb (length (sort_by_time (later_bars parse decision bars))) (suc n))) [
        | inl e ↦ rw e (few bars n e)
        | inr e ↦
            let (x, h) =
              in_range (sort_by_time (later_bars parse decision bars)) n (ground (arith, e)) in
            rw (e, h) (found bars n h)
      ]

-- The mark bar is the right one: for a decision whose time can be read, and a horizon of `n + 1` bars,
-- `locateMarkBar` never throws. Where no more than `n` of the fetched bars are later than the decision
-- it returns none; otherwise it returns one of the fetched bars that is later than the decision, with
-- `n` later bars at most before it, and more than `n` up to it. Bars whose time cannot be read, and bars
-- up to the decision, play no part, in whatever order the bars come.
pub locate_mark_bar-IsMark :
    (parse : String → Option ℕ) (bars : List OhlcvBar) (ts : String) (n : ℕ) {decision : ℕ}
    → parse ts ≡ some decision
    → IsMark parse decision bars n (locate_mark_bar parse bars ts (suc n))
unfolding locate_mark_bar
locate_mark_bar-IsMark parse bars ts n {decision} h = rw h (located parse decision bars n)
