-- ===== src/WalkForward/Windows.antt =====
-- Windows of a chronological list of sessions: a window that stops where another one starts, or
-- before, lies before it.
use quant_agent.Prelude.{
  ℕ, zero, suc, ◌-◌, ◌≤◌, ◌<◌, ◌≡◌, refl, ap, ◌∙◌, true, List, [], ◌∷◌, length, take, drop, All,
  min, arith,
}
use mathlib.Core.Path.{subst}
use quant_agent.WalkForward.Contracts.{sorted_days, insert_day, days_beq, is_chronological}
use quant_agent.WalkForward.Splitter.{slice}

-- Each day lies before all later ones.
abbrev pub Increasing : List ℕ → Type 0
Increasing [] = Unit
Increasing (x ∷ xs) = All (λ y. x < y) xs × Increasing xs

-- Each day of one list lies before each of another.
abbrev pub AllBefore : List ℕ → List ℕ → Type 0
AllBefore xs ys = All (λ x. All (λ y. x < y) ys) xs

All-take : (P : ℕ → Type 0) (n : ℕ) (xs : List ℕ) → All P xs → All P (take n xs)
All-take P zero xs h = tt
All-take P (suc n) [] h = tt
All-take P (suc n) (x ∷ xs) (p, ps) = (p, All-take P n xs ps)

All-drop : (P : ℕ → Type 0) (n : ℕ) (xs : List ℕ) → All P xs → All P (drop n xs)
All-drop P zero xs h = h
All-drop P (suc n) [] h = tt
All-drop P (suc n) (x ∷ xs) (p, ps) = All-drop P n xs ps

All-map : (P Q : ℕ → Type 0) → ((x : ℕ) → P x → Q x) → (xs : List ℕ) → All P xs → All Q xs
All-map P Q f [] h = tt
All-map P Q f (x ∷ xs) (p, ps) = (f x p, All-map P Q f xs ps)

pub Increasing-take : (n : ℕ) (xs : List ℕ) → Increasing xs → Increasing (take n xs)
Increasing-take zero xs h = tt
Increasing-take (suc n) [] h = tt
Increasing-take (suc n) (x ∷ xs) (p, ps) = (All-take (λ y. x < y) n xs p, Increasing-take n xs ps)

pub Increasing-drop : (n : ℕ) (xs : List ℕ) → Increasing xs → Increasing (drop n xs)
Increasing-drop zero xs h = h
Increasing-drop (suc n) [] h = tt
Increasing-drop (suc n) (x ∷ xs) (p, ps) = Increasing-drop n xs ps

take-AllBefore-drop : (n : ℕ) (xs : List ℕ) → Increasing xs → AllBefore (take n xs) (drop n xs)
take-AllBefore-drop zero xs h = tt
take-AllBefore-drop (suc n) [] h = tt
take-AllBefore-drop (suc n) (x ∷ xs) (p, ps) =
    (All-drop (λ y. x < y) n xs p, take-AllBefore-drop n xs ps)

-- What holds from a place on holds of a window that starts there or later.
All-slice :
    (P : ℕ → Type 0) (from start stop : ℕ) (xs : List ℕ)
    → from ≤ start
    → All P (drop from xs)
    → All P (slice start stop xs)
All-slice P zero start stop xs le h = All-drop P start (take stop xs) (All-take P stop xs h)
All-slice P (suc from) zero stop xs le h = elim le [ ]
All-slice P (suc from) (suc start) zero xs le h = tt
All-slice P (suc from) (suc start) (suc stop) [] le h = tt
All-slice P (suc from) (suc start) (suc stop) (x ∷ xs) le h =
    All-slice P from start stop xs (omega arith) h

pub slice-AllBefore :
    (a b c d : ℕ) (xs : List ℕ) → Increasing xs → b ≤ c → AllBefore (slice a b xs) (slice c d xs)
slice-AllBefore a b c d xs h le =
    All-map (λ x. All (λ y. x < y) (drop b xs)) (λ x. All (λ y. x < y) (slice c d xs))
      (λ x. All-slice (λ y. x < y) b c d xs le) (slice a b xs)
      (All-drop (λ x. All (λ y. x < y) (drop b xs)) a (take b xs) (take-AllBefore-drop b xs h))

length-take : (n : ℕ) (xs : List ℕ) → length (take n xs) ≡ min n (length xs)
length-take zero xs = omega arith
length-take (suc n) [] = omega arith
length-take (suc n) (x ∷ xs) = omega (arith, length-take n xs)

length-drop : (n : ℕ) (xs : List ℕ) → length (drop n xs) ≡ length xs - n
length-drop zero xs = omega arith
length-drop (suc n) [] = omega arith
length-drop (suc n) (x ∷ xs) = omega (arith, length-drop n xs)

pub length-slice : (a b : ℕ) (xs : List ℕ) → b ≤ length xs → length (slice a b xs) ≡ b - a
length-slice a b xs h = omega (arith, length-drop a (take b xs), length-take b xs)

-- The test by `sorted(set(...))` decides whether the days increase.
insert_day-All :
    (z x : ℕ) (ys : List ℕ) → z < x → All (λ y. z < y) ys → All (λ y. z < y) (insert_day x ys)
unfolding insert_day
insert_day-All z x [] lt h = (lt, tt)
insert_day-All z x (y ∷ ys) lt (p, ps) = ground (arith, insert_day-All z x ys lt ps)

below : (x y : ℕ) (ys : List ℕ) → x < y → All (λ z. y < z) ys → All (λ z. x < z) ys
below x y ys lt = All-map (λ z. y < z) (λ z. x < z) (λ z le. omega arith) ys

insert_day-Increasing : (x : ℕ) (ys : List ℕ) → Increasing ys → Increasing (insert_day x ys)
unfolding insert_day
insert_day-Increasing x [] h = (tt, tt)
insert_day-Increasing x (y ∷ ys) (p, ps) =
    ground (arith, below x y ys, insert_day-All y x ys, insert_day-Increasing x ys ps)

sorted_days-Increasing : (xs : List ℕ) → Increasing (sorted_days xs)
unfolding sorted_days
sorted_days-Increasing [] = tt
sorted_days-Increasing (x ∷ xs) =
    insert_day-Increasing x (sorted_days xs) (sorted_days-Increasing xs)

days_beq-eq : (xs ys : List ℕ) → days_beq xs ys ≡ true → xs ≡ ys
days_beq-eq [] [] h = refl
days_beq-eq [] (y ∷ ys) h = cc
days_beq-eq (x ∷ xs) [] h = cc
days_beq-eq (x ∷ xs) (y ∷ ys) h = ground (arith, days_beq-eq xs ys)

days_beq_refl : (xs : List ℕ) → days_beq xs xs ≡ true
days_beq_refl [] = refl
days_beq_refl (x ∷ xs) = ground (arith, days_beq_refl xs)

insert_day_first : (x : ℕ) (xs : List ℕ) → All (λ y. x < y) xs → insert_day x xs ≡ x ∷ xs
unfolding insert_day
insert_day_first x [] h = refl
insert_day_first x (y ∷ ys) (p, ps) = ground arith

Increasing-sorted_days : (xs : List ℕ) → Increasing xs → sorted_days xs ≡ xs
unfolding sorted_days
Increasing-sorted_days [] h = refl
Increasing-sorted_days (x ∷ xs) (p, ps) =
    ap (insert_day x) (Increasing-sorted_days xs ps) ∙ insert_day_first x xs p

pub is_chronological-Increasing : (xs : List ℕ) → is_chronological xs ≡ true → Increasing xs
unfolding is_chronological
is_chronological-Increasing xs h =
    let same = days_beq-eq (sorted_days xs) xs h in
    subst Increasing same (sorted_days-Increasing xs)

pub Increasing-is_chronological : (xs : List ℕ) → Increasing xs → is_chronological xs ≡ true
unfolding is_chronological
Increasing-is_chronological xs h = rw (Increasing-sorted_days xs h) (days_beq_refl xs)
