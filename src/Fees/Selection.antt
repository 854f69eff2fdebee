-- ===== src/Fees/Selection.antt =====
-- Which rule a book of packages/quant_agent/backtest/rules.py selects.
use mathlib.Core.Path.{subst}
use quant_agent.Prelude.{
  ℕ, ◌<◌, ◌≤◌, String, Bool, true, false, ◌≡◌, refl, sym, ap, ◌∙◌, ◌⊎◌, inl, inr, Bool-cases,
  Option, none, some, eq_iff, ◌=s=◌, List, [], ◌∷◌, any, All, ok, err, ltb, leb, ltb→lt, ◌↔◌, ◌≢◌,
  if◌then◌else◌, arith, passed-ok, bind-ok, ok_injective,
}
use quant_agent.Paper.Contracts.{
  TradableInstrumentType, stock, etf, type_beq, Side, buy, sell, side_beq,
}
use quant_agent.Fees.{
  value_error, fee_rule_not_found, FeeRule, same_identity, same_version, check_rules, make_book,
  is_candidate, candidates, version_matches, latest, latest_of, select,
}

abbrev pub In : FeeRule → List FeeRule → Type 0
In r [] = ⊥
In r (s ∷ rules) = (r ≡ s) ⊎ In r rules

every :
    (P : FeeRule → Type 0) (rules : List FeeRule) → ((r : FeeRule) → In r rules → P r) → All P rules
every P [] f = tt
every P (r ∷ rules) f = (f r (inl refl), every P rules (λ s i. f s (inr i)))

same_identity_refl : (a : FeeRule) → same_identity a a ≡ true
unfolding same_identity
same_identity_refl a = ground arith

same_identity_sym : (a b : FeeRule) → same_identity a b ≡ true → same_identity b a ≡ true
unfolding same_identity
same_identity_sym a b h = ground arith

any_none :
    (p : FeeRule → Bool) (rules : List FeeRule) (b : FeeRule)
    → any p rules ≡ false
    → In b rules
    → p b ≡ false
any_none p [] b nowhere i = absurd i
any_none p (r ∷ rules) b nowhere (inl same) = ap p same ∙ ground arith
any_none p (r ∷ rules) b nowhere (inr i) = any_none p rules b (ground arith) i

-- The checks of one rule, and of those behind it.
checked :
    (rule : FeeRule) (rules seen : List FeeRule)
    → check_rules (rule ∷ rules) seen ≡ ok tt
    → (any (same_identity rule) seen ≡ false) × (check_rules rules (rule ∷ seen) ≡ ok tt)
unfolding check_rules
checked rule rules seen done =
    let (fresh, d1) = passed-ok (any (same_identity rule) seen) value_error _ tt done in
    let (_, d2) = passed-ok (any (same_version rule) seen) value_error _ tt d1 in (fresh, d2)

-- A rule that passes has no key that was seen.
checked_new :
    (rules seen : List FeeRule) (a b : FeeRule)
    → check_rules rules seen ≡ ok tt
    → In a rules
    → In b seen
    → same_identity a b ≡ false
checked_new [] seen a b done i j = absurd i
checked_new (rule ∷ rules) seen a b done i j =
    let (fresh, rest) = checked rule rules seen done in
    elim i [
      | inl same ↦ ap (λ r. same_identity r b) same ∙ any_none (same_identity rule) seen b fresh j
      | inr later ↦ checked_new rules (rule ∷ seen) a b rest later (inr j)
    ]

same_rule :
    (rules seen : List FeeRule) (a b : FeeRule)
    → check_rules rules seen ≡ ok tt
    → In a rules
    → In b rules
    → same_identity a b ≡ true
    → a ≡ b
same_rule [] seen a b done i j same = absurd i
same_rule (rule ∷ rules) seen a b done i j same =
    let (_, rest) = checked rule rules seen done in
    elim i [
      | inl a_first ↦ elim j [
        | inl b_first ↦ a_first ∙ sym b_first
        | inr b_later ↦ absurd (
            not_both (
              sym (same_identity_sym a b same)
              ∙ checked_new rules (rule ∷ seen) b a rest b_later (inl a_first)))
      ]
      | inr a_later ↦ elim j [
        | inl b_first ↦
            absurd
              (not_both (sym same ∙ checked_new rules (rule ∷ seen) a b rest a_later (inl b_first)))
        | inr b_later ↦ same_rule rules (rule ∷ seen) a b rest a_later b_later same
      ]
    ]
  where
    not_both : true ≡ false → ⊥
    not_both e = cc

candidates-In :
    (p : FeeRule → Bool) (rules : List FeeRule) (r : FeeRule)
    → In r (candidates p rules)
    → In r rules × (p r ≡ true)
unfolding candidates
candidates-In p [] r i = absurd i
candidates-In p (rule ∷ rules) r i = split (p rule) (λ j. candidates-In p rules r j) refl i
  where
    split :
        (b : Bool)
        → (In r (candidates p rules) → In r rules × (p r ≡ true))
        → p rule ≡ b
        → In r (if b then rule ∷ candidates p rules else candidates p rules)
        → In r (rule ∷ rules) × (p r ≡ true)
    split true behind takes (inl same) = (inl same, ap p same ∙ takes)
    split true behind takes (inr j) = let (k, h) = behind j in (inr k, h)
    split false behind leaves j = let (k, h) = behind j in (inr k, h)

In-candidates :
    (p : FeeRule → Bool) (rules : List FeeRule) (r : FeeRule)
    → In r rules
    → p r ≡ true
    → In r (candidates p rules)
unfolding candidates
In-candidates p [] r i h = absurd i
In-candidates p (rule ∷ rules) r (inl same) h =
    let here : p rule ≡ true = sym (ap p same) ∙ h in rw here (inl same)
In-candidates p (rule ∷ rules) r (inr i) h = elim (Bool-cases (p rule)) [
  | inl takes ↦ rw takes (inr (In-candidates p rules r i h))
  | inr leaves ↦ rw leaves (In-candidates p rules r i h)
]

abbrev later_of : FeeRule → FeeRule → FeeRule
later_of best rule = if ltb best.effective_from rule.effective_from then rule else best

later_of_either : (best rule : FeeRule) → (later_of best rule ≡ rule) ⊎ (later_of best rule ≡ best)
later_of_either best rule = elim (Bool-cases (ltb best.effective_from rule.effective_from)) [
  | inl later ↦ inl (rw later refl)
  | inr earlier ↦ inr (rw earlier refl)
]

later_of_bound :
    (best rule : FeeRule)
    → (best.effective_from ≤ (later_of best rule).effective_from)
      × (rule.effective_from ≤ (later_of best rule).effective_from)
later_of_bound best rule = elim (Bool-cases (ltb best.effective_from rule.effective_from)) [
  | inl later ↦ rw later (ground arith, omega arith)
  | inr earlier ↦ rw earlier (omega arith, ground arith)
]

latest-In : (best : FeeRule) (rules : List FeeRule) → In (latest best rules) (best ∷ rules)
unfolding latest
latest-In best [] = inl refl
latest-In best (rule ∷ rules) = elim (latest-In (later_of best rule) rules) [
  | inl same ↦ elim (later_of_either best rule) [
    | inl newer ↦ inr (inl (same ∙ newer))
    | inr older ↦ inl (same ∙ older)
  ]
  | inr i ↦ inr (inr i)
]

latest_bound :
    (best : FeeRule) (rules : List FeeRule) (r : FeeRule)
    → In r (best ∷ rules)
    → r.effective_from ≤ (latest best rules).effective_from
unfolding latest
latest_bound best [] r (inl same) = omega (arith, ap (λ s. s.effective_from) same)
latest_bound best [] r (inr i) = absurd i
latest_bound best (rule ∷ rules) r i =
    let chosen = later_of best rule in
    let (over_best, over_rule) = later_of_bound best rule in
    let above = latest_bound chosen rules chosen (inl refl) in
    elim i [
      | inl first ↦ omega (arith, over_best, above, ap (λ s. s.effective_from) first)
      | inr (inl second) ↦ omega (arith, over_rule, above, ap (λ s. s.effective_from) second)
      | inr (inr j) ↦ latest_bound chosen rules r (inr j)
    ]

latest_of-ok :
    (rules : List FeeRule) (r s : FeeRule)
    → latest_of rules ≡ ok r
    → In r rules × (In s rules → s.effective_from ≤ r.effective_from)
unfolding latest_of
latest_of-ok [] r s e = cc
latest_of-ok (rule ∷ rules) r s e =
    let same = ok_injective (latest rule rules) r e in
    (
      subst (λ z. In z (rule ∷ rules)) same (latest-In rule rules),
      λ i. subst (λ z. s.effective_from ≤ z.effective_from) same (latest_bound rule rules s i),
    )

candidates_alike :
    (instrument_type : TradableInstrumentType) (side : Side) (day : ℕ) (version : Option String)
    (a b : FeeRule)
    → is_candidate instrument_type side day version a ≡ true
    → is_candidate instrument_type side day version b ≡ true
    → a.effective_from ≡ b.effective_from
    → same_identity a b ≡ true
unfolding is_candidate same_identity
candidates_alike instrument_type side day version a b h k same = ground arith

made_checked :
    (rules book : List FeeRule)
    → make_book rules ≡ ok book
    → (rules ≡ book) × (check_rules rules [] ≡ ok tt)
unfolding make_book
made_checked rules book made =
    let (unit, passed, d) = bind-ok (check_rules rules []) _ made in
    (ok_injective rules book d, passed)

-- A rule that a book selects is one of the book's, is for the instrument type and the side, is
-- effective on the day and has the version if one is given; every other rule of the book that is
-- so became effective on an earlier day, so that the order of the rules does not matter.
pub selects_newest :
    (rules book : List FeeRule) (instrument_type : TradableInstrumentType) (side : Side) (day : ℕ)
    (version : Option String) (r : FeeRule)
    → make_book rules ≡ ok book
    → select book instrument_type side day version ≡ ok r
    → In r rules
      × (is_candidate instrument_type side day version r ≡ true)
      × All
          (λ s.
            (is_candidate instrument_type side day version s ≡ false)
            ⊎ ((s ≡ r) ⊎ (s.effective_from < r.effective_from)))
          rules
unfolding select
selects_newest rules book instrument_type side day version r made selected =
    let p = is_candidate instrument_type side day version in
    let (same_book, passed) = made_checked rules book made in
    let picked : latest_of (candidates p rules) ≡ ok r =
      ap (λ b. latest_of (candidates p b)) same_book ∙ selected in
    let (there, _) = latest_of-ok (candidates p rules) r r picked in
    let (chosen, own) = candidates-In p rules r there in
    (
      chosen,
      own,
      every _ rules (λ s i. elim (Bool-cases (p s)) [
        | inr unfit ↦ inl unfit
        | inl fits ↦
            let (_, bound) = latest_of-ok (candidates p rules) r s picked in
            let before = bound (In-candidates p rules s i fits) in
            elim (Bool-cases (ltb s.effective_from r.effective_from)) [
              | inl earlier ↦ inr (inr (ltb→lt s.effective_from r.effective_from earlier))
              | inr not_earlier ↦ inr (
                  inl (
                    same_rule rules [] s r passed i chosen (
                      candidates_alike instrument_type side day version s r fits own
                        (ground arith))))
            ]
      ]),
    )

-- A rule that is out of the question: for another type of instrument or another side, effective
-- only later, or of another version than the given one.
abbrev OtherVersion : Option String → FeeRule → Type 0
OtherVersion none r = ⊥
OtherVersion (some version) r = r.version ≢ version

abbrev pub IsUnfit : TradableInstrumentType → Side → ℕ → Option String → FeeRule → Type 0
IsUnfit instrument_type side day version r =
    (r.instrument_type ≢ instrument_type)
    ⊎ (r.side ≢ side)
    ⊎ (day < r.effective_from)
    ⊎ OtherVersion version r

type_beq_iff : (a b : TradableInstrumentType) → (type_beq a b ≡ false) ↔ (a ≢ b)
type_beq_iff stock stock = ((λ e. cc), λ n. absurd (n refl))
type_beq_iff stock etf = ((λ e same. cc), λ n. refl)
type_beq_iff etf stock = ((λ e same. cc), λ n. refl)
type_beq_iff etf etf = ((λ e. cc), λ n. absurd (n refl))

side_beq_iff : (a b : Side) → (side_beq a b ≡ false) ↔ (a ≢ b)
side_beq_iff buy buy = ((λ e. cc), λ n. absurd (n refl))
side_beq_iff buy sell = ((λ e same. cc), λ n. refl)
side_beq_iff sell buy = ((λ e same. cc), λ n. refl)
side_beq_iff sell sell = ((λ e. cc), λ n. absurd (n refl))

version_matches_iff :
    (version : Option String) (r : FeeRule)
    → (version_matches version r ≡ false) ↔ OtherVersion version r
unfolding version_matches
version_matches_iff none r = ((λ e. cc), λ n. absurd n)
version_matches_iff (some version) r = (
  (λ e same. cc (e, (eq_iff r.version version).1 same)),
  λ n. other (r.version =s= version) (eq_iff r.version version).0 n,
)
  where
    other : (b : Bool) → (b ≡ true → r.version ≡ version) → r.version ≢ version → b ≡ false
    other true f n = absurd (n (f refl))
    other false f n = refl

is_candidate-IsUnfit :
    (instrument_type : TradableInstrumentType) (side : Side) (day : ℕ) (version : Option String)
    (r : FeeRule)
    → (is_candidate instrument_type side day version r ≡ false)
      ↔ IsUnfit instrument_type side day version r
unfolding is_candidate
is_candidate-IsUnfit instrument_type side day version r = (
  (λ e. elim (Bool-cases (type_beq r.instrument_type instrument_type)) [
    | inr other ↦ inl ((type_beq_iff r.instrument_type instrument_type).0 other)
    | inl same_type ↦ elim (Bool-cases (side_beq r.side side)) [
      | inr other ↦ inr (inl ((side_beq_iff r.side side).0 other))
      | inl same_side ↦ elim (Bool-cases (leb r.effective_from day)) [
        | inr later ↦ inr (inr (inl (ground arith)))
        | inl in_effect ↦ inr (inr (inr ((version_matches_iff version r).0 (ground arith))))
      ]
    ]
  ]),
  λ u. elim u [
    | inl other ↦ ground (arith, (type_beq_iff r.instrument_type instrument_type).1 other)
    | inr (inl other) ↦ ground (arith, (side_beq_iff r.side side).1 other)
    | inr (inr (inl later)) ↦ ground arith
    | inr (inr (inr other)) ↦ ground (arith, (version_matches_iff version r).1 other)
  ],
)

candidates-IsUnfit :
    (instrument_type : TradableInstrumentType) (side : Side) (day : ℕ) (version : Option String)
    (rules : List FeeRule)
    → (latest_of (candidates (is_candidate instrument_type side day version) rules)
        ≡ err fee_rule_not_found)
      ↔ All (IsUnfit instrument_type side day version) rules
unfolding candidates latest_of
candidates-IsUnfit instrument_type side day version [] = ((λ e. tt), λ u. refl)
candidates-IsUnfit instrument_type side day version (rule ∷ rules) =
    let unfit = is_candidate-IsUnfit instrument_type side day version rule in
    let rest = candidates-IsUnfit instrument_type side day version rules in
    elim (Bool-cases (is_candidate instrument_type side day version rule)) [
      | inl takes ↦ rw takes ((λ e. cc), λ (u, _). absurd (not_both (sym takes ∙ unfit.1 u)))
      | inr leaves ↦ rw leaves ((λ e. (unfit.0 leaves, rest.0 e)), λ (_, us). rest.1 us)
    ]
  where
    not_both : true ≡ false → ⊥
    not_both e = cc

-- `select` raises exactly if every rule of the book is for another type of instrument or another
-- side than asked for, effective only after the day, or, where a version is given, of another one.
pub select_missing :
    (rules : List FeeRule) (instrument_type : TradableInstrumentType) (side : Side) (day : ℕ)
    (version : Option String)
    → (select rules instrument_type side day version ≡ err fee_rule_not_found)
      ↔ All (IsUnfit instrument_type side day version) rules
unfolding select
select_missing rules instrument_type side day version =
    candidates-IsUnfit instrument_type side day version rules
