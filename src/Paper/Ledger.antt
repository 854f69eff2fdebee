-- ===== src/Paper/Ledger.antt =====
-- What a fill does to the cash and to the shares of each instrument.
use mathlib.Core.Path.{subst}
use quant_agent.Prelude.{
  ℕ, ◌+◌, ◌≡◌, refl, sym, ap, inl, inr, Bool-cases, String, true, false, not, ◌||◌, Option, none,
  some, List, [], ◌∷◌, All, if◌then◌else◌, total, total-append, All-append, ok, ◌=s=◌, arith,
  bind-ok, passed-ok, checked-ok, ok_injective, is_blank, strip, strip_idem, is_blank-strip,
}
use quant_agent.Canonical.{Hashing}
use quant_agent.Dict.{Dict, get, put}
use quant_agent.Paper.Contracts.{
  value_error, Side, buy, sell, Platform, PaperPositionLot, make_lot, valid_lot, build_lot,
}
use quant_agent.Paper.LotFacts.{IsLot}
use quant_agent.Paper.SaleFacts.{sale_takes_free_shares}
use quant_agent.Paper.Fills.{PaperFill}
use quant_agent.Paper.Transition.{
  name_key, lots_of, bought_lot, bought_lots, trade_lots, text_equal,
}

abbrev pub quantity_of : List PaperPositionLot → ℕ
quantity_of ls = total (λ l. l.quantity) ls

-- The shares of an instrument in an entry of the lots by instrument, and in all of them.
abbrev pub entry_shares : String → String × List PaperPositionLot → ℕ
entry_shares id (name, lots) = if name =s= id then quantity_of lots else 0

abbrev pub ledger_shares : String → Dict String (List PaperPositionLot) → ℕ
ledger_shares id entries = total (entry_shares id) entries

lots_of_hit :
    (name other : String) (old : List PaperPositionLot) (d : Dict String (List PaperPositionLot))
    → (other =s= name) ≡ true
    → lots_of name ((other, old) ∷ d) ≡ old
unfolding get name_key
lots_of_hit name other old d same = rw (lots_of, same) refl

lots_of_miss :
    (name other : String) (old : List PaperPositionLot) (d : Dict String (List PaperPositionLot))
    → (other =s= name) ≡ false
    → lots_of name ((other, old) ∷ d) ≡ lots_of name d
unfolding get name_key
lots_of_miss name other old d different = rw (lots_of, different) refl

pub put-shares :
    (id name : String) (lots : List PaperPositionLot) (d : Dict String (List PaperPositionLot))
    → ledger_shares id (put name lots d) + entry_shares id (name, lots_of name d)
      ≡ ledger_shares id d + entry_shares id (name, lots)
unfolding put get name_key
put-shares id name lots [] = ground arith
put-shares id name lots ((other, old) ∷ d) = elim (Bool-cases (other =s= name)) [
  | inl same ↦
      let name_same = text_equal other name same in
      let new_same = ap (λ n. entry_shares id (n, lots)) name_same in
      let old_same = ap (λ n. entry_shares id (n, old)) name_same in
      let found = ap (λ ls. entry_shares id (name, ls)) (lots_of_hit name other old d same) in
      rw (put, same) (omega (arith, new_same, old_same, found))
  | inr different ↦
      let found = ap (λ ls. entry_shares id (name, ls)) (lots_of_miss name other old d different) in
      rw (put, different) (omega (arith, found, put-shares id name lots d))
]

-- The constructor of a lot gives a lot that passes it, with the given quantity.
make_lot-IsLot :
    ⦃h : Hashing⦄ (given l : PaperPositionLot)
    → make_lot given ≡ ok l
    → IsLot l × (l.quantity ≡ given.quantity)
unfolding make_lot
make_lot-IsLot given l made =
    let normal : PaperPositionLot = record given {
      lot_id = strip given.lot_id;
      instrument_id = strip given.instrument_id;
      source_id = strip given.source_id;
    } in
    let (named, rest) =
      passed-ok (is_blank given.lot_id || is_blank given.instrument_id || is_blank given.source_id)
        value_error _ l made in
    let (valid, same) = checked-ok (not (valid_lot normal)) value_error normal l rest in
    let again : IsLot normal =
      rw
        (
          is_blank-strip given.lot_id,
          is_blank-strip given.instrument_id,
          is_blank-strip given.source_id,
          named,
          strip_idem given.lot_id,
          strip_idem given.instrument_id,
          strip_idem given.source_id,
          valid,
        )
        refl in
    subst (λ m. IsLot m × (m.quantity ≡ given.quantity)) same (again, refl)

-- What a trade of a side does to the lots of its instrument.
abbrev pub ChangeOf : Side → ℕ → ℕ → ℕ → Type 0
ChangeOf buy quantity before after = after ≡ before + quantity
ChangeOf sell quantity before after = after + quantity ≡ before

bought_lots-quantity :
    ⦃h : Hashing⦄ ⦃p : Platform⦄ (f : PaperFill) (on : Option ℕ)
    (lots after : List PaperPositionLot)
    → All IsLot lots
    → bought_lots f on lots ≡ ok after
    → All IsLot after × (quantity_of after ≡ quantity_of lots + f.quantity)
unfolding bought_lots build_lot bought_lot
bought_lots-quantity f none lots after valid done = cc
bought_lots-quantity f (some d) lots after valid done =
    let (lot, built, same) = bind-ok (build_lot (bought_lot f d)) _ done in
    let (own, quantity) = make_lot-IsLot _ lot built in
    subst (λ r. All IsLot r × (quantity_of r ≡ quantity_of lots + f.quantity))
      (ok_injective _ _ same)
      (
        All-append IsLot lots (lot ∷ []) valid (own, tt),
        omega (arith, total-append (λ l. l.quantity) lots (lot ∷ []), quantity),
      )

pub trade_lots-quantity :
    ⦃h : Hashing⦄ ⦃p : Platform⦄ (side : Side) (f : PaperFill) (lots after : List PaperPositionLot)
    → All IsLot lots
    → trade_lots side f lots ≡ ok after
    → All IsLot after × ChangeOf side f.quantity (quantity_of lots) (quantity_of after)
unfolding trade_lots
trade_lots-quantity buy f lots after valid done =
    bought_lots-quantity f f.sellable_on lots after valid done
trade_lots-quantity ⦃h⦄ ⦃p⦄ sell f lots after valid done =
    let (valid_after, quantity, _, _) =
      sale_takes_free_shares lots after f.quantity (p.local_day f.filled_at) valid done in
    (valid_after, quantity)

-- The lots of an entry passed their constructor, and its name is normalised.
abbrev pub IsEntry : ⦃h : Hashing⦄ → String × List PaperPositionLot → Type 0
IsEntry (name, lots) = All IsLot lots × (strip name ≡ name)

pub lots_of-IsLot :
    ⦃h : Hashing⦄ (name : String) (d : Dict String (List PaperPositionLot))
    → All IsEntry d
    → All IsLot (lots_of name d)
unfolding get
lots_of-IsLot name [] valid = tt
lots_of-IsLot name ((other, old) ∷ d) ((here, _), valid) = elim (Bool-cases (other =s= name)) [
  | inl same ↦ subst (All IsLot) (sym (lots_of_hit name other old d same)) here
  | inr different ↦
      subst (All IsLot) (sym (lots_of_miss name other old d different)) (lots_of-IsLot name d valid)
]

pub put-IsEntry :
    ⦃h : Hashing⦄ (name : String) (lots : List PaperPositionLot)
    (d : Dict String (List PaperPositionLot))
    → All IsLot lots
    → strip name ≡ name
    → All IsEntry d
    → All IsEntry (put name lots d)
unfolding put name_key
put-IsEntry name lots [] valid stripped entries = ((valid, stripped), tt)
put-IsEntry name lots ((other, old) ∷ d) valid stripped ((here, normal), entries) =
    elim (Bool-cases (other =s= name)) [
      | inl same ↦ rw (All, put, same) ((valid, normal), entries)
      | inr different ↦
          rw (All, put, different) ((here, normal), put-IsEntry name lots d valid stripped entries)
    ]
