-- ===== src/Paper/Trades.antt =====
-- The loop of a replay: what the fills do to the cash and to the shares of an instrument.
use mathlib.Core.Path.{subst}
use quant_agent.Prelude.{
  ℕ, ◌+◌, ◌≡◌, refl, ap, ◌∙◌, String, Bool, true, false, ◌&&◌, List, [], ◌∷◌, All, if◌then◌else◌,
  total, ok, ◌=s=◌, arith, Decimal, pos, ltb_ℤ, ◌+ℤ◌, int_laws, bind-ok, passed-ok, ok_injective,
  strip,
}
use quant_agent.Canonical.{Hashing}
use quant_agent.Dict.{Dict, get, put}
use quant_agent.Paper.Contracts.{negative_cash, Side, buy, sell, side_beq, Platform}
use quant_agent.Paper.Orders.{PaperOrder}
use quant_agent.Paper.Fills.{PaperFill}
use quant_agent.Paper.Transition.{
  name_key, lots_of, trade_lots, Ledger, matches_order, apply_fill, apply_fills,
}
use quant_agent.Paper.Ledger.{
  ledger_shares, quantity_of, ChangeOf, put-shares, trade_lots-quantity, lots_of-IsLot, put-IsEntry,
  IsEntry,
}

-- The shares of an instrument that a fill of this side trades.
abbrev pub traded : Side → String → PaperFill → ℕ
traded side id f = if (f.instrument_id =s= id) && side_beq f.side side then f.quantity else 0

-- The sum of the cash movements.
abbrev pub cash_sum : List PaperFill → Decimal
cash_sum [] = pos 0
cash_sum (f ∷ fs) = f.cash_change +ℤ cash_sum fs

shares_step :
    (side : Side) (same : Bool) (quantity old new before after : ℕ)
    → ChangeOf side quantity old new
    → after + (if same then old else 0) ≡ before + (if same then new else 0)
    → after + (if same && side_beq side sell then quantity else 0)
      ≡ before + (if same && side_beq side buy then quantity else 0)
shares_step buy true quantity old new before after change put_in = omega arith
shares_step buy false quantity old new before after change put_in = omega arith
shares_step sell true quantity old new before after change put_in = omega arith
shares_step sell false quantity old new before after change put_in = omega arith

module _ ⦃h : Hashing⦄ ⦃p : Platform⦄ (orders : Dict String PaperOrder) (id : String) where
  apply_fill-shares :
      (s after : Ledger) (f : PaperFill)
      → All IsEntry s.lots_by_instrument
      → strip f.instrument_id ≡ f.instrument_id
      → apply_fill orders s f ≡ ok after
      → All IsEntry after.lots_by_instrument
        × (after.total_cash ≡ s.total_cash +ℤ f.cash_change)
        × (ledger_shares id after.lots_by_instrument + traded sell id f
            ≡ ledger_shares id s.lots_by_instrument + traded buy id f)
  unfolding apply_fill
  apply_fill-shares s after f entries stripped done =
      let old = lots_of f.instrument_id s.lots_by_instrument in
      let (_, _, matched) = bind-ok (matches_order f (get f.order_id orders)) _ done in
      let (_, covered) =
        passed-ok (ltb_ℤ (s.total_cash +ℤ f.cash_change) (pos 0)) negative_cash _ after matched in
      let (lots, traded_lots, same) = bind-ok (trade_lots f.side f old) _ covered in
      let (valid, change) =
        trade_lots-quantity f.side f old lots
          (lots_of-IsLot f.instrument_id s.lots_by_instrument entries) traded_lots in
      subst
        (λ r.
          All IsEntry r.lots_by_instrument
          × (r.total_cash ≡ s.total_cash +ℤ f.cash_change)
          × (ledger_shares id r.lots_by_instrument + traded sell id f
              ≡ ledger_shares id s.lots_by_instrument + traded buy id f))
        (ok_injective _ after same)
        (
          put-IsEntry f.instrument_id lots s.lots_by_instrument valid stripped entries,
          refl,
          shares_step f.side (f.instrument_id =s= id) f.quantity (quantity_of old)
              (quantity_of lots) (ledger_shares id s.lots_by_instrument)
              (ledger_shares id (put f.instrument_id lots s.lots_by_instrument)) change
              (put-shares id f.instrument_id lots s.lots_by_instrument),
        )

  pub apply_fills-shares :
      (s after : Ledger) (fs : List PaperFill)
      → All IsEntry s.lots_by_instrument
      → All (λ f. strip f.instrument_id ≡ f.instrument_id) fs
      → apply_fills orders s fs ≡ ok after
      → All IsEntry after.lots_by_instrument
        × (after.total_cash ≡ s.total_cash +ℤ cash_sum fs)
        × (ledger_shares id after.lots_by_instrument + total (traded sell id) fs
            ≡ ledger_shares id s.lots_by_instrument + total (traded buy id) fs)
  unfolding apply_fills
  apply_fills-shares s after [] entries stripped done =
      subst
        (λ r.
          All IsEntry r.lots_by_instrument
          × (r.total_cash ≡ s.total_cash +ℤ pos 0)
          × (ledger_shares id r.lots_by_instrument + 0 ≡ ledger_shares id s.lots_by_instrument + 0))
        (ok_injective s after done) (entries, omega int_laws, refl)
  apply_fills-shares s after (f ∷ fs) entries (stripped, rest) done =
      let (next, first, later) = bind-ok (apply_fill orders s f) _ done in
      let (entries', cash, shares) = apply_fill-shares s next f entries stripped first in
      let (entries'', cash', shares') = apply_fills-shares next after fs entries' rest later in
      (entries'', cash' ∙ ap (λ c. c +ℤ cash_sum fs) cash ∙ omega int_laws, omega arith)
