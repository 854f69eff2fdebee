-- ===== src/Regime/Audit.antt =====
-- The audit history of the engine: the chain of event hashes, the dates and the sources.
use mathlib.Core.List.{map-append, reverse, reverse-cons}
use quant_agent.Prelude.{
  ℕ, ◌<◌, ◌≡◌, refl, sym, false, Option, none, some, List, [], ◌∷◌, ◌++◌, arith, ok, last?, map,
  String,
}
use quant_agent.Canonical.{Hashing}
use quant_agent.Regime.Config.{MarketRegimeResult, RegimeTransitionConfig}
use quant_agent.Regime.Engine.{TransitionEvent, Engine, fresh, decide}
use quant_agent.Regime.Process.{
  validate_next, event_of, previous_hash, advance, is_stale, last_hash,
}
use quant_agent.Regime.History.{Reaches, start, next, event_at, process_inversion}

-- The hash of the last event of a history that began after `seed`.
abbrev tip : Option String → List TransitionEvent → Option String
tip seed [] = seed
tip seed (x ∷ xs) = tip (some x.event_hash) xs

-- Each event names the hash of the one before it.
abbrev pub IsChained : Option String → List TransitionEvent → Type 0
IsChained seed [] = Unit
IsChained seed (x ∷ xs) = (x.previous_event_hash ≡ seed) × IsChained (some x.event_hash) xs

-- The dates of the events, each later than the one before it.
abbrev pub IsAfter : Option ℕ → ℕ → Type 0
IsAfter none d = Unit
IsAfter (some d') d = d' < d

abbrev pub IsChronological : Option ℕ → List TransitionEvent → Type 0
IsChronological d [] = Unit
IsChronological d (x ∷ xs) = IsAfter d x.session_date × IsChronological (some x.session_date) xs

abbrev pub last_date : Option ℕ → List TransitionEvent → Option ℕ
last_date d [] = d
last_date d (x ∷ xs) = last_date (some x.session_date) xs

IsChained-append :
    (seed : Option String) (xs : List TransitionEvent) (x : TransitionEvent)
    → IsChained seed xs
    → x.previous_event_hash ≡ tip seed xs
    → IsChained seed (xs ++ x ∷ [])
IsChained-append seed [] x h p = (p, tt)
IsChained-append seed (y ∷ ys) x h p = (h.0, IsChained-append (some y.event_hash) ys x h.1 p)

IsChronological-append :
    (d : Option ℕ) (xs : List TransitionEvent) (x : TransitionEvent)
    → IsChronological d xs
    → IsAfter (last_date d xs) x.session_date
    → IsChronological d (xs ++ x ∷ [])
IsChronological-append d [] x h p = (p, tt)
IsChronological-append d (y ∷ ys) x h p =
    (h.0, IsChronological-append (some y.session_date) ys x h.1 p)

last_date-append :
    (d : Option ℕ) (xs : List TransitionEvent) (x : TransitionEvent)
    → last_date d (xs ++ x ∷ []) ≡ some x.session_date
last_date-append d [] x = refl
last_date-append d (y ∷ ys) x = last_date-append (some y.session_date) ys x

tip-last? :
    (x : TransitionEvent) (xs : List TransitionEvent)
    → tip (some x.event_hash) xs ≡ last_hash (last? (x ∷ xs))
tip-last? x [] = refl
tip-last? x (y ∷ ys) = tip-last? y ys

previous_hash-eq-tip : (e : Engine) → previous_hash e ≡ tip none e.events
unfolding previous_hash
previous_hash-eq-tip e = go e.events
  where
    go : (xs : List TransitionEvent) → last_hash (last? xs) ≡ tip none xs
    go [] = refl
    go (x ∷ xs) = sym (tip-last? x xs)

stale-IsAfter :
    (d : Option ℕ) (r : MarketRegimeResult) → is_stale d r ≡ false → IsAfter d r.session_date
stale-IsAfter none r p = tt
stale-IsAfter (some d) r p = ground arith

accepted-IsAfter :
    (e : Engine) (r : MarketRegimeResult)
    → validate_next e r ≡ ok tt
    → IsAfter e.last_session_date r.session_date
unfolding validate_next
accepted-IsAfter e r p = ground (arith, stale-IsAfter e.last_session_date r)

-- What holds of the events of an engine that has seen the sessions `seen`, the latest first.
pub record IsAudit (seen : List MarketRegimeResult) (e : Engine) : Type 0 where
  pub chained : IsChained none e.events
  pub chronological : IsChronological none e.events
  pub latest : last_date none e.events ≡ e.last_session_date
  pub sources :
      map (λ (x : TransitionEvent). x.source_result_hash) e.events
      ≡ reverse (map (λ (r : MarketRegimeResult). r.result_hash) seen)

module _ ⦃h : Hashing⦄ (c : RegimeTransitionConfig) (seen : List MarketRegimeResult) (e : Engine)
    (r : MarketRegimeResult) (audit : IsAudit seen e) (accepted : validate_next e r ≡ ok tt) where
  abbrev next_engine : Engine
  next_engine = advance e r (decide c e r) (event_at c e r)

  advance-IsAudit : IsAudit (r ∷ seen) next_engine
  unfolding advance event_of
  advance-IsAudit = record {
    chained = IsChained-append none e.events _ audit.chained (previous_hash-eq-tip e);
    chronological =
        IsChronological-append none e.events _ audit.chronological
          (rw audit.latest (accepted-IsAfter e r accepted));
    latest = last_date-append none e.events _;
    sources = rw (map-append, reverse-cons, audit.sources);
  }

module _ ⦃h : Hashing⦄ {c : RegimeTransitionConfig} where
  -- The history of every engine holds one event for each session processed, in their order: each
  -- event names the hash of the one before it, and its date is later than that one's.
  pub Reaches-IsAudit :
      {seen : List MarketRegimeResult} {e : Engine} → Reaches c seen e → IsAudit seen e
  unfolding fresh
  Reaches-IsAudit (start p) =
      rw p (record { chained = tt; chronological = tt; latest = refl; sources = refl })
  Reaches-IsAudit (next {seen} {e} r reach p) =
      let (accepted, _, made) = process_inversion c e r p in
      rw made (advance-IsAudit c seen e r (Reaches-IsAudit reach) accepted)
