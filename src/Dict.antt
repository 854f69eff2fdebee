-- ===== src/Dict.antt =====
-- Python's `dict`: an association list over keys with an equality. The program never depends on
-- the order of these.
use quant_agent.Prelude.{
  ◌≡◌, ◌⊎◌, sym, ap, ◌∙◌, Bool, true, false, Option, none, some, List, [], ◌∷◌, arith,
  if◌then◌else◌, Bool-cases, inl, inr,
}

pub record Key (K : Type 0) : Type 0 where
  pub beq : K → K → Bool
  pub beq_refl : (k : K) → beq k k ≡ true
  pub beq-eq : (j k : K) → beq j k ≡ true → j ≡ k

abbrev pub Dict : Type 0 → Type 0 → Type 0
Dict K V = List (K × V)

module _ {K V : Type 0} ⦃key : Key K⦄ where
  -- `d.get(k)`
  unfoldable pub get : K → Dict K V → Option V
  get k [] = none
  get k ((j, v) ∷ d) = if key.beq j k then some v else get k d

  -- `d[k] = v`
  unfoldable pub put : K → V → Dict K V → Dict K V
  put k v [] = (k, v) ∷ []
  put k v ((j, w) ∷ d) = if key.beq j k then (j, v) ∷ d else (j, w) ∷ put k v d

  pub get-put_self : (k : K) (v : V) (d : Dict K V) → get k (put k v d) ≡ some v
  unfolding get put
  get-put_self k v [] = rw (key.beq_refl k)
  get-put_self k v ((j, w) ∷ d) = elim (Bool-cases (key.beq j k)) [
    | inl same ↦ rw (same, same)
    | inr other ↦ rw (other, other) (get-put_self k v d)
  ]

  pub get-put_ne :
      (j k : K) (v : V) (d : Dict K V) → key.beq k j ≡ false → get j (put k v d) ≡ get j d
  unfolding get put
  get-put_ne j k v [] h = rw h
  get-put_ne j k v ((i, w) ∷ d) h = elim (Bool-cases (key.beq i k)) [
    | inl same ↦ let away : key.beq i j ≡ false = rw (key.beq-eq i k same) h in rw (same, away)
    | inr other ↦ ground (arith, get-put_ne j k v d h)
  ]

  -- A new entry leaves the present ones.
  pub get-put_new :
      (j k : K) (v w : V) (d : Dict K V)
      → get k d ≡ none
      → get j d ≡ some w
      → get j (put k v d) ≡ some w
  get-put_new j k v w d absent present = elim (Bool-cases (key.beq k j)) [
    | inl same ↦ absurd (none-ne-some (sym absent ∙ (rw (key.beq-eq k j same) present)))
    | inr other ↦ get-put_ne j k v d other ∙ present
  ]
    where
      none-ne-some : none ≡ some w → ⊥
      none-ne-some e = cc

  -- So does an entry that is there already.
  pub get-put_agrees :
      (j k : K) (v w : V) (d : Dict K V)
      → (get k d ≡ none) ⊎ (get k d ≡ some v)
      → get j d ≡ some w
      → get j (put k v d) ≡ some w
  get-put_agrees j k v w d (inl absent) present = get-put_new j k v w d absent present
  get-put_agrees j k v w d (inr stored) present = elim (Bool-cases (key.beq k j)) [
    | inl same ↦
        let here : get j d ≡ some v = rw (sym (key.beq-eq k j same)) stored in
        let there : get j (put k v d) ≡ some v =
          rw (sym (key.beq-eq k j same)) (get-put_self k v d) in
        there ∙ sym here ∙ present
    | inr other ↦ get-put_ne j k v d other ∙ present
  ]

  -- An entry behind a write is the written one or was there before.
  pub get-put_cases :
      (j k : K) (v w : V) (d : Dict K V)
      → get j (put k v d) ≡ some w
      → ((k ≡ j) × (v ≡ w)) ⊎ (get j d ≡ some w)
  get-put_cases j k v w d found = elim (Bool-cases (key.beq k j)) [
    | inl same ↦
        let here = key.beq-eq k j same in
        inl
          (here, some_eq v w (sym (get-put_self k v d) ∙ ap (λ x. get x (put k v d)) here ∙ found))
    | inr other ↦ inr (sym (get-put_ne j k v d other) ∙ found)
  ]
    where
      some_eq : (x y : V) → some x ≡ some y → x ≡ y
      some_eq x y e = cc

  -- A write is at the key that is read, or the read does not see it.
  pub get-put_either : (j k : K) (v : V) (d : Dict K V) → (k ≡ j) ⊎ (get j (put k v d) ≡ get j d)
  get-put_either j k v d = elim (Bool-cases (key.beq k j)) [
    | inl same ↦ inl (key.beq-eq k j same)
    | inr other ↦ inr (get-put_ne j k v d other)
  ]
