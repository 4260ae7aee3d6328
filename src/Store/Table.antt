-- ===== src/Store/Table.antt =====
-- A table under its primary key. Rows keep the order in which they were inserted.
use dorf.Base.{
  ◌≢◌, ℕ, suc, ◌≡◌, refl, subst, Bool, true, false, ◌||◌, Option, none, some, List, [], ◌∷◌, Text,
  ◌==◌, ==_iff, if◌then◌else◌, arith, Bool-cases, inl, inr,
}

abbrev pub Table : Type 0 → Type 0
Table V = List (Text × V)

module _ {V : Type 0} where
  unfoldable pub get : Text → Table V → Option V
  get k [] = none
  get k ((j, v) ∷ t) = if j == k then some v else get k t

  -- Replaces the row under the key, or adds one at the end.
  unfoldable pub put : Text → V → Table V → Table V
  put k v [] = (k, v) ∷ []
  put k v ((j, w) ∷ t) = if j == k then (k, v) ∷ t else (j, w) ∷ put k v t

  pub get-put :
      (k j : Text) (v : V) (t : Table V) → get j (put k v t) ≡ (if k == j then some v else get j t)
  unfolding get put
  get-put k j v [] = refl
  get-put k j v ((i, w) ∷ t) = ground (arith, ==_iff k j, ==_iff i k, ==_iff i j, get-put k j v t)

  pub get-put_self : (k : Text) (v : V) (t : Table V) → get k (put k v t) ≡ some v
  get-put_self k v t = rw (get-put k k v t, (==_iff k k).1 refl)

  pub get-put_ne : (k j : Text) (v : V) (t : Table V) → k ≢ j → get j (put k v t) ≡ get j t
  get-put_ne k j v t h = ground (arith, get-put k j v t)

  -- `update … where key = k and test`: the rows changed, at most one.
  unfoldable pub update : Text → (V → Bool) → (V → V) → Table V → Table V × ℕ
  update k test change t = elim (get k t) [
    | none ↦ (t, 0)
    | some v ↦ elim (test v) [ true ↦ (put k (change v) t, 1) | false ↦ (t, 0) ]
  ]

  -- `insert … on conflict do nothing`, by the primary key.
  unfoldable pub insert_new : Text → V → Table V → Table V × ℕ
  insert_new k v t = elim (get k t) [ none ↦ (put k v t, 1) | some _ ↦ (t, 0) ]

  -- `delete … where key = k`: the keys of a table are distinct.
  unfoldable pub remove : Text → Table V → Table V
  remove k [] = []
  remove k ((j, v) ∷ t) =
      let rest = remove k t in elim (j == k) [ true ↦ rest | false ↦ (j, v) ∷ rest ]

  pub get-remove_self : (k : Text) (t : Table V) → get k (remove k t) ≡ none
  unfolding get remove
  get-remove_self k [] = refl
  get-remove_self k ((j, v) ∷ t) = ground (arith, get-remove_self k t)

  -- `exists (select … where test)`.
  abbrev pub any_row : (Text → V → Bool) → Table V → Bool
  any_row test [] = false
  any_row test ((k, v) ∷ t) = test k v || any_row test t

  -- The rows that pass a test, in order.
  abbrev pub rows_where : (Text → V → Bool) → Table V → Table V
  rows_where test [] = []
  rows_where test ((k, v) ∷ t) =
      let rest = rows_where test t in elim (test k v) [ true ↦ (k, v) ∷ rest | false ↦ rest ]

  -- A predicate on each row and its key.
  abbrev pub Rows : (Text → V → Type 0) → Table V → Type 0
  Rows P [] = Unit
  Rows P ((k, v) ∷ t) = P k v × Rows P t

  -- `update … where …` over every row.
  abbrev pub map_rows : (Text → V → V) → Table V → Table V
  map_rows f [] = []
  map_rows f ((k, v) ∷ t) = (k, f k v) ∷ map_rows f t

  -- `count(*) … where test`.
  abbrev pub count_rows : (Text → V → Bool) → Table V → ℕ
  count_rows test [] = 0
  count_rows test ((k, v) ∷ t) =
      let rest = count_rows test t in elim (test k v) [ true ↦ suc rest | false ↦ rest ]

  pub count_rows-zero :
      (test : Text → V → Bool) (t : Table V)
      → count_rows test t ≡ 0
      → Rows (λ k v. test k v ≡ false) t
  count_rows-zero test [] h = tt
  count_rows-zero test ((k, v) ∷ t) h = ground (arith, count_rows-zero test t)

  pub any_row-false :
      (test : Text → V → Bool) (t : Table V)
      → any_row test t ≡ false
      → Rows (λ k v. test k v ≡ false) t
  any_row-false test [] h = tt
  any_row-false test ((k, v) ∷ t) h = ground (arith, any_row-false test t)

  pub Rows-map :
      {P Q : Text → V → Type 0} (t : Table V)
      → ((k : Text) (v : V) → P k v → Q k v)
      → Rows P t
      → Rows Q t
  Rows-map [] f h = tt
  Rows-map ((k, v) ∷ t) f h = (f k v h.0, Rows-map t f h.1)

  pub Rows-get :
      (P : Text → V → Type 0) (k : Text) (t : Table V) {v : V} → Rows P t → get k t ≡ some v → P k v
  unfolding get
  Rows-get P k [] h e = cc
  Rows-get P k ((j, w) ∷ t) {v = v} h e = elim (Bool-cases (j == k)) [
    | inl hit ↦
        let same : w ≡ v = ground arith in
        subst (λ i. P i v) ((==_iff j k).0 hit) (subst (P j) same h.0)
    | inr miss ↦ Rows-get P k t h.1 (ground arith)
  ]

  pub Rows-put :
      (P : Text → V → Type 0) (k : Text) (v : V) (t : Table V)
      → P k v
      → Rows P t
      → Rows P (put k v t)
  unfolding put
  Rows-put P k v [] p h = (p, tt)
  Rows-put P k v ((j, w) ∷ t) p h = ground (arith, Rows-put P k v t p h.1)

  pub any_row-get :
      (test : Text → V → Bool) (k : Text) (t : Table V) {v : V}
      → get k t ≡ some v
      → test k v ≡ true
      → any_row test t ≡ true
  unfolding get
  any_row-get test k [] e h = cc
  any_row-get test k ((j, w) ∷ t) {v = v} e h =
      ground (arith, ==_iff j k, any_row-get test k t {v = v})
