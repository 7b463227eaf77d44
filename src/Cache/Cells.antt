-- ===== src/Cache/Cells.antt =====
-- Tables as lists of rows: reading after a write, and the shape of a table.
use patch_tectreee.Base.{
  ℕ, zero, suc, ◌<◌, ◌≡◌, refl, ap, ◌∙◌, ◌&&◌, ◌==◌, some, List, [], ◌∷◌, if◌then◌else◌, get_elem?,
  set, replicate, length, All, arith, length-set, get_elem?_lt,
}
use patch_tectreee.Cache.State.{get_cell, set_cell}

module _ {ℓ} {A : Type ℓ} where
  get_elem?-set :
      (r : List A) (j l : ℕ) (v o : A)
      → get_elem? r j ≡ some o
      → get_elem? (set r j v) l ≡ (if j == l then some v else get_elem? r l)
  get_elem?-set [] j l v o h = cc
  get_elem?-set (x ∷ r) zero zero v o h = refl
  get_elem?-set (x ∷ r) zero (suc l) v o h = ground arith
  get_elem?-set (x ∷ r) (suc j) zero v o h = ground arith
  get_elem?-set (x ∷ r) (suc j) (suc l) v o h = ground (arith, get_elem?-set r j l v o h)

  pub lt_get_elem? : (r : List A) (j : ℕ) (v : A) → get_elem? r j ≡ some v → j < length r
  lt_get_elem? [] j v h = cc
  lt_get_elem? (x ∷ r) zero v h = omega arith
  lt_get_elem? (x ∷ r) (suc j) v h = omega (arith, lt_get_elem? r j v h)

  -- Reading a table after a write to a cell that it has.
  pub get_cell-set_cell :
      (t : List (List A)) (i j k l : ℕ) (v o : A)
      → get_cell t i j ≡ some o
      → get_cell (set_cell t i j v) k l ≡ (if i == k && j == l then some v else get_cell t k l)
  get_cell-set_cell [] i j k l v o h = cc
  get_cell-set_cell (r ∷ t) zero j zero l v o h = get_elem?-set r j l v o h
  get_cell-set_cell (r ∷ t) zero j (suc k) l v o h = ground arith
  get_cell-set_cell (r ∷ t) (suc i) j zero l v o h = ground arith
  get_cell-set_cell (r ∷ t) (suc i) j (suc k) l v o h =
      ground (arith, get_cell-set_cell t i j k l v o h)

  pub get_cell-row :
      (t : List (List A)) (i j : ℕ) (r : List A)
      → get_elem? t i ≡ some r
      → get_cell t i j ≡ get_elem? r j
  get_cell-row [] i j r h = cc
  get_cell-row (x ∷ t) zero j r h = ground arith
  get_cell-row (x ∷ t) (suc i) j r h = get_cell-row t i j r h

  -- A table of `n` rows of `m` elements.
  abbrev pub HasShape : ℕ → ℕ → List (List A) → Type 0
  HasShape n m t = (length t ≡ n) × All (λ r. length r ≡ m) t

  All-set_cell :
      (m : ℕ) (t : List (List A)) (i j : ℕ) (v : A)
      → All (λ r. length r ≡ m) t
      → All (λ r. length r ≡ m) (set_cell t i j v)
  All-set_cell m [] i j v h = tt
  All-set_cell m (r ∷ t) zero j v h = (length-set r j v ∙ h.0, h.1)
  All-set_cell m (r ∷ t) (suc i) j v h = (h.0, All-set_cell m t i j v h.1)

  length-set_cell : (t : List (List A)) (i j : ℕ) (v : A) → length (set_cell t i j v) ≡ length t
  length-set_cell [] i j v = refl
  length-set_cell (r ∷ t) zero j v = refl
  length-set_cell (r ∷ t) (suc i) j v = ap suc (length-set_cell t i j v)

  pub set_cell-HasShape :
      (n m : ℕ) (t : List (List A)) (i j : ℕ) (v : A)
      → HasShape n m t
      → HasShape n m (set_cell t i j v)
  set_cell-HasShape n m t i j v h = (length-set_cell t i j v ∙ h.0, All-set_cell m t i j v h.1)

  row_of :
      (m : ℕ) (t : List (List A)) (i : ℕ)
      → i < length t
      → All (λ r. length r ≡ m) t
      → (r : List A) × (get_elem? t i ≡ some r) × (length r ≡ m)
  row_of m [] i h all = absurd (omega arith)
  row_of m (r ∷ t) zero h all = (r, refl, all.0)
  row_of m (r ∷ t) (suc i) h all = row_of m t i (omega arith) all.1

  pub HasShape-row :
      (n m : ℕ) (t : List (List A)) (i : ℕ)
      → HasShape n m t
      → i < n
      → (r : List A) × (get_elem? t i ≡ some r) × (length r ≡ m)
  HasShape-row n m t i h l = row_of m t i (omega arith) h.1

  -- A cell of the table is in range.
  pub HasShape-cell :
      (n m : ℕ) (t : List (List A)) (i j : ℕ)
      → HasShape n m t
      → i < n
      → j < m
      → (v : A) × (get_cell t i j ≡ some v)
  HasShape-cell n m t i j h l k =
      let (r, e, q) = HasShape-row n m t i h l in
      let (v, f) = get_elem?_lt r j (omega arith) in (v, get_cell-row t i j r e ∙ f)

  pub All-replicate {κ} : (P : A → Type κ) (n : ℕ) (a : A) → P a → All P (replicate n a)
  All-replicate P zero a h = tt
  All-replicate P (suc n) a h = (h, All-replicate P n a h)

  pub length-replicate : (n : ℕ) (a : A) → length (replicate n a) ≡ n
  length-replicate zero a = refl
  length-replicate (suc n) a = ap suc (length-replicate n a)
