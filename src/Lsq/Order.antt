-- ===== src/Lsq/Order.antt =====
-- The answers of the translation to a split access come in any order.
-- Code: `SplitDataRequest::finish` of src/cpu/o3/lsq.cc.
use patch_tectreee.Base.{
  ℕ, zero, suc, ◌<◌, ◌≡◌, refl, sym, ap, ◌∙◌, ◌==◌, Option, none, some, List, [], ◌∷◌, length,
  get_elem?, set, All, arith, ==-eq, Bool-cases, ◌⊎◌, inl, inr, length-set, get_elem?-set_same,
  get_elem?-set_other, List-ext, OneOf,
}
use patch_tectreee.Lsq.Answers.{}

-- An order of the numbers below `n`, each once.
pub record IsOrder (n : ℕ) (is : List ℕ) : Type 0 where
  pub as_many : length is ≡ n
  pub below : All (λ i. i < n) is
  pub all_there : (i : ℕ) → i < n → OneOf i is

module _ {F : Type 0} where
  -- The answer to the fragment `i`.
  abbrev pub fault_at : List (Option F) → ℕ → Option F
  fault_at [] i = none
  fault_at (f ∷ fs) zero = f
  fault_at (f ∷ fs) (suc i) = fault_at fs i

  pub get_elem?-fault_at :
      (fs : List (Option F)) (i : ℕ) → i < length fs → get_elem? fs i ≡ some (fault_at fs i)
  get_elem?-fault_at [] i h = absurd (omega arith)
  get_elem?-fault_at (f ∷ fs) zero h = refl
  get_elem?-fault_at (f ∷ fs) (suc i) h = get_elem?-fault_at fs i (omega arith)

  -- The faults after the answers to `is`.
  unfoldable pub writes : List (Option F) → List (Option F) → List ℕ → List (Option F)
  writes old fs [] = old
  writes old fs (i ∷ is) = writes (set old i (fault_at fs i)) fs is

  length-writes : (old fs : List (Option F)) (is : List ℕ) → length (writes old fs is) ≡ length old
  unfolding writes
  length-writes old fs [] = refl
  length-writes old fs (i ∷ is) =
      length-writes (set old i (fault_at fs i)) fs is ∙ length-set old i (fault_at fs i)

  get_elem?-writes :
      (old fs : List (Option F)) (is : List ℕ) (i : ℕ)
      → length old ≡ length fs
      → i < length fs
      → (get_elem? old i ≡ get_elem? fs i) ⊎ OneOf i is
      → get_elem? (writes old fs is) i ≡ get_elem? fs i
  unfolding writes
  get_elem?-writes old fs [] i n h (inl e) = e
  get_elem?-writes old fs [] i n h (inr e) = absurd e
  get_elem?-writes old fs (j ∷ is) i n h c =
      let new = set old j (fault_at fs j) in
      let len : length new ≡ length fs = length-set old j (fault_at fs j) ∙ n in
      elim (Bool-cases (j == i)) [
        | inl here ↦
            let e = ==-eq j i here in
            get_elem?-writes new fs is i len h (
              inl (
                ap (get_elem? new) (sym e)
                ∙ get_elem?-set_same old j (fault_at fs j) (omega (arith, n, e))
                ∙ ap (λ k. some (fault_at fs k)) e
                ∙ sym (get_elem?-fault_at fs i h)))
        | inr away ↦
            let other =
              get_elem?-set_other old j i (fault_at fs j) (λ e. ground (arith, away, e)) in
            get_elem?-writes new fs is i len h (elim c [
              | inl e ↦ inl (other ∙ e)
              | inr k ↦ elim k [ inl e ↦ absurd (ground (arith, away, e)) | inr m ↦ inr m ]
            ])
      ]

  -- After an answer to each fragment the faults are the answers.
  pub writes-IsOrder :
      (old fs : List (Option F)) (is : List ℕ)
      → length old ≡ length fs
      → IsOrder (length fs) is
      → writes old fs is ≡ fs
  writes-IsOrder old fs is n o =
      List-ext (writes old fs is) fs (length-writes old fs is ∙ n)
        (λ i h. get_elem?-writes old fs is i n h (inr (o.all_there i h)))
