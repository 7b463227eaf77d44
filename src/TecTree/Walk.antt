-- ===== src/TecTree/Walk.antt =====
-- The walk from an address up to the last level, and the search for the first missing counter.
-- Code: `getParentAddr` of src/mem/ruby/slicc_interface/RubySlicc_Util.hh and `getFirstMissingParent`
-- of learning_gem5/tardis_tso_tectree/TARDISTSO_TECTREE-dir.sm.
use patch_tectreee.Base.{
  ℕ, zero, suc, ◌+◌, ◌≤◌, ◌<◌, ◌≡◌, refl, sym, ap, subst, ◌-◌, ◌⊎◌, inl, inr, Bool, true, false,
  List, [], ◌∷◌, ◌++◌, arith, All, Bool-cases, ◌==◌, if◌then◌else◌, ◌∙◌,
}
use patch_tectreee.TecTree.{get_parent_addr, get_first_missing_parent}
use patch_tectreee.TecTree.Levels.{InLevel, get_parent_addr-InLevel, get_parent_addr-top}

-- The parents of an address, nearest first, until `getParentAddr` gives 0; at most `fuel` of them.
unfoldable pub ancestors : ℕ → ℕ → List ℕ
ancestors zero a = []
ancestors (suc fuel) a =
    let p = get_parent_addr a in let rest = p ∷ ancestors fuel p in if p == 0 then [] else rest

-- The addresses of a list lie in the levels k, k + 1, and so on, one in each, up to level 6.
abbrev pub Climbs : ℕ → List ℕ → Type 0
Climbs k [] = k ≡ 7
Climbs k (p ∷ ps) = InLevel k p × Climbs (suc k) ps

InLevel-pos : (k p : ℕ) → k < 6 → InLevel (suc k) p → (p == 0) ≡ false
InLevel-pos zero p h l = ground arith
InLevel-pos (suc zero) p h l = ground arith
InLevel-pos (suc (suc zero)) p h l = ground arith
InLevel-pos (suc (suc (suc zero))) p h l = ground arith
InLevel-pos (suc (suc (suc (suc zero)))) p h l = ground arith
InLevel-pos (suc (suc (suc (suc (suc zero))))) p h l = ground arith
InLevel-pos (suc (suc (suc (suc (suc (suc k)))))) p h l = absurd (omega arith)

ancestors-step :
    (n k a : ℕ)
    → k < 6
    → InLevel k a
    → ancestors (suc n) a ≡ get_parent_addr a ∷ ancestors n (get_parent_addr a)
unfolding ancestors
ancestors-step n k a h l =
    rw (InLevel-pos k (get_parent_addr a) h (get_parent_addr-InLevel k a h l)) refl

ancestors-top : (n a : ℕ) → InLevel 6 a → ancestors n a ≡ []
unfolding ancestors
ancestors-top zero a l = refl
ancestors-top (suc n) a l = ground (arith, get_parent_addr-top a l)

ancestors-Climbs_top : (n k a : ℕ) → k ≡ 6 → InLevel k a → Climbs (suc k) (ancestors n a)
ancestors-Climbs_top n k a e =
    subst (λ k. InLevel k a → Climbs (suc k) (ancestors n a)) (sym e)
      (λ l. rw (ancestors-top n a l) refl)

ancestors-Climbs_fuel :
    (n j k a : ℕ) → j + k ≡ 6 → j ≤ n → InLevel k a → Climbs (suc k) (ancestors n a)
ancestors-Climbs_fuel n zero k a e h l = ancestors-Climbs_top n k a (omega arith) l
ancestors-Climbs_fuel zero (suc j) k a e h l = absurd (omega arith)
ancestors-Climbs_fuel (suc n) (suc j) k a e h l =
    rw (ancestors-step n k a (omega arith) l)
      (up, ancestors-Climbs_fuel n j (suc k) (get_parent_addr a) (omega arith) (omega arith) up)
  where
    up : InLevel (suc k) (get_parent_addr a)
    up = get_parent_addr-InLevel k a (omega arith) l

-- From an address of level k, up to 6, the walk visits each of the levels k + 1 to 6 once, in order,
-- and ends; any fuel of at least 6 - k steps is enough.
pub ancestors-Climbs :
    (n k a : ℕ) → k ≤ 6 → 6 ≤ n + k → InLevel k a → Climbs (suc k) (ancestors n a)
ancestors-Climbs n k a h f l = ancestors-Climbs_fuel n (6 - k) k a (omega arith) (omega arith) l

-- The first address of a list that is not present, 0 if there is none.
abbrev pub first_missing : (ℕ → Bool) → List ℕ → ℕ
first_missing present [] = 0
first_missing present (p ∷ ps) = if present p then first_missing present ps else p

-- The unrolled search is the search of the list of ancestors.
get_first_missing_parent-eq :
    (present : ℕ → Bool) (a : ℕ)
    → get_first_missing_parent present a ≡ first_missing present (ancestors 6 a)
unfolding get_first_missing_parent ancestors
get_first_missing_parent-eq present a = ground arith

-- `r` is what a search of the list `ps` should give: 0 if all are present, or the first absent one.
abbrev pub Finds : (ℕ → Bool) → List ℕ → ℕ → Type 0
Finds present ps r =
    ((r ≡ 0) × All (λ p. present p ≡ true) ps)
    ⊎ ((before : List ℕ) × (after : List ℕ) × (ps ≡ before ++ r ∷ after)
        × All (λ p. present p ≡ true) before
        × (present r ≡ false))

Finds-present :
    (present : ℕ → Bool) (p : ℕ) (ps : List ℕ) (r : ℕ)
    → present p ≡ true
    → Finds present ps r
    → Finds present (p ∷ ps) r
Finds-present present p ps r e (inl (z, all)) = inl (z, (e, all))
Finds-present present p ps r e (inr (before, after, split, all, absent)) =
    inr (p ∷ before, after, ap (◌∷◌ p) split, (e, all), absent)

first_missing-Finds :
    (present : ℕ → Bool) (ps : List ℕ) → Finds present ps (first_missing present ps)
first_missing-Finds present [] = inl (refl, tt)
first_missing-Finds present (p ∷ ps) = elim (Bool-cases (present p)) [
  | inr e ↦ subst (Finds present (p ∷ ps)) (sym (absent e)) (inr ([], ps, refl, tt, e))
  | inl e ↦
      subst (Finds present (p ∷ ps)) (sym (held e))
        (Finds-present present p ps _ e (first_missing-Finds present ps))
]
  where
    absent : present p ≡ false → first_missing present (p ∷ ps) ≡ p
    absent e = rw e

    held : present p ≡ true → first_missing present (p ∷ ps) ≡ first_missing present ps
    held e = rw e

-- From an address of level k, fuel beyond 6 - k changes nothing.
ancestors-fuel :
    (m n j k a : ℕ) → j + k ≡ 6 → j ≤ m → j ≤ n → InLevel k a → ancestors m a ≡ ancestors n a
ancestors-fuel m n zero k a e hm hn l =
    let six : k ≡ 6 = omega (arith, e) in
    let top : InLevel 6 a = subst (λ i. InLevel i a) six l in
    ancestors-top m a top ∙ sym (ancestors-top n a top)
ancestors-fuel zero n (suc j) k a e hm hn l = absurd (omega arith)
ancestors-fuel (suc m) zero (suc j) k a e hm hn l = absurd (omega arith)
ancestors-fuel (suc m) (suc n) (suc j) k a e hm hn l =
    let k6 : k < 6 = omega (arith, e) in
    let up = get_parent_addr a in
    let rest =
      ancestors-fuel m n j (suc k) up (omega (arith, e)) (omega arith) (omega arith)
        (get_parent_addr-InLevel k a k6 l) in
    ancestors-step m k a k6 l ∙ ap (◌∷◌ up) rest ∙ sym (ancestors-step n k a k6 l)

-- From an address of level k, up to 6, and for every test of presence, the search gives the nearest
-- absent ancestor, all before it being present, and 0 if all are present. The ancestors are those of
-- the whole walk, with any fuel of at least 6 - k steps.
pub get_first_missing_parent-Finds :
    (present : ℕ → Bool) (n k a : ℕ)
    → k ≤ 6
    → 6 ≤ n + k
    → InLevel k a
    → Finds present (ancestors n a) (get_first_missing_parent present a)
get_first_missing_parent-Finds present n k a h f l =
    let same = ancestors-fuel 6 n (6 - k) k a (omega arith) (omega arith) (omega arith) l in
    rw (get_first_missing_parent-eq present a) (
      subst (λ ps. Finds present ps (first_missing present (ancestors 6 a))) same
        (first_missing-Finds present (ancestors 6 a)))
