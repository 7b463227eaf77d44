-- ===== src/Cache/Swept.antt =====
-- Lemmas on the loops over the whole cache of src/mem/ruby/structures/CacheMemory.cc: what they make
-- of the table, of the map and of the invariant.
use patch_tectreee.Base.{
  ℕ, zero, suc, ◌+◌, ◌≡◌, refl, sym, ap, subst, ◌∙◌, inl, inr, Bool, false, Option, none, some,
  List, [], ◌∷◌, map, arith, get_elem?, length, Option-cases,
}
use patch_tectreee.Ruby.{is_not_present}
use patch_tectreee.Cache.Platform.{Platform}
use patch_tectreee.Cache.State.{Entry, CacheMemory, get_cell}
use patch_tectreee.Cache.Access.{set_of}
use patch_tectreee.Cache.Cells.{HasShape}
use patch_tectreee.Cache.Invariant.{IsLine, IsValid, IsPlaced, contents}
use patch_tectreee.Cache.Modify.{Keeps, map_option}
use patch_tectreee.Cache.Sweep.{bit, sweep, htm_set, htm_sets}

module _ (p : Platform) where
  open p use {holds, holds_unlock, unlock, invalidate_entry, invalidate_entry_present}

  -- How many entries of a set, and of a table, meet a test.
  abbrev pub count_set : (Entry p → Bool) → List (Option (Entry p)) → ℕ
  count_set t [] = 0
  count_set t (none ∷ lines) = count_set t lines
  count_set t (some line ∷ lines) = bit (t line) + count_set t lines

  abbrev pub count_sets : (Entry p → Bool) → List (List (Option (Entry p))) → ℕ
  count_sets t [] = 0
  count_sets t (lines ∷ sets) = count_set t lines + count_sets t sets

  abbrev pub reading : Entry p → Bool
  reading e = e.in_htm_read_set

  abbrev pub writing : Entry p → Bool
  writing e = e.in_htm_write_set

  htm_set-eq :
      (f : Entry p → Entry p) (lines : List (Option (Entry p))) (r w : ℕ)
      → htm_set p f lines r w
        ≡ (map (map_option f) lines, r + count_set reading lines, w + count_set writing lines)
  unfolding htm_set
  htm_set-eq f [] r w = ground arith
  htm_set-eq f (none ∷ lines) r w = rw (htm_set-eq f lines r w) refl
  htm_set-eq f (some line ∷ lines) r w =
      rw (htm_set-eq f lines (r + bit line.in_htm_read_set) (w + bit line.in_htm_write_set))
        (ground arith)

  pub htm_sets-eq :
      (f : Entry p → Entry p) (sets : List (List (Option (Entry p)))) (r w : ℕ)
      → htm_sets p f sets r w
        ≡ (sweep p f sets, r + count_sets reading sets, w + count_sets writing sets)
  unfolding htm_sets
  htm_sets-eq f [] r w = ground arith
  htm_sets-eq f (lines ∷ sets) r w =
      rw
        (
          htm_set-eq f lines r w,
          htm_sets-eq f sets (r + count_set reading lines) (w + count_set writing lines),
        )
        (ground arith)

  get_elem?-map :
      (f : Entry p → Entry p) (lines : List (Option (Entry p))) (j : ℕ)
      → get_elem? (map (map_option f) lines) j ≡ map_option (map_option f) (get_elem? lines j)
  get_elem?-map f [] j = refl
  get_elem?-map f (x ∷ lines) zero = refl
  get_elem?-map f (x ∷ lines) (suc j) = get_elem?-map f lines j

  get_cell-sweep :
      (f : Entry p → Entry p) (t : List (List (Option (Entry p)))) (i j : ℕ)
      → get_cell (sweep p f t) i j ≡ map_option (map_option f) (get_cell t i j)
  get_cell-sweep f [] i j = refl
  get_cell-sweep f (x ∷ t) zero j = get_elem?-map f x j
  get_cell-sweep f (x ∷ t) (suc i) j = get_cell-sweep f t i j

  length-map :
      (f : Entry p → Entry p) (lines : List (Option (Entry p)))
      → length (map (map_option f) lines) ≡ length lines
  length-map f [] = refl
  length-map f (x ∷ lines) = ap suc (length-map f lines)

  sweep-HasShape :
      (f : Entry p → Entry p) (n m : ℕ) (t : List (List (Option (Entry p))))
      → HasShape n m t
      → HasShape n m (sweep p f t)
  sweep-HasShape f n m [] h = h
  sweep-HasShape f n m (x ∷ t) h =
      let (len, all) = sweep-HasShape f (length t) m t (refl, h.1.1) in
      (ap suc len ∙ h.0, (length-map f x ∙ h.1.0, all))

  -- A change of the present entries that leaves them in their places.
  abbrev pub KeepsAll : (Entry p → Entry p) → Type 0
  KeepsAll f = (e : Entry p) → is_not_present e.permission ≡ false → Keeps p f e

  unfoldable pub swept : (Entry p → Entry p) → CacheMemory p → CacheMemory p
  swept f c = record c { cache = sweep p f c.cache }

  pub swept-contents :
      (f : Entry p → Entry p) (c : CacheMemory p) (a : ℕ)
      → contents p (swept f c) a ≡ map_option f (contents p c a)
  unfolding swept
  swept-contents f c a = elim (Option-cases (c.tag_index a)) [
    | inl t ↦ ground (arith, t)
    | inr (w, t) ↦ ground (arith, t, get_cell-sweep f c.cache (set_of p c a) w)
  ]

  swept_source :
      (f : Entry p → Entry p) (c : CacheMemory p) (s w : ℕ) (x : Entry p)
      → get_cell (sweep p f c.cache) s w ≡ some (some x)
      → (e : Entry p) × (get_cell c.cache s w ≡ some (some e)) × (f e ≡ x)
  swept_source f c s w x h = go (get_cell c.cache s w) refl
    where
      cells : get_cell (sweep p f c.cache) s w ≡ map_option (map_option f) (get_cell c.cache s w)
      cells = get_cell-sweep f c.cache s w

      go :
          (o : Option (Option (Entry p)))
          → get_cell c.cache s w ≡ o
          → (e : Entry p) × (get_cell c.cache s w ≡ some (some e)) × (f e ≡ x)
      go none q = absurd (ground (arith, q, cells, h))
      go (some none) q = absurd (ground (arith, q, cells, h))
      go (some (some e)) q = (e, q, ground (arith, q, cells, h))

  swept-IsPlaced :
      (f : Entry p → Entry p) (c : CacheMemory p) (s w : ℕ) (x : Entry p)
      → KeepsAll f
      → IsValid p c
      → get_cell (sweep p f c.cache) s w ≡ some (some x)
      → IsPlaced p (swept f c) s w x
  unfolding swept
  swept-IsPlaced f c s w x keep v h =
      let (e, cell, q) = swept_source f c s w x h in
      let place = v.stored s w e cell in
      let keeps = keep e place.present in
      let same : (f e).address ≡ e.address = keeps.same_address in
      let new : IsPlaced p (swept f c) s w (f e) = record {
        in_set = place.in_set ∙ ap (set_of p c) (sym same);
        tagged = ap c.tag_index same ∙ place.tagged;
        knows_set = keeps.same_set ∙ place.knows_set;
        knows_way = keeps.same_way ∙ place.knows_way;
        present = keeps.still_present ∙ place.present;
        aligned = subst (IsLine p) (sym same) place.aligned;
      } in
      subst (IsPlaced p (swept f c) s w) q new

  pub swept-IsValid :
      (f : Entry p → Entry p) (c : CacheMemory p) → KeepsAll f → IsValid p c → IsValid p (swept f c)
  unfolding swept
  swept-IsValid f c keep v = record {
    rows = sweep-HasShape f c.cache_num_sets c.assoc c.cache v.rows;
    handles = v.handles;
    ways = v.ways;
    index_bits = v.index_bits;
    sets_fit = v.sets_fit;
    indexed = λ a w t.
        let (e, cell, q) = v.indexed a w t in
        let place = v.stored _ w e cell in
        (
          f e,
          ground (arith, cell, get_cell-sweep f c.cache (set_of p c a) w),
          (keep e place.present).same_address ∙ q,
        );
    stored = λ s w x h. swept-IsPlaced f c s w x keep v h;
  }
