-- ===== src/Cache/Modify.antt =====
-- Writing an entry through the pointer that `lookup` gives, as `setMRU`, `setLocked` and others do in
-- src/mem/ruby/structures/CacheMemory.cc.
use patch_tectreee.Base.{
  ℕ, ◌≡◌, refl, sym, ap, subst, ◌∙◌, inl, inr, ◌==◌, ◌&&◌, Option, none, some, arith, Option-cases,
  Bool-cases, ==-eq, some-eq, if◌then◌else◌,
}
use patch_tectreee.Ruby.{is_not_present}
use patch_tectreee.Cache.Platform.{Platform}
use patch_tectreee.Cache.State.{Entry, CacheMemory, get_cell}
use patch_tectreee.Cache.Access.{set_of}
use patch_tectreee.Cache.Update.{write, modify}
use patch_tectreee.Cache.Cells.{get_cell-set_cell, set_cell-HasShape}
use patch_tectreee.Cache.Invariant.{
  IsValid, IsPlaced, IsPlaced-written, contents, slots_apart, found,
}

abbrev pub map_option : {A B : Type 0} → (A → B) → Option A → Option B
map_option f none = none
map_option f (some a) = some (f a)

module _ (p : Platform) where
  open p use {
    make_line_address, make_line_address_idem, touch, touch_occupancy, holds, lock, unlock,
  }

  -- The map of `c` with the entry at `a`, if there is one, changed by `f`.
  abbrev pub changed : CacheMemory p → ℕ → (Entry p → Entry p) → ℕ → Option (Entry p)
  changed c a f b = if a == b then map_option f (contents p c b) else contents p c b

  -- A change that leaves an entry in its place.
  pub record Keeps (f : Entry p → Entry p) (e : Entry p) : Type 0 where
    pub same_address : (f e).address ≡ e.address
    pub same_set : (f e).set ≡ e.set
    pub same_way : (f e).way ≡ e.way
    pub still_present : is_not_present (f e).permission ≡ is_not_present e.permission

  module _ (c : CacheMemory p) (a w : ℕ) (e : Entry p) (f : Entry p → Entry p) (v : IsValid p c)
      (t : c.tag_index a ≡ some w) (cell : get_cell c.cache (set_of p c a) w ≡ some (some e))
      (addr : e.address ≡ a) (place : IsPlaced p c (set_of p c a) w e) (keeps : Keeps f e) where
    abbrev written : CacheMemory p
    written = write p c (set_of p c a) w (some (f e))

    written-cell :
        (s w' : ℕ)
        → get_cell written.cache s w'
          ≡ (if set_of p c a == s && w == w' then some (some (f e)) else get_cell c.cache s w')
    written-cell s w' = get_cell-set_cell c.cache (set_of p c a) w s w' (some (f e)) (some e) cell

    contents-written : (b : ℕ) → contents p written b ≡ changed c a f b
    contents-written b = elim (Bool-cases (a == b)) [
      | inl here ↦
          let same = ==-eq a b here in
          ground (
            arith,
            here,
            t,
            cell,
            ap c.tag_index same,
            ap (set_of p c) same,
            written-cell (set_of p c b) w,
          )
      | inr there ↦ elim (Option-cases (c.tag_index b)) [
        | inl t' ↦ ground (arith, t', there)
        | inr (w', t') ↦ ground (
          arith,
          t',
          there,
          slots_apart p c a b w w' v t t' there,
          written-cell (set_of p c b) w',
        )
      ]
    ]

    new_place : IsPlaced p written (set_of p c a) w (f e)
    new_place = record {
      in_set = ap (set_of p c) (sym addr ∙ sym keeps.same_address);
      tagged = ap c.tag_index (keeps.same_address ∙ addr) ∙ t;
      knows_set = keeps.same_set ∙ place.knows_set;
      knows_way = keeps.same_way ∙ place.knows_way;
      present = keeps.still_present ∙ place.present;
      aligned =
          ground
            (arith, keeps.same_address, place.aligned, ap make_line_address keeps.same_address);
    }

    written-indexed :
        (b w' : ℕ)
        → c.tag_index b ≡ some w'
        → (x : Entry p) × (get_cell written.cache (set_of p c b) w' ≡ some (some x))
          × (x.address ≡ b)
    written-indexed b w' t' = elim (Bool-cases (a == b)) [
      | inl here ↦
          let same = ==-eq a b here in
          let way : w ≡ w' = some-eq w w' (sym t ∙ ap c.tag_index same ∙ t') in
          (
            f e,
            ground (arith, way, ap (set_of p c) same, written-cell (set_of p c b) w'),
            keeps.same_address ∙ addr ∙ same,
          )
      | inr there ↦
          let (x, cell', q) = v.indexed b w' t' in
          (
            x,
            ground (
              arith,
              cell',
              slots_apart p c a b w w' v t t' there,
              written-cell (set_of p c b) w',
            ),
            q,
          )
    ]

    written-stored :
        (s w' : ℕ) (x : Entry p)
        → get_cell written.cache s w' ≡ some (some x)
        → IsPlaced p written s w' x
    written-stored s w' x h =
        let cells = written-cell s w' in
        elim (Bool-cases (set_of p c a == s && w == w')) [
          | inl here ↦
              IsPlaced-written p written (set_of p c a) s w w' (f e) x here
                (some-eq (f e) x (ground (arith, cells, h, here))) new_place
          | inr there ↦
              let at = v.stored s w' x (ground (arith, cells, h, there)) in
              record {
                in_set = at.in_set;
                tagged = at.tagged;
                knows_set = at.knows_set;
                knows_way = at.knows_way;
                present = at.present;
                aligned = at.aligned;
              }
        ]

    written-IsValid : IsValid p written
    written-IsValid = record {
      rows =
          set_cell-HasShape c.cache_num_sets c.assoc c.cache (set_of p c a) w (some (f e)) v.rows;
      handles = v.handles;
      ways = v.ways;
      index_bits = v.index_bits;
      sets_fit = v.sets_fit;
      indexed = written-indexed;
      stored = written-stored;
    }

  -- A change through the pointer at an address where the map has an entry: the cache stays
  -- well-formed, and the map changes at that address alone.
  pub modify-contents :
      (c : CacheMemory p) (a : ℕ) (e : Entry p) (f : Entry p → Entry p)
      → IsValid p c
      → contents p c a ≡ some e
      → Keeps f e
      → IsValid p (modify p c a e f) × ((b : ℕ) → contents p (modify p c a e f) b ≡ changed c a f b)
  modify-contents c a e f v h keeps =
      let (w, t, cell, addr, place) = found p c a e v h in
      let same : modify p c a e f ≡ write p c (set_of p c a) w (some (f e)) = rw (t, modify) refl in
      subst (λ d. IsValid p d × ((b : ℕ) → contents p d b ≡ changed c a f b)) (sym same)
        (
          written-IsValid c a w e f v t cell addr place keeps,
          contents-written c a w e f v t cell addr place keeps,
        )
