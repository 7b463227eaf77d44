-- ===== src/Cache/Deallocate.antt =====
-- `CacheMemory::deallocate` of src/mem/ruby/structures/CacheMemory.cc.
use mathlib.Core.Path.{ap₂}
use patch_tectreee.Base.{
  ℕ, ◌≡◌, refl, sym, ap, ◌∙◌, inl, inr, true, ◌==◌, ◌&&◌, none, some, arith, Option-cases,
  Bool-cases, ==-eq, ==_refl, some-eq, if◌then◌else◌,
}
use patch_tectreee.Base.Outcome.{ok, abort}
use patch_tectreee.Cache.Platform.{Platform}
use patch_tectreee.Cache.State.{Entry, CacheMemory, get_cell}
use patch_tectreee.Cache.Access.{set_of, cache_avail}
use patch_tectreee.Cache.Room.{cache_avail-null}
use patch_tectreee.Cache.Update.{deallocate, write, put_tag}
use patch_tectreee.Cache.Cells.{get_cell-set_cell, set_cell-HasShape}
use patch_tectreee.Cache.Invariant.{
  IsLine, IsValid, IsPlaced, contents, lookup-contents, slots_apart, found,
}

module _ (p : Platform) where
  open p use {invalidate}

  abbrev deallocated : CacheMemory p → ℕ → Entry p → CacheMemory p
  deallocated c a e = record (write p c e.set e.way none) {
    tag_index = put_tag p c.tag_index a none;
    policy = invalidate e.replacement_data c.policy;
  }

  module _ (c : CacheMemory p) (a w : ℕ) (e : Entry p) (v : IsValid p c)
      (t : c.tag_index a ≡ some w) (cell : get_cell c.cache (set_of p c a) w ≡ some (some e))
      (addr : e.address ≡ a) (place : IsPlaced p c (set_of p c a) w e) where
    own_cell : get_cell c.cache e.set e.way ≡ some (some e)
    own_cell = ap₂ (get_cell c.cache) place.knows_set place.knows_way ∙ cell

    deallocated-cell :
        (s w' : ℕ)
        → get_cell (deallocated c a e).cache s w'
          ≡ (if set_of p c a == s && w == w' then some none else get_cell c.cache s w')
    deallocated-cell s w' = ground (
      arith,
      place.knows_set,
      place.knows_way,
      get_cell-set_cell c.cache e.set e.way s w' none (some e) own_cell,
    )

    contents-deallocated :
        (b : ℕ) → contents p (deallocated c a e) b ≡ (if a == b then none else contents p c b)
    contents-deallocated b = elim (Bool-cases (a == b)) [
      | inl here ↦ ground (arith, here)
      | inr there ↦ elim (Option-cases (c.tag_index b)) [
        | inl t' ↦ ground (arith, t', there)
        | inr (w', t') ↦ ground (
          arith,
          t',
          there,
          slots_apart p c a b w w' v t t' there,
          deallocated-cell (set_of p c b) w',
        )
      ]
    ]

    deallocated-indexed :
        (b w' : ℕ)
        → put_tag p c.tag_index a none b ≡ some w'
        → (x : Entry p) × (get_cell (deallocated c a e).cache (set_of p c b) w' ≡ some (some x))
          × (x.address ≡ b)
    deallocated-indexed b w' h = elim (Bool-cases (a == b)) [
      | inl here ↦ absurd (ground (arith, h, here))
      | inr there ↦
          let old : c.tag_index b ≡ some w' = ground (arith, h, there) in
          let (x, cell', q) = v.indexed b w' old in
          (
            x,
            ground (
              arith,
              cell',
              slots_apart p c a b w w' v t old there,
              deallocated-cell (set_of p c b) w',
            ),
            q,
          )
    ]

    -- An entry that is left has another address.
    still_tagged :
        (s w' : ℕ) (x : Entry p)
        → get_cell (deallocated c a e).cache s w' ≡ some (some x)
        → get_cell c.cache s w' ≡ some (some x)
        → put_tag p c.tag_index a none x.address ≡ some w'
    still_tagged s w' x h old = elim (Bool-cases (a == x.address)) [
      | inr there ↦ ground (arith, there, (v.stored s w' x old).tagged)
      | inl here ↦
          let at = v.stored s w' x old in
          let same = ==-eq a x.address here in
          let way : w ≡ w' = some-eq w w' (sym t ∙ ap c.tag_index same ∙ at.tagged) in
          let row : set_of p c a ≡ s = ap (set_of p c) same ∙ sym at.in_set in
          absurd (ground (arith, deallocated-cell s w', h, way, row))
    ]

    deallocated-stored :
        (s w' : ℕ) (x : Entry p)
        → get_cell (deallocated c a e).cache s w' ≡ some (some x)
        → IsPlaced p (deallocated c a e) s w' x
    deallocated-stored s w' x h =
        let cells = deallocated-cell s w' in
        let old : get_cell c.cache s w' ≡ some (some x) = ground (arith, cells, h) in
        let at = v.stored s w' x old in
        record {
          in_set = at.in_set;
          tagged = still_tagged s w' x h old;
          knows_set = at.knows_set;
          knows_way = at.knows_way;
          present = at.present;
          aligned = at.aligned;
        }

    deallocated-IsValid : IsValid p (deallocated c a e)
    deallocated-IsValid = record {
      rows = set_cell-HasShape c.cache_num_sets c.assoc c.cache e.set e.way none v.rows;
      handles = v.handles;
      ways = v.ways;
      index_bits = v.index_bits;
      sets_fit = v.sets_fit;
      indexed = deallocated-indexed;
      stored = deallocated-stored;
    }

  -- On a well-formed cache, at a line address where the map has an entry, `deallocate` succeeds: the
  -- cache stays well-formed, the map loses that address and is otherwise unchanged, and the policy is
  -- told to invalidate the entry's replacement data. After it `cacheAvail` holds at each line address
  -- of the same set.
  pub deallocate-contents :
      (c : CacheMemory p) (a : ℕ) (e : Entry p)
      → IsValid p c
      → IsLine p a
      → contents p c a ≡ some e
      → (c' : CacheMemory p) × (deallocate p c a ≡ ok c')
        × IsValid p c'
        × ((b : ℕ) → contents p c' b ≡ (if a == b then none else contents p c b))
        × (c'.policy ≡ invalidate e.replacement_data c.policy)
        × ((b : ℕ) → IsLine p b → set_of p c a ≡ set_of p c b → cache_avail p c' b ≡ ok true)
  unfolding deallocate
  deallocate-contents c a e v l h =
      let (w, t, cell, addr, place) = found p c a e v h in
      (
        deallocated c a e,
        rw (lookup-contents p c a v l, h, own_cell c a w e v t cell addr place) refl,
        deallocated-IsValid c a w e v t cell addr place,
        contents-deallocated c a w e v t cell addr place,
        refl,
        (λ b lb same.
            cache_avail-null p (deallocated c a e) b w
              (deallocated-IsValid c a w e v t cell addr place) lb
              (ground (
                arith,
                same,
                deallocated-cell c a w e v t cell addr place (set_of p c b) w,
                ==_refl w,
              ))),
      )

  -- Where the map has no entry, `deallocate` fails.
  pub deallocate-missing :
      (c : CacheMemory p) (a : ℕ)
      → IsValid p c
      → IsLine p a
      → contents p c a ≡ none
      → deallocate p c a ≡ abort
  unfolding deallocate
  deallocate-missing c a v l h = rw (lookup-contents p c a v l, h) refl
