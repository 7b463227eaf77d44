-- ===== src/Cache/Placing.antt =====
-- An entry put into a null slot, as `CacheMemory::allocate` does: the map and the invariant.
-- Code: src/mem/ruby/structures/CacheMemory.cc.
use patch_tectreee.Base.{
  ℕ, suc, ◌+◌, ◌≡◌, ◌≢◌, refl, ap, ◌∙◌, inl, inr, true, ◌==◌, ◌&&◌, Option, none, some, arith,
  Option-cases, Bool-cases, get_elem?, List, [], ◌∷◌, ==-eq, if◌then◌else◌,
}
use patch_tectreee.Ruby.{is_not_present}
use patch_tectreee.Cache.Platform.{Platform}
use patch_tectreee.Cache.State.{Entry, CacheMemory, get_cell}
use patch_tectreee.Cache.Access.{set_of, row_avail}
use patch_tectreee.Cache.Update.{first_open, write, put_tag}
use patch_tectreee.Cache.Cells.{get_cell-set_cell, set_cell-HasShape}
use patch_tectreee.Cache.Invariant.{IsPlaced-written, IsValid, IsPlaced, contents, contents-none}

module _ (p : Platform) where
  open p use {make_line_address, reset}

  -- What the search finds: the way `i + k` of a row whose way 0 is number `i`.
  pub first_open-some :
      (i j : ℕ) (row : List (Option (Entry p)))
      → first_open p i row ≡ some j
      → (k : ℕ) × (j ≡ i + k)
        × (o : Option (Entry p)) × (get_elem? row k ≡ some o)
        × ((e : Entry p) → o ≡ some e → is_not_present e.permission ≡ true)
  unfolding first_open
  first_open-some i j [] h = cc
  first_open-some i j (none ∷ row) h = (0, ground arith, none, refl, λ e q. absurd (cc))
  first_open-some i j (some x ∷ row) h = elim (Bool-cases (is_not_present x.permission)) [
    | inl gone ↦ (0, ground arith, some x, refl, λ e q. ground arith)
    | inr here ↦
        let (k, n, o, cell, gone) = first_open-some (suc i) j row (ground arith) in
        (suc k, omega (arith, n), o, cell, gone)
  ]

  -- A row that has room, and no entry of the address, has an open slot.
  pub first_open-row_avail :
      (i a : ℕ) (row : List (Option (Entry p)))
      → row_avail p a row ≡ true
      → ((k : ℕ) (e : Entry p) → get_elem? row k ≡ some (some e) → e.address ≢ a)
      → (j : ℕ) × (first_open p i row ≡ some j)
  unfolding first_open row_avail
  first_open-row_avail i a [] h other = cc
  first_open-row_avail i a (none ∷ row) h other = (i, refl)
  first_open-row_avail i a (some x ∷ row) h other =
      elim (Bool-cases (is_not_present x.permission)) [
        | inl gone ↦ (i, ground arith)
        | inr here ↦
            let (j, e) =
              first_open-row_avail (suc i) a row (ground (arith, other 0 x refl))
                (λ k. other (suc k)) in
            (j, ground arith)
      ]

  -- The cache with `e` placed in way `w` of the set of `a`.
  abbrev pub allocated : CacheMemory p → ℕ → Entry p → ℕ → CacheMemory p
  allocated c a e w = record (write p c (set_of p c a) w (some e)) {
    tag_index = put_tag p c.tag_index a (some w);
    policy = reset e.replacement_data c.policy;
  }

  -- In a well-formed cache an open slot is a null pointer.
  pub slot_null :
      (c : CacheMemory p) (s w : ℕ) (o : Option (Entry p))
      → IsValid p c
      → get_cell c.cache s w ≡ some o
      → ((e : Entry p) → o ≡ some e → is_not_present e.permission ≡ true)
      → get_cell c.cache s w ≡ some none
  slot_null c s w none v h gone = h
  slot_null c s w (some e) v h gone =
      absurd (ground (arith, gone e refl, (v.stored s w e h).present))

  pub no_entry :
      (c : CacheMemory p) (a s w : ℕ) (e : Entry p)
      → IsValid p c
      → contents p c a ≡ none
      → get_cell c.cache s w ≡ some (some e)
      → e.address ≢ a
  no_entry c a s w e v empty h q =
      let place = v.stored s w e h in
      let t = contents-none p c a v empty in
      absurd (ground (arith, place.tagged, ap c.tag_index q, t))

  pub contents-allocated :
      (c : CacheMemory p) (a b w : ℕ) (e : Entry p)
      → IsValid p c
      → contents p c a ≡ none
      → get_cell c.cache (set_of p c a) w ≡ some none
      → contents p (allocated c a e w) b ≡ (if a == b then some e else contents p c b)
  contents-allocated c a b w e v empty null = elim (Option-cases (c.tag_index b)) [
    | inl t ↦
        ground
          (arith, t, get_cell-set_cell c.cache (set_of p c a) w (set_of p c b) w (some e) none null)
    | inr (w', t) ↦
        let (x, cell, addr) = v.indexed b w' t in
        ground (
          arith,
          t,
          cell,
          null,
          contents-none p c a v empty,
          get_cell-set_cell c.cache (set_of p c a) w (set_of p c b) w' (some e) none null,
        )
  ]

  module _ (c : CacheMemory p) (a w : ℕ) (e : Entry p) (v : IsValid p c)
      (empty : contents p c a ≡ none) (null : get_cell c.cache (set_of p c a) w ≡ some none)
      (new : IsPlaced p (allocated c a e w) (set_of p c a) w e) (addr : e.address ≡ a) where
    allocated-indexed :
        (b w' : ℕ)
        → put_tag p c.tag_index a (some w) b ≡ some w'
        → (x : Entry p) × (get_cell (allocated c a e w).cache (set_of p c b) w' ≡ some (some x))
          × (x.address ≡ b)
    allocated-indexed b w' t = elim (Bool-cases (a == b)) [
      | inl here ↦ (
        e,
        ground (
          arith,
          t,
          here,
          ap (set_of p c) (==-eq a b here),
          get_cell-set_cell c.cache (set_of p c a) w (set_of p c b) w' (some e) none null,
        ),
        addr ∙ ==-eq a b here,
      )
      | inr there ↦
          let (x, cell, q) = v.indexed b w' (ground (arith, t, there)) in
          (
            x,
            ground (
              arith,
              cell,
              null,
              get_cell-set_cell c.cache (set_of p c a) w (set_of p c b) w' (some e) none null,
            ),
            q,
          )
    ]

    allocated-stored :
        (s w' : ℕ) (x : Entry p)
        → get_cell (allocated c a e w).cache s w' ≡ some (some x)
        → IsPlaced p (allocated c a e w) s w' x
    allocated-stored s w' x h =
        let cells = get_cell-set_cell c.cache (set_of p c a) w s w' (some e) none null in
        elim (Bool-cases (set_of p c a == s && w == w')) [
          | inl here ↦
              IsPlaced-written p (allocated c a e w) (set_of p c a) s w w' e x here
                (ground (arith, cells, h, here)) new
          | inr there ↦
              let old : get_cell c.cache s w' ≡ some (some x) = ground (arith, cells, h, there) in
              let place = v.stored s w' x old in
              let other = no_entry c a s w' x v empty old in
              record {
                in_set = place.in_set;
                tagged = ground (arith, other, place.tagged);
                knows_set = place.knows_set;
                knows_way = place.knows_way;
                present = place.present;
                aligned = place.aligned;
              }
        ]

    pub allocated-IsValid : IsValid p (allocated c a e w)
    allocated-IsValid = record {
      rows = set_cell-HasShape c.cache_num_sets c.assoc c.cache (set_of p c a) w (some e) v.rows;
      handles = v.handles;
      ways = v.ways;
      index_bits = v.index_bits;
      sets_fit = v.sets_fit;
      indexed = allocated-indexed;
      stored = allocated-stored;
    }
