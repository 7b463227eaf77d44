-- ===== src/Cache/Room.antt =====
-- `CacheMemory::cacheAvail` of src/mem/ruby/structures/CacheMemory.cc: room in a set.
use patch_tectreee.Base.{
  ℕ, zero, suc, ◌<◌, ◌≡◌, ◌≢◌, refl, sym, ap, ◌∙◌, ◌⊎◌, inl, inr, true, false, ◌==◌, ◌||◌, Option,
  none, some, List, [], ◌∷◌, arith, Bool-cases, Option-cases, get_elem?, length, ==-eq,
}
use patch_tectreee.Base.Outcome.{ok}
use patch_tectreee.Ruby.{is_not_present}
use patch_tectreee.Cache.Platform.{Platform}
use patch_tectreee.Cache.State.{Entry, CacheMemory, get_cell}
use patch_tectreee.Cache.Access.{set_of, row_avail, cache_avail}
use patch_tectreee.Cache.Cells.{HasShape-row, get_cell-row}
use patch_tectreee.Cache.Invariant.{
  IsLine, IsValid, contents, address_to_cache_set-line, found, set_of-lt,
}

module _ (p : Platform) where
  -- `cacheAvail` is the test of the row that the address names.
  pub row_of_avail :
      (c : CacheMemory p) (a : ℕ) (row : List (Option (Entry p)))
      → IsLine p a
      → get_elem? c.cache (set_of p c a) ≡ some row
      → cache_avail p c a ≡ ok (row_avail p a row)
  unfolding cache_avail
  row_of_avail c a row l e = rw (l, address_to_cache_set-line p c a l, e) refl

  row_avail-null :
      (a k : ℕ) (row : List (Option (Entry p)))
      → get_elem? row k ≡ some none
      → row_avail p a row ≡ true
  unfolding row_avail
  row_avail-null a k [] h = cc
  row_avail-null a k (none ∷ row) h = refl
  row_avail-null a zero (some x ∷ row) h = cc
  row_avail-null a (suc k) (some x ∷ row) h = ground (arith, row_avail-null a k row h)

  row_avail_hit :
      (a k : ℕ) (row : List (Option (Entry p))) (e : Entry p)
      → get_elem? row k ≡ some (some e)
      → e.address ≡ a
      → row_avail p a row ≡ true
  unfolding row_avail
  row_avail_hit a k [] e h q = cc
  row_avail_hit a k (none ∷ row) e h q = refl
  row_avail_hit a zero (some x ∷ row) e h q = ground (arith, h, q)
  row_avail_hit a (suc k) (some x ∷ row) e h q = ground (arith, row_avail_hit a k row e h q)

  -- A row without room has entries only, all present and none of the address.
  row_full :
      (a k : ℕ) (row : List (Option (Entry p)))
      → row_avail p a row ≡ false
      → k < length row
      → (e : Entry p) × (get_elem? row k ≡ some (some e)) × (e.address ≢ a)
  unfolding row_avail
  row_full a k [] h l = absurd (omega arith)
  row_full a k (none ∷ row) h l = cc
  row_full a zero (some x ∷ row) h l = (x, refl, λ q. ground (arith, q, h))
  row_full a (suc k) (some x ∷ row) h l = row_full a k row (ground (arith, h)) (omega arith)

  row_avail-true :
      (a : ℕ) (row : List (Option (Entry p)))
      → row_avail p a row ≡ true
      → (k : ℕ) × (o : Option (Entry p)) × (get_elem? row k ≡ some o)
        × ((e : Entry p) → o ≡ some e → ((e.address == a) || is_not_present e.permission) ≡ true)
  unfolding row_avail
  row_avail-true a [] h = cc
  row_avail-true a (none ∷ row) h = (0, none, refl, λ e q. absurd (cc))
  row_avail-true a (some x ∷ row) h =
      elim (Bool-cases ((x.address == a) || is_not_present x.permission)) [
        | inl yes_here ↦ (0, some x, refl, λ e q. ground (arith, q, yes_here))
        | inr not_here ↦
            let (k, o, q, why) = row_avail-true a row (ground (arith, h, not_here)) in
            (suc k, o, q, why)
      ]

  -- The two ways in which a slot gives room.
  slot_room :
      (c : CacheMemory p) (a w : ℕ) (o : Option (Entry p))
      → IsValid p c
      → get_cell c.cache (set_of p c a) w ≡ some o
      → ((e : Entry p) → o ≡ some e → ((e.address == a) || is_not_present e.permission) ≡ true)
      → ((e : Entry p) × (contents p c a ≡ some e))
        ⊎ ((k : ℕ) × (get_cell c.cache (set_of p c a) k ≡ some none))
  slot_room c a w none v h why = inr (w, h)
  slot_room c a w (some e) v h why =
      let place = v.stored (set_of p c a) w e h in
      let same : e.address ≡ a = ==-eq e.address a (ground (arith, why e refl, place.present)) in
      inl (e, ground (arith, h, ap c.tag_index same, place.tagged))

  -- A null slot in the set of `b` gives room for `b`.
  pub cache_avail-null :
      (c : CacheMemory p) (b w : ℕ)
      → IsValid p c
      → IsLine p b
      → get_cell c.cache (set_of p c b) w ≡ some none
      → cache_avail p c b ≡ ok true
  cache_avail-null c b w v l h =
      let (row, e, n) =
        HasShape-row c.cache_num_sets c.assoc c.cache (set_of p c b) v.rows (set_of-lt p c b v) in
      row_of_avail c b row l e
      ∙ ap ok (row_avail-null b w row (sym (get_cell-row c.cache (set_of p c b) w row e) ∙ h))

  -- Where the map has an entry there is room.
  pub cache_avail-hit :
      (c : CacheMemory p) (a : ℕ) (e : Entry p)
      → IsValid p c
      → IsLine p a
      → contents p c a ≡ some e
      → cache_avail p c a ≡ ok true
  cache_avail-hit c a e v l h =
      let (w, t, cell, addr, place) = found p c a e v h in
      let (row, q, n) =
        HasShape-row c.cache_num_sets c.assoc c.cache (set_of p c a) v.rows (set_of-lt p c a v) in
      row_of_avail c a row l q
      ∙ ap ok
          (row_avail_hit a w row e (sym (get_cell-row c.cache (set_of p c a) w row q) ∙ cell) addr)

  full_lacks :
      (c : CacheMemory p) (a : ℕ)
      → IsValid p c
      → IsLine p a
      → cache_avail p c a ≡ ok false
      → contents p c a ≡ none
  full_lacks c a v l full = elim (Option-cases (contents p c a)) [
    | inl h ↦ h
    | inr (e, h) ↦ absurd (ground (arith, full, cache_avail-hit c a e v l h))
  ]

  -- A set in which each of the ways holds an entry, none of it for the address.
  abbrev pub IsFull : CacheMemory p → ℕ → Type 0
  IsFull c a =
      (w : ℕ)
      → w < c.assoc
      → (e : Entry p) × (get_cell c.cache (set_of p c a) w ≡ some (some e)) × (e.address ≢ a)

  -- On a well-formed cache `cacheAvail` of a line address succeeds. It says yes exactly if the map has
  -- an entry there or a slot of its set is null; if it says no, every way of the set holds an entry of
  -- another address, and the map has none at this one.
  pub cache_avail-cases :
      (c : CacheMemory p) (a : ℕ)
      → IsValid p c
      → IsLine p a
      → ((cache_avail p c a ≡ ok true)
          × (((e : Entry p) × (contents p c a ≡ some e))
              ⊎ ((w : ℕ) × (get_cell c.cache (set_of p c a) w ≡ some none))))
        ⊎ ((cache_avail p c a ≡ ok false) × IsFull c a × (contents p c a ≡ none))
  cache_avail-cases c a v l =
      let (row, q, n) =
        HasShape-row c.cache_num_sets c.assoc c.cache (set_of p c a) v.rows (set_of-lt p c a v) in
      let cell = λ (k : ℕ). get_cell-row c.cache (set_of p c a) k row q in
      let avail = row_of_avail c a row l q in
      elim (Bool-cases (row_avail p a row)) [
        | inl room ↦
            let (w, o, at, why) = row_avail-true a row room in
            inl (avail ∙ ap ok room, slot_room c a w o v (cell w ∙ at) why)
        | inr full ↦ inr (
          avail ∙ ap ok full,
          (λ w h.
              let (e, at, other) = row_full a w row full (omega (arith, n)) in
              (e, cell w ∙ at, other)),
          full_lacks c a v l (avail ∙ ap ok full),
        )
      ]
