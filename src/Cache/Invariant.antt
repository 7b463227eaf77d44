-- ===== src/Cache/Invariant.antt =====
-- What a well-formed cache is, and the map from addresses to entries that it stands for.
-- Code: src/mem/ruby/structures/CacheMemory.cc.
use patch_tectreee.Base.{
  ℕ, ◌<◌, ◌≤◌, ◌+◌, ◌-◌, ◌^◌, ◌≡◌, refl, ap, sym, ◌∙◌, inl, inr, true, false, ◌==◌, Option, none,
  some, arith, Option-cases, Bool-cases, some-eq, ==-eq, ◌&&◌,
}
use mathlib.Core.Path.{subst₃, ap₂}
use patch_tectreee.Base.Outcome.{ok}
use patch_tectreee.Ruby.{is_not_present}
use patch_tectreee.Cache.Platform.{Platform}
use patch_tectreee.Cache.State.{Entry, CacheMemory, Stats, get_cell}
use patch_tectreee.Cache.Access.{address_to_cache_set, set_of, lookup, is_tag_present}
use patch_tectreee.Cache.Cells.{HasShape}

module _ (p : Platform) where
  open p use {make_line_address, bit_select_bound}

  -- `assert(address == makeLineAddress(address))` holds.
  abbrev pub IsLine : ℕ → Type 0
  IsLine a = (a == make_line_address a) ≡ true

  -- The entry `e` agrees with its place, row `s` and way `w`, and with the tag index.
  pub record IsPlaced (c : CacheMemory p) (s w : ℕ) (e : Entry p) : Type 0 where
    pub in_set : s ≡ set_of p c e.address
    pub tagged : c.tag_index e.address ≡ some w
    pub knows_set : e.set ≡ s
    pub knows_way : e.way ≡ w
    pub present : is_not_present e.permission ≡ false
    pub aligned : IsLine e.address

  -- A slot that equals the one just written holds what was written.
  pub IsPlaced-written :
      (c : CacheMemory p) (s s' w w' : ℕ) (e e' : Entry p)
      → (s == s' && w == w') ≡ true
      → e ≡ e'
      → IsPlaced c s w e
      → IsPlaced c s' w' e'
  IsPlaced-written c s s' w w' e e' h q =
      subst₃ (IsPlaced c) (==-eq s s' (ground (arith, h))) (==-eq w w' (ground (arith, h))) q

  -- The tables have their shape, an index of `num_set_bits` bits names a set, each tag leads to the
  -- entry of its address, and each entry of the table agrees with its place.
  pub record IsValid (c : CacheMemory p) : Type 0 where
    pub rows : HasShape c.cache_num_sets c.assoc c.cache
    pub handles : HasShape c.cache_num_sets c.assoc c.replacement_data
    pub ways : 0 < c.assoc
    pub index_bits : 0 < c.cache_num_set_bits
    pub sets_fit : 2 ^ c.cache_num_set_bits ≤ c.cache_num_sets
    pub indexed :
        (a w : ℕ)
        → c.tag_index a ≡ some w
        → (e : Entry p) × (get_cell c.cache (set_of p c a) w ≡ some (some e)) × (e.address ≡ a)
    pub stored : (s w : ℕ) (e : Entry p) → get_cell c.cache s w ≡ some (some e) → IsPlaced c s w e

  abbrev pub flatten : Option (Option (Entry p)) → Option (Entry p)
  flatten none = none
  flatten (some o) = o

  -- The map that the cache stands for: the entry that the tag index leads to.
  abbrev pub contents : CacheMemory p → ℕ → Option (Entry p)
  contents c a = elim (c.tag_index a) [
    | none ↦ none
    | some w ↦ flatten (get_cell c.cache (set_of p c a) w)
  ]

  -- The set of an address is in range.
  pub set_of-lt : (c : CacheMemory p) (a : ℕ) → IsValid c → set_of p c a < c.cache_num_sets
  set_of-lt c a v =
      let lo = c.start_index_bit in
      let bits = c.cache_num_set_bits in
      let width : lo + bits - 1 + 1 - lo ≡ bits = omega (arith, v.index_bits) in
      omega (
        arith,
        v.sets_fit,
        ap (λ (n : ℕ). 2 ^ n) width,
        bit_select_bound a lo (lo + bits - 1) (omega (arith, v.index_bits)),
      )

  -- What is in the map at an address stands in the slot that the tag index names.
  pub contents-some :
      (c : CacheMemory p) (a : ℕ) (e : Entry p)
      → contents c a ≡ some e
      → (w : ℕ) × (c.tag_index a ≡ some w) × (get_cell c.cache (set_of p c a) w ≡ some (some e))
  contents-some c a e h = elim (Option-cases (c.tag_index a)) [
    | inl t ↦ absurd (ground (arith, t, h))
    | inr (w, t) ↦ (w, t, ground (arith, t, h))
  ]

  -- In a well-formed cache the map is empty exactly at the addresses without a tag.
  pub contents-none :
      (c : CacheMemory p) (a : ℕ) → IsValid c → contents c a ≡ none → c.tag_index a ≡ none
  contents-none c a v h = elim (Option-cases (c.tag_index a)) [
    | inl t ↦ t
    | inr (w, t) ↦ let (entry, cell, addr) = v.indexed a w t in absurd (ground (arith, t, cell, h))
  ]

  pub address_to_cache_set-line :
      (c : CacheMemory p) (a : ℕ) → IsLine a → address_to_cache_set p c a ≡ ok (set_of p c a)
  unfolding address_to_cache_set
  address_to_cache_set-line c a l = rw l refl

  -- `lookup` of a line address gives what the map has there, and does not fail.
  pub lookup-contents :
      (c : CacheMemory p) (a : ℕ) → IsValid c → IsLine a → lookup p c a ≡ ok (contents c a)
  unfolding lookup
  lookup-contents c a v l = elim (Option-cases (c.tag_index a)) [
    | inl e ↦ ground (arith, l, e)
    | inr (w, e) ↦
        let (entry, cell, addr) = v.indexed a w e in
        let place = v.stored _ _ entry cell in ground (arith, place.present)
  ]

  -- `isTagPresent` of a line address says whether the map has an entry there.
  pub is_tag_present-contents :
      (c : CacheMemory p) (a : ℕ)
      → IsValid c
      → IsLine a
      → is_tag_present p c a ≡ ok (elim (contents c a) [ none ↦ false | some _ ↦ true ])
  unfolding is_tag_present
  is_tag_present-contents c a v l = rw (lookup-contents c a v l, is_tag_present) refl

  -- The state of the policy and the statistics play no part in the invariant.
  pub IsValid-policy :
      (c : CacheMemory p) (q : p.Policy) (st : Stats)
      → IsValid c
      → IsValid (record c { policy = q; stats = st })
  IsValid-policy c q st v = record {
    rows = v.rows;
    handles = v.handles;
    ways = v.ways;
    index_bits = v.index_bits;
    sets_fit = v.sets_fit;
    indexed = v.indexed;
    stored = λ s w e h.
        let place = v.stored s w e h in
        record {
          in_set = place.in_set;
          tagged = place.tagged;
          knows_set = place.knows_set;
          knows_way = place.knows_way;
          present = place.present;
          aligned = place.aligned;
        };
  }

  -- Addresses with a tag stand in slots of their own.
  pub slots_apart :
      (c : CacheMemory p) (a b w w' : ℕ)
      → IsValid c
      → c.tag_index a ≡ some w
      → c.tag_index b ≡ some w'
      → (a == b) ≡ false
      → (set_of p c a == set_of p c b && w == w') ≡ false
  slots_apart c a b w w' v t t' apart =
      let (x, cell, q) = v.indexed a w t in
      let (x', cell', q') = v.indexed b w' t' in
      elim (Bool-cases (set_of p c a == set_of p c b && w == w')) [
        | inr no_clash ↦ no_clash
        | inl clash ↦
            let same_set : set_of p c a ≡ set_of p c b = ==-eq _ _ (ground (arith, clash)) in
            let same_way : w ≡ w' = ==-eq w w' (ground (arith, clash)) in
            let same : x ≡ x' =
              some-eq x x'
                (some-eq _ _ (sym cell ∙ ap₂ (get_cell c.cache) same_set same_way ∙ cell')) in
            absurd (ground (arith, apart, sym q ∙ ap (λ (e : Entry p). e.address) same ∙ q'))
      ]

  -- The entry that the map has at an address, its slot and its place.
  pub found :
      (c : CacheMemory p) (a : ℕ) (e : Entry p)
      → IsValid c
      → contents c a ≡ some e
      → (w : ℕ) × (c.tag_index a ≡ some w)
        × (get_cell c.cache (set_of p c a) w ≡ some (some e))
        × (e.address ≡ a)
        × IsPlaced c (set_of p c a) w e
  found c a e v h =
      let (w, t, cell) = contents-some c a e h in
      let (x, cell', q) = v.indexed a w t in
      let same : x ≡ e = some-eq x e (some-eq _ _ (sym cell' ∙ cell)) in
      (w, t, cell, ap (λ (y : Entry p). y.address) (sym same) ∙ q, v.stored _ w e cell)
