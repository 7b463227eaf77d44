-- ===== src/Cache/Recorded.antt =====
-- The records that a checkpoint takes of a cache. Code: `recordCacheContents` of
-- src/mem/ruby/structures/CacheMemory.cc.
use patch_tectreee.Ruby.{AccessPermission, RubyRequestType}
use patch_tectreee.Base.{
  ℕ, zero, suc, ◌≡◌, refl, sym, ap, ◌∙◌, ◌⊎◌, inl, inr, ◌↔◌, Bool, Option, none, some, List, [],
  ◌∷◌, ◌++◌, get_elem?, arith, some-eq, OneOf, true, false, Bool-cases, if◌then◌else◌,
}
use patch_tectreee.Cache.Platform.{Platform}
use patch_tectreee.Cache.State.{Entry, CacheMemory, get_cell}
use patch_tectreee.Cache.Access.{set_of}
use patch_tectreee.Cache.Sweep.{
  TraceRecord, recorded, add_record, record_set, record_sets, record_cache_contents,
}
use patch_tectreee.Cache.Invariant.{IsValid, contents, contents-some}

OneOf-append :
    {A : Type 0} (r : A) (xs ys : List A) → OneOf r (xs ++ ys) ↔ (OneOf r xs ⊎ OneOf r ys)
OneOf-append r [] ys = (λ h. inr h, λ h. elim h [ inl e ↦ absurd e | inr k ↦ k ])
OneOf-append r (x ∷ xs) ys =
    let (there, back) = OneOf-append r xs ys in
    (
      λ h. elim h [
        | inl e ↦ inl (inl e)
        | inr k ↦ elim (there k) [ inl m ↦ inl (inr m) | inr m ↦ inr m ]
      ],
      λ h. elim h [
        | inl k ↦ elim k [ inl e ↦ inl e | inr m ↦ inr (back (inl m)) ]
        | inr m ↦ inr (back (inr m))
      ],
    )

module _ (p : Platform) where
  -- `r` is the record of a line of a cache of instructions, or of data: one that may only be read is
  -- recorded as a fetch, or as a load, one that may be written as a store, and no other line is.
  pub record IsRecordOf (icache : Bool) (e : Entry p) (r : TraceRecord p) : Type 0 where
    pub same_address : r.address ≡ e.address
    pub same_time : r.time ≡ e.last_access
    pub same_block : r.block ≡ e.data_blk
    pub kind :
        ((e.permission ≡ AccessPermission.read_write) × (r.type ≡ RubyRequestType.st))
        ⊎ ((e.permission ≡ AccessPermission.read_only)
            × (r.type ≡ (if icache then RubyRequestType.ifetch else RubyRequestType.ld)))

  recorded-IsRecordOf :
      (icache : Bool) (permission : AccessPermission) (e : Entry p) (r : TraceRecord p)
      → e.permission ≡ permission
      → recorded p icache e ≡ some r
      → IsRecordOf icache e r
  recorded-IsRecordOf true AccessPermission.read_only e r is h = ground (arith, h, is)
  recorded-IsRecordOf false AccessPermission.read_only e r is h = ground (arith, h, is)
  recorded-IsRecordOf icache AccessPermission.read_write e r is h = ground (arith, h, is)
  recorded-IsRecordOf icache _ e r is h = absurd (ground (arith, h, is))

  IsRecordOf-recorded :
      (icache : Bool) (e : Entry p) (r : TraceRecord p)
      → IsRecordOf icache e r
      → recorded p icache e ≡ some r
  IsRecordOf-recorded icache e r rec =
      let same_address = rec.same_address in
      let same_time = rec.same_time in
      let same_block = rec.same_block in
      elim rec.kind [
        | inl (is, type) ↦ ground (arith, is, type)
        | inr (is, type) ↦ ground (arith, is, type, Bool-cases icache)
      ]

  OneOf-add_record :
      (r : TraceRecord p) (o : Option (TraceRecord p)) (rs : List (TraceRecord p))
      → OneOf r (add_record p o rs) ↔ ((o ≡ some r) ⊎ OneOf r rs)
  OneOf-add_record r none rs =
      (λ h. inr h, λ h. elim h [ inl e ↦ absurd (ground arith) | inr k ↦ k ])
  OneOf-add_record r (some x) rs = (
    λ h. elim h [ inl e ↦ inl (ap some (sym e)) | inr k ↦ inr k ],
    λ h. elim h [ inl e ↦ inl (sym (some-eq x r e)) | inr k ↦ inr k ],
  )

  -- The records of one set are those of its entries.
  record_set-get_elem? :
      (b : Bool) (r : TraceRecord p) (row : List (Option (Entry p)))
      → OneOf r (record_set p b row)
      → (w : ℕ) × (e : Entry p) × (get_elem? row w ≡ some (some e)) × (recorded p b e ≡ some r)
  unfolding record_set
  record_set-get_elem? b r [] h = absurd h
  record_set-get_elem? b r (none ∷ row) h =
      let (w, e, cell, q) = record_set-get_elem? b r row h in (suc w, e, cell, q)
  record_set-get_elem? b r (some x ∷ row) h =
      elim ((OneOf-add_record r (recorded p b x) (record_set p b row)).0 h) [
        | inl q ↦ (0, x, refl, q)
        | inr k ↦ let (w, e, cell, q) = record_set-get_elem? b r row k in (suc w, e, cell, q)
      ]

  get_elem?-record_set :
      (b : Bool) (r : TraceRecord p) (row : List (Option (Entry p))) (w : ℕ) (e : Entry p)
      → get_elem? row w ≡ some (some e)
      → recorded p b e ≡ some r
      → OneOf r (record_set p b row)
  unfolding record_set
  get_elem?-record_set b r [] w e cell q = absurd (ground arith)
  get_elem?-record_set b r (none ∷ row) zero e cell q = absurd (ground arith)
  get_elem?-record_set b r (none ∷ row) (suc w) e cell q = get_elem?-record_set b r row w e cell q
  get_elem?-record_set b r (some x ∷ row) zero e cell q =
      (OneOf-add_record r (recorded p b x) (record_set p b row)).1
        (inl (ap (recorded p b) (some-eq x e (some-eq (some x) (some e) cell)) ∙ q))
  get_elem?-record_set b r (some x ∷ row) (suc w) e cell q =
      (OneOf-add_record r (recorded p b x) (record_set p b row)).1
        (inr (get_elem?-record_set b r row w e cell q))

  -- The records of all sets are those of the entries in the table.
  record_sets-get_cell :
      (b : Bool) (r : TraceRecord p) (t : List (List (Option (Entry p))))
      → OneOf r (record_sets p b t)
      → (s w : ℕ) × (e : Entry p) × (get_cell t s w ≡ some (some e)) × (recorded p b e ≡ some r)
  unfolding record_sets
  record_sets-get_cell b r [] h = absurd h
  record_sets-get_cell b r (row ∷ t) h =
      elim ((OneOf-append r (record_set p b row) (record_sets p b t)).0 h) [
        | inl k ↦ let (w, e, cell, q) = record_set-get_elem? b r row k in (0, w, e, cell, q)
        | inr k ↦ let (s, w, e, cell, q) = record_sets-get_cell b r t k in (suc s, w, e, cell, q)
      ]

  get_cell-record_sets :
      (b : Bool) (r : TraceRecord p) (t : List (List (Option (Entry p)))) (s w : ℕ) (e : Entry p)
      → get_cell t s w ≡ some (some e)
      → recorded p b e ≡ some r
      → OneOf r (record_sets p b t)
  unfolding record_sets
  get_cell-record_sets b r [] s w e cell q = absurd (ground arith)
  get_cell-record_sets b r (row ∷ t) zero w e cell q =
      (OneOf-append r (record_set p b row) (record_sets p b t)).1
        (inl (get_elem?-record_set b r row w e cell q))
  get_cell-record_sets b r (row ∷ t) (suc s) w e cell q =
      (OneOf-append r (record_set p b row) (record_sets p b t)).1
        (inr (get_cell-record_sets b r t s w e cell q))

  -- What stands in the table of a well-formed cache is in the map, at its address.
  stored-contents :
      (c : CacheMemory p) (s w : ℕ) (e : Entry p)
      → IsValid p c
      → get_cell c.cache s w ≡ some (some e)
      → contents p c e.address ≡ some e
  stored-contents c s w e v cell =
      let place = v.stored s w e cell in
      let there : get_cell c.cache (set_of p c e.address) w ≡ some (some e) =
        ap (λ n. get_cell c.cache n w) (sym place.in_set) ∙ cell in
      rw (contents, place.tagged, there) refl

  -- The records that `recordCacheContents` takes of a well-formed cache are exactly those of the
  -- entries of its map that may be written or only read, with the entry's address, last access and
  -- data, as a store where it may be written, and otherwise as a fetch or a load by whether the cache
  -- is one of instructions.
  pub record_cache_contents-contents :
      (c : CacheMemory p) (r : TraceRecord p)
      → IsValid p c
      → OneOf r (record_cache_contents p c)
        ↔ ((e : Entry p) × (contents p c e.address ≡ some e) × IsRecordOf c.is_icache e r)
  unfolding record_cache_contents
  record_cache_contents-contents c r v = (
    λ h.
        let (s, w, e, cell, q) = record_sets-get_cell c.is_icache r c.cache h in
        (
          e,
          stored-contents c s w e v cell,
          recorded-IsRecordOf c.is_icache e.permission e r refl q,
        ),
    λ (e, at, rec).
        let (w, tag, cell) = contents-some p c e.address e at in
        get_cell-record_sets c.is_icache r c.cache (set_of p c e.address) w e cell
          (IsRecordOf-recorded c.is_icache e r rec),
  )
