-- ===== src/Cache/Htm.antt =====
-- `clearLockedAll`, `htmAbortTransaction` and `htmCommitTransaction` of
-- src/mem/ruby/structures/CacheMemory.cc.
use patch_tectreee.Ruby.{AccessPermission}
use patch_tectreee.Base.{
  ℕ, ◌≡◌, refl, sym, subst, ◌∙◌, inl, inr, false, Option, none, some, ◌∷◌, arith, Bool-cases, ap,
  ◌⊎◌, Option-cases, if◌then◌else◌,
}
use patch_tectreee.Cache.Platform.{Platform}
use patch_tectreee.Cache.State.{Entry, CacheMemory, Stats}
use patch_tectreee.Cache.Invariant.{IsValid, IsValid-policy, contents}
use patch_tectreee.Cache.Modify.{map_option}
use patch_tectreee.Cache.Sweep.{
  released, clear_locked_all, aborted, committed, htm_abort_transaction, htm_commit_transaction,
}
use patch_tectreee.Cache.Swept.{
  count_sets, reading, writing, htm_sets-eq, KeepsAll, swept, swept-contents, swept-IsValid,
}

module _ (p : Platform) where
  open p use {Block, holds, holds_unlock, unlock, invalidate_entry, invalidate_entry_present}

  released-KeepsAll : (context : ℕ) → KeepsAll p (released p context)
  released-KeepsAll context e h = record {
    same_address = ground arith;
    same_set = ground arith;
    same_way = ground arith;
    still_present = ground arith;
  }

  -- `e'` is what a line of the map was made into.
  map_option-source :
      (f : Entry p → Entry p) (o : Option (Entry p)) (e' : Entry p)
      → map_option f o ≡ some e'
      → (e : Entry p) × (f e ≡ e')
  map_option-source f none e' h = cc
  map_option-source f (some e) e' h = (e, ground (arith, h))

  released-free : (context : ℕ) (e : Entry p) → holds (released p context e).locked context ≡ false
  released-free context e = elim (Bool-cases (holds e.locked context)) [
    | inl held ↦ ground (arith, held, holds_unlock e.locked context)
    | inr free ↦ ground (arith, free)
  ]

  -- What holds of each changed entry holds of the map after a sweep.
  swept_each :
      (P : Entry p → Type 0) (f : Entry p → Entry p)
      → ((e : Entry p) → P (f e))
      → (c : CacheMemory p) (a : ℕ) (e : Entry p) → contents p (swept p f c) a ≡ some e
      → P e
  swept_each P f each c a e h =
      let (x, q) = map_option-source f (contents p c a) e (sym (swept-contents p f c a) ∙ h) in
      subst P q (each x)

  -- On a well-formed cache `clearLockedAll` keeps the cache well-formed and leaves no line locked by
  -- the context; of the map it changes the locks that the context held, and nothing else.
  pub clear_locked_all-contents :
      (c : CacheMemory p) (context : ℕ)
      → IsValid p c
      → IsValid p (clear_locked_all p c context)
        × ((a : ℕ)
            → contents p (clear_locked_all p c context) a
              ≡ map_option (released p context) (contents p c a))
        × ((a : ℕ) (e : Entry p)
            → contents p (clear_locked_all p c context) a ≡ some e
            → holds e.locked context ≡ false)
  unfolding clear_locked_all swept
  clear_locked_all-contents c context v = (
    swept-IsValid p (released p context) c (released-KeepsAll context) v,
    (λ a. swept-contents p (released p context) c a),
    swept_each (λ e. holds e.locked context ≡ false) (released p context) (released-free context) c,
  )

  aborted-KeepsAll : KeepsAll p (aborted p)
  aborted-KeepsAll e h = record {
    same_address = ground arith;
    same_set = ground arith;
    same_way = ground arith;
    still_present = ground (arith, h, invalidate_entry_present e.permission e.data_blk h);
  }

  committed-KeepsAll : KeepsAll p (committed p)
  committed-KeepsAll e h = record {
    same_address = refl;
    same_set = refl;
    same_way = refl;
    still_present = refl;
  }

  -- A line that takes no part in a transaction and is locked by nobody.
  pub record IsQuiet (e : Entry p) : Type 0 where
    pub no_read : e.in_htm_read_set ≡ false
    pub no_write : e.in_htm_write_set ≡ false
    pub unlocked : (context : ℕ) → holds e.locked context ≡ false

  committed-IsQuiet : (e : Entry p) → IsQuiet (committed p e)
  committed-IsQuiet e = record { no_read = refl; no_write = refl; unlocked = holds_unlock e.locked }

  aborted-IsQuiet : (e : Entry p) → IsQuiet (aborted p e)
  aborted-IsQuiet e = record {
    no_read = ground arith;
    no_write = ground arith;
    unlocked = λ context. ground (arith, holds_unlock e.locked context);
  }

  -- The cache after a sweep, with other statistics.
  abbrev swept_with : (Entry p → Entry p) → CacheMemory p → Stats → CacheMemory p
  swept_with f c st = record (swept p f c) { stats = st }

  -- Two entries that differ at most in their permission, data, lock and transactional sets.
  pub record IsSameLine (e e' : Entry p) : Type 0 where
    pub same_address : e'.address ≡ e.address
    pub same_set : e'.set ≡ e.set
    pub same_way : e'.way ≡ e.way
    pub same_replacement : e'.replacement_data ≡ e.replacement_data
    pub same_time : e'.last_access ≡ e.last_access
    pub same_valid : e'.num_valid_blocks ≡ e.num_valid_blocks

  -- What an abort and a commit leave of a line's permission and data.
  abbrev pub rolled_back : Entry p → AccessPermission × Block
  rolled_back e =
      if e.in_htm_write_set
      then invalidate_entry e.permission e.data_blk
      else (e.permission, e.data_blk)

  abbrev pub kept : Entry p → AccessPermission × Block
  kept e = (e.permission, e.data_blk)

  -- The entry `e'` ends a transaction of the line `e`, with `left e` as its permission and data.
  abbrev pub IsEnded : (Entry p → AccessPermission × Block) → Entry p → Entry p → Type 0
  IsEnded left e e' =
      IsSameLine e e' × IsQuiet e' × ((e'.permission ≡ (left e).0) × (e'.data_blk ≡ (left e).1))

  -- The map and the invariant after a transaction ended: of each entry one is left that ends it, and
  -- there is no other.
  abbrev pub Ended : (Entry p → AccessPermission × Block) → CacheMemory p → CacheMemory p → Type 0
  Ended left c c' =
      IsValid p c'
      × ((a : ℕ)
          → ((contents p c a ≡ none) × (contents p c' a ≡ none))
            ⊎ ((e e' : Entry p) × (contents p c a ≡ some e)
                × (contents p c' a ≡ some e')
                × IsEnded left e e'))

  committed-IsEnded : (e : Entry p) → IsEnded kept e (committed p e)
  committed-IsEnded e = (
    record {
      same_address = refl;
      same_set = refl;
      same_way = refl;
      same_replacement = refl;
      same_time = refl;
      same_valid = refl;
    },
    committed-IsQuiet e,
    (refl, refl),
  )

  aborted-IsEnded : (e : Entry p) → IsEnded rolled_back e (aborted p e)
  aborted-IsEnded e = (
    record {
      same_address = ground arith;
      same_set = ground arith;
      same_way = ground arith;
      same_replacement = ground arith;
      same_time = ground arith;
      same_valid = ground arith;
    },
    aborted-IsQuiet e,
    (ground arith, ground arith),
  )

  swept_with-Ended :
      (f : Entry p → Entry p) (left : Entry p → AccessPermission × Block) (c : CacheMemory p)
      (st : Stats)
      → KeepsAll p f
      → ((e : Entry p) → IsEnded left e (f e))
      → IsValid p c
      → Ended left c (swept_with f c st)
  swept_with-Ended f left c st keep each v = (
    IsValid-policy p (swept p f c) _ st (swept-IsValid p f c keep v),
    λ a. elim (Option-cases (contents p c a)) [
      | inl h ↦ inl (h, swept-contents p f c a ∙ ap (map_option f) h)
      | inr (e, h) ↦ inr (e, f e, h, swept-contents p f c a ∙ ap (map_option f) h, each e)
    ],
  )

  abort_stats : CacheMemory p → Stats
  abort_stats c =
      let s = c.stats in
      record s {
        htm_trans_abort_read_set = count_sets p (reading p) c.cache ∷ s.htm_trans_abort_read_set;
        htm_trans_abort_write_set = count_sets p (writing p) c.cache ∷ s.htm_trans_abort_write_set;
      }

  commit_stats : CacheMemory p → Stats
  commit_stats c =
      let s = c.stats in
      record s {
        htm_trans_commit_read_set = count_sets p (reading p) c.cache ∷ s.htm_trans_commit_read_set;
        htm_trans_commit_write_set =
            count_sets p (writing p) c.cache ∷ s.htm_trans_commit_write_set;
      }

  htm_abort_transaction-eq :
      (c : CacheMemory p) → htm_abort_transaction p c ≡ swept_with (aborted p) c (abort_stats c)
  unfolding htm_abort_transaction swept abort_stats
  htm_abort_transaction-eq c = rw (htm_sets-eq p (aborted p) c.cache 0 0) (ground arith)

  htm_commit_transaction-eq :
      (c : CacheMemory p) → htm_commit_transaction p c ≡ swept_with (committed p) c (commit_stats c)
  unfolding htm_commit_transaction swept commit_stats
  htm_commit_transaction-eq c = rw (htm_sets-eq p (committed p) c.cache 0 0) (ground arith)

  -- An abort keeps a well-formed cache well-formed. Of the map it leaves each entry out of both sets
  -- and unlocked for every context, invalidated if it was in the write set and with its permission
  -- and data otherwise; it adds no entry, changes nothing else of one, and samples the numbers of
  -- lines that were in the read and in the write set.
  pub htm_abort_transaction-Ended :
      (c : CacheMemory p)
      → IsValid p c
      → Ended rolled_back c (htm_abort_transaction p c)
        × ((htm_abort_transaction p c).stats.htm_trans_abort_read_set
            ≡ count_sets p (reading p) c.cache ∷ c.stats.htm_trans_abort_read_set)
        × ((htm_abort_transaction p c).stats.htm_trans_abort_write_set
            ≡ count_sets p (writing p) c.cache ∷ c.stats.htm_trans_abort_write_set)
  unfolding abort_stats
  htm_abort_transaction-Ended c v = rw (htm_abort_transaction-eq c) (
    swept_with-Ended (aborted p) rolled_back c (abort_stats c) aborted-KeepsAll aborted-IsEnded v,
    refl,
    refl,
  )

  -- A commit does the same, but every entry keeps its permission and data, and the numbers are sampled
  -- into the histograms of the commits.
  pub htm_commit_transaction-Ended :
      (c : CacheMemory p)
      → IsValid p c
      → Ended kept c (htm_commit_transaction p c)
        × ((htm_commit_transaction p c).stats.htm_trans_commit_read_set
            ≡ count_sets p (reading p) c.cache ∷ c.stats.htm_trans_commit_read_set)
        × ((htm_commit_transaction p c).stats.htm_trans_commit_write_set
            ≡ count_sets p (writing p) c.cache ∷ c.stats.htm_trans_commit_write_set)
  unfolding commit_stats
  htm_commit_transaction-Ended c v = rw (htm_commit_transaction-eq c) (
    swept_with-Ended (committed p) kept c (commit_stats c) committed-KeepsAll committed-IsEnded v,
    refl,
    refl,
  )
