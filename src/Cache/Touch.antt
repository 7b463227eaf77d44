-- ===== src/Cache/Touch.antt =====
-- `setMRU`, `tryCacheAccess`, `testCacheAccess`, `setLocked`, `clearLocked` and `isLocked` of
-- src/mem/ruby/structures/CacheMemory.cc.
use patch_tectreee.Base.{
  ℕ, ◌≡◌, refl, sym, ap, ◌∙◌, inl, inr, Bool, true, false, ◌==◌, Option, none, some, arith,
  Option-cases, Bool-cases, ==-eq, ==_refl, if◌then◌else◌, ◌⊎◌, ◌↔◌, some-eq,
}
use patch_tectreee.Base.Outcome.{ok}
use patch_tectreee.Ruby.{RubyRequestType, AccessPermission}
use patch_tectreee.Cache.Platform.{Platform}
use patch_tectreee.Cache.State.{Entry, CacheMemory}
use patch_tectreee.Cache.Update.{
  modify, set_mru, set_locked, clear_locked, is_locked, may_access, try_cache_access,
}
use patch_tectreee.Cache.Invariant.{IsLine, IsValid, IsValid-policy, contents, lookup-contents}
use patch_tectreee.Cache.Modify.{changed, Keeps, map_option, modify-contents}

module _ (p : Platform) where
  open p use {
    Block, Policy, make_line_address, make_line_address_idem, touch, touch_occupancy, holds,
    holds_lock, holds_unlock, lock, unlock,
  }

  -- The entry with a new time of its last access.
  abbrev pub stamp : ℕ → Entry p → Entry p
  stamp now e = record e { last_access = now }

  stamp-Keeps : (now : ℕ) (e : Entry p) → Keeps p (stamp now) e
  stamp-Keeps now e = record {
    same_address = refl;
    same_set = refl;
    same_way = refl;
    still_present = refl;
  }

  make_line_address-IsLine : (a : ℕ) → IsLine p (make_line_address a)
  make_line_address-IsLine a = rw (make_line_address_idem a) (==_refl (make_line_address a))

  changed-none :
      (c : CacheMemory p) (a b : ℕ) (f : Entry p → Entry p)
      → contents p c a ≡ none
      → contents p c b ≡ changed p c a f b
  changed-none c a b f h = elim (Bool-cases (a == b)) [
    | inl here ↦ ground (arith, here, sym (ap (contents p c) (==-eq a b here)) ∙ h)
    | inr there ↦ ground (arith, there)
  ]

  -- The policy after the entry at `a`, if there is one, was touched.
  abbrev pub touched : CacheMemory p → ℕ → Policy
  touched c a = elim (contents p c a) [
    | none ↦ c.policy
    | some e ↦ touch e.replacement_data c.policy
  ]

  -- On a well-formed cache `setMRU` succeeds at any address. If the map has an entry at the line of
  -- that address, its last access is now and the policy is told; nothing else changes.
  pub set_mru-contents :
      (c : CacheMemory p) (now a : ℕ)
      → IsValid p c
      → (c' : CacheMemory p) × (set_mru p c now a ≡ ok c')
        × IsValid p c'
        × ((b : ℕ) → contents p c' b ≡ changed p c (make_line_address a) (stamp now) b)
        × (c'.policy ≡ touched c (make_line_address a))
  unfolding set_mru
  set_mru-contents c now a v =
      let line = make_line_address a in
      let found = lookup-contents p c line v (make_line_address-IsLine a) in
      elim (Option-cases (contents p c line)) [
        | inl h ↦ (
          c,
          rw (found, h) refl,
          v,
          (λ b. changed-none c line b (stamp now) h),
          rw (h, touched) refl,
        )
        | inr (e, h) ↦
            let (valid, all) = modify-contents p c line e (stamp now) v h (stamp-Keeps now e) in
            (
              record (modify p c line e (stamp now)) { policy = touch e.replacement_data c.policy },
              rw (found, h) refl,
              IsValid-policy p _ _ _ valid,
              all,
              rw (h, touched) refl,
            )
      ]

  -- What a line's permission allows: every request on a line that may be written, loads and
  -- instruction fetches on one that may only be read, and nothing else.
  abbrev pub IsAllowed : AccessPermission → RubyRequestType → Type 0
  IsAllowed permission type =
      (permission ≡ AccessPermission.read_write)
      ⊎ ((permission ≡ AccessPermission.read_only)
          × ((type ≡ RubyRequestType.ld) ⊎ (type ≡ RubyRequestType.ifetch)))

  may_access-IsAllowed :
      (permission : AccessPermission) (type : RubyRequestType)
      → may_access p permission type ≡ true
      → IsAllowed permission type
  may_access-IsAllowed AccessPermission.read_write type h = inl refl
  may_access-IsAllowed AccessPermission.read_only RubyRequestType.ld h = inr (refl, inl refl)
  may_access-IsAllowed AccessPermission.read_only RubyRequestType.ifetch h = inr (refl, inr refl)
  may_access-IsAllowed _ _ h = absurd (ground (arith, h))

  IsAllowed-may_access :
      (permission : AccessPermission) (type : RubyRequestType)
      → IsAllowed permission type
      → may_access p permission type ≡ true
  IsAllowed-may_access permission type h = elim h [
    | inl w ↦ rw (w) refl
    | inr (r, inl t) ↦ rw (r, t) refl
    | inr (r, inr t) ↦ rw (r, t) refl
  ]

  -- On a well-formed cache `tryCacheAccess` of a line address answers whether the map has an entry
  -- there that may be written, or that may be read and the request is a load or a fetch; only then it
  -- gives the entry's data. The entry is touched in either case, and nothing else changes.
  pub try_cache_access-contents :
      (c : CacheMemory p) (now a : ℕ) (type : RubyRequestType)
      → IsValid p c
      → IsLine p a
      → (allowed : Bool) × (data_ptr : Option Block) × (c' : CacheMemory p) × (try_cache_access p c
            now a type
          ≡ ok (allowed, data_ptr, c'))
        × IsValid p c'
        × ((b : ℕ) → contents p c' b ≡ changed p c a (stamp now) b)
        × (c'.policy ≡ touched c a)
        × ((allowed ≡ true)
            ↔ ((e : Entry p) × (contents p c a ≡ some e) × IsAllowed e.permission type))
        × (data_ptr ≡ (if allowed then map_option (λ e. e.data_blk) (contents p c a) else none))
  unfolding try_cache_access
  try_cache_access-contents c now a type v l =
      let found = lookup-contents p c a v l in
      elim (Option-cases (contents p c a)) [
        | inl h ↦ (
          false,
          none,
          c,
          rw (found, h) refl,
          v,
          (λ b. changed-none c a b (stamp now) h),
          rw (h, touched) refl,
          (λ t. absurd (ground arith), λ (e, at, allow). absurd (ground (arith, h, at))),
          refl,
        )
        | inr (e, h) ↦
            let (valid, all) = modify-contents p c a e (stamp now) v h (stamp-Keeps now e) in
            let ok_access = may_access p e.permission type in
            (
              ok_access,
              (if ok_access then some e.data_blk else none),
              record (modify p c a e (stamp now)) { policy = touch e.replacement_data c.policy },
              ground (arith, found, h),
              IsValid-policy p _ _ _ valid,
              all,
              rw (h, touched) refl,
              (
                λ t. (e, h, may_access-IsAllowed e.permission type t),
                λ (x, at, allow).
                    let same = some-eq x e (sym at ∙ h) in
                    ap (λ y. may_access p y.permission type) (sym same)
                    ∙ IsAllowed-may_access x.permission type allow,
              ),
              ground (arith, h),
            )
      ]

  module _ (c : CacheMemory p) (a : ℕ) (e : Entry p) (v : IsValid p c) (l : IsLine p a)
      (h : contents p c a ≡ some e) where
    relocked : (Option ℕ → Option ℕ) → Entry p → Entry p
    relocked f x = record x { locked = f x.locked }

    is_locked-modify :
        (f : Option ℕ → Option ℕ) (context : ℕ)
        → IsValid p (modify p c a e (relocked f))
          × ((b : ℕ) → contents p (modify p c a e (relocked f)) b ≡ changed p c a (relocked f) b)
          × (is_locked p (modify p c a e (relocked f)) a context ≡ ok (holds (f e.locked) context))
    unfolding is_locked relocked
    is_locked-modify f context =
        let (valid, all) = modify-contents p c a e (relocked f) v h (record {
          same_address = refl;
          same_set = refl;
          same_way = refl;
          still_present = refl;
        }) in
        (
          valid,
          all,
          rw (lookup-contents p (modify p c a e (relocked f)) a valid l, all a, ==_refl a, h) refl,
        )

    -- After `setLocked` at an address that the map has, `isLocked` holds there for that context. The
    -- cache stays well-formed, and nothing but the lock of that entry changes.
    pub set_locked-is_locked :
        (context : ℕ)
        → (c' : CacheMemory p) × (set_locked p c a context ≡ ok c')
          × IsValid p c'
          × ((b : ℕ)
              → contents p c' b
                ≡ changed p c a (λ x. record x { locked = lock context x.locked }) b)
          × (is_locked p c' a context ≡ ok true)
    unfolding set_locked relocked
    set_locked-is_locked context =
        let (valid, all, locked) = is_locked-modify (lock context) context in
        (
          modify p c a e (relocked (lock context)),
          rw (lookup-contents p c a v l, h) refl,
          valid,
          all,
          locked ∙ ap ok (holds_lock e.locked context),
        )

    -- After `clearLocked` at an address that the map has, `isLocked` fails there for every context.
    -- The cache stays well-formed, and nothing but the lock of that entry changes.
    pub clear_locked-is_locked :
        (c' : CacheMemory p) × (clear_locked p c a ≡ ok c')
        × IsValid p c'
        × ((b : ℕ) → contents p c' b ≡ changed p c a (λ x. record x { locked = unlock x.locked }) b)
        × ((context : ℕ) → is_locked p c' a context ≡ ok false)
    unfolding clear_locked relocked
    clear_locked-is_locked =
        let (valid, all, locked) = is_locked-modify unlock 0 in
        (
          modify p c a e (relocked unlock),
          rw (lookup-contents p c a v l, h) refl,
          valid,
          all,
          (λ context. (is_locked-modify unlock context).2 ∙ ap ok (holds_unlock e.locked context)),
        )
