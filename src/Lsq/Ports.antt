-- ===== src/Lsq/Ports.antt =====
-- How many accesses the ports to the data cache take in a cycle: src/cpu/o3/lsq.cc.
use mathlib.Core.Path.{ap₂}
use patch_tectreee.Base.{
  ℕ, suc, ◌+◌, ◌≤◌, ◌<◌, and_false, ◌≡◌, refl, ap, sym, ◌∙◌, Bool, true, false, ◌&&◌, leb, ltb,
  if◌then◌else◌, List, [], ◌∷◌, arith, Bool-cases, inl, inr,
}
use patch_tectreee.Base.Outcome.{Outcome, Outcome-cases, ok, abort, ◌>>=◌}
use patch_tectreee.Lsq.Queue.{
  QueuePlatform, LsqParams, Lsq, lsq, take_over, tick, set_cache_blocked, cache_port_available,
  cache_port_busy,
}

-- What befalls the ports: a cycle begins, an access takes a port, the cache blocks or unblocks, or
-- another CPU is taken over from.
pub data PortEvent : Type 0 where
  begin takeover : PortEvent
  access blocked : Bool → PortEvent

module _ (k : QueuePlatform) where
  unfoldable pub port_event : PortEvent → Lsq k → Outcome (Lsq k)
  port_event begin s = ok (tick k s)
  port_event takeover s = ok (take_over k s)
  port_event (access is_load) s = cache_port_busy k s is_load
  port_event (blocked v) s = ok (set_cache_blocked k s v)

  unfoldable pub port_events : List PortEvent → Lsq k → Outcome (Lsq k)
  port_events [] s = ok s
  port_events (e ∷ es) s = port_event e s >>= port_events es

  -- No more ports are used than there are.
  abbrev pub IsBounded : Lsq k → Type 0
  IsBounded s =
      (s.used_load_ports ≤ s.cache_load_ports) × (s.used_store_ports ≤ s.cache_store_ports)

  port_event-IsBounded :
      (e : PortEvent) (s s' : Lsq k) → IsBounded s → port_event e s ≡ ok s' → IsBounded s'
  unfolding port_event tick take_over set_cache_blocked cache_port_busy cache_port_available
  port_event-IsBounded begin s s' (l, m) h = (ground arith, ground arith)
  port_event-IsBounded takeover s s' (l, m) h = (ground arith, ground arith)
  port_event-IsBounded (access true) s s' (l, m) h = (ground arith, ground arith)
  port_event-IsBounded (access false) s s' (l, m) h = (ground arith, ground arith)
  port_event-IsBounded (blocked v) s s' (l, m) h = (ground arith, ground arith)

  -- How many accesses of a kind stand in a list.
  abbrev pub count : Bool → List Bool → ℕ
  count b [] = 0
  count b (x ∷ xs) =
      let n = count b xs in if x then (if b then suc n else n) else (if b then n else suc n)

  -- The accesses of a cycle, one after the other.
  unfoldable pub accesses : List Bool → Lsq k → Outcome (Lsq k)
  accesses [] s = ok s
  accesses (b ∷ bs) s = cache_port_busy k s b >>= accesses bs

  run-IsBounded :
      (es : List PortEvent) (s s' : Lsq k) → IsBounded s → port_events es s ≡ ok s' → IsBounded s'
  unfolding port_events
  run-IsBounded [] s s' b h = ground (arith, h, b)
  run-IsBounded (e ∷ es) s s' b h = elim (Outcome-cases (port_event e s)) [
    | inl stop ↦ absurd (ground (arith, stop, h))
    | inr (s1, eq) ↦
        run-IsBounded es s1 s' (port_event-IsBounded e s s1 b eq)
          (ap (λ o. o >>= port_events es) (sym eq) ∙ h)
  ]

  built-IsBounded :
      (iew : k.Iew) (p : LsqParams) (active : List ℕ) (s : Lsq k)
      → lsq k iew p active ≡ ok s
      → IsBounded s
  unfolding lsq
  built-IsBounded iew p active s built = (ground (arith, built), ground (arith, built))

  -- In whatever order a queue that was just built sees cycles begin, accesses take a port, the cache
  -- block and unblock, and a takeover: as long as no assertion fails, no more ports of a kind are in
  -- use than there are.
  pub port_events-IsBounded :
      (iew : k.Iew) (p : LsqParams) (active : List ℕ) (es : List PortEvent) (s s' : Lsq k)
      → lsq k iew p active ≡ ok s
      → port_events es s ≡ ok s'
      → IsBounded s'
  port_events-IsBounded iew p active es s s' built h =
      run-IsBounded es s s' (built-IsBounded iew p active s built) h

  abbrev pub is_ok : Outcome (Lsq k) → Bool
  is_ok (ok s) = true
  is_ok abort = false

  ltb-lt : (a b : ℕ) → ltb a b ≡ true → a < b
  ltb-lt a b h = ground (arith, h)

  accesses-is_ok :
      (bs : List Bool) (s : Lsq k)
      → IsBounded s
      → is_ok (accesses bs s) ≡ (
          leb (s.used_load_ports + count true bs) s.cache_load_ports
          && leb (s.used_store_ports + count false bs) s.cache_store_ports)
  unfolding accesses cache_port_busy cache_port_available
  accesses-is_ok [] s (l, m) = ground arith
  accesses-is_ok (true ∷ bs) s (l, m) = elim (Bool-cases (cache_port_available k s true)) [
    | inl free ↦
        let s1 : Lsq k = record s { used_load_ports = s.used_load_ports + 1 } in
        let rest = accesses-is_ok bs s1 (omega (arith, ltb-lt _ _ free), m) in
        rw (free) (
          rest
          ∙ ap
              (λ n.
                leb n s.cache_load_ports
                && leb (s.used_store_ports + count false bs) s.cache_store_ports)
              (omega arith))
    | inr full ↦
        let over : leb (s.used_load_ports + suc (count true bs)) s.cache_load_ports ≡ false =
          ground (arith, full) in
        rw (full, over) refl
  ]
  accesses-is_ok (false ∷ bs) s (l, m) = elim (Bool-cases (cache_port_available k s false)) [
    | inl free ↦
        let s1 : Lsq k = record s { used_store_ports = s.used_store_ports + 1 } in
        let rest = accesses-is_ok bs s1 (l, omega (arith, ltb-lt _ _ free)) in
        rw (free) (
          rest
          ∙ ap
              (λ n.
                leb (s.used_load_ports + count true bs) s.cache_load_ports
                && leb n s.cache_store_ports)
              (omega arith))
    | inr full ↦
        let over : leb (s.used_store_ports + suc (count false bs)) s.cache_store_ports ≡ false =
          ground (arith, full) in
        rw (full, over) (sym (and_false _))
  ]

  -- After a cycle began, the accesses of the cycle are all taken exactly if the loads are no more than
  -- the load ports and the other accesses no more than the store ports, in whatever order they come.
  pub tick-accesses :
      (bs : List Bool) (s : Lsq k)
      → is_ok (accesses bs (tick k s))
        ≡ (leb (count true bs) s.cache_load_ports && leb (count false bs) s.cache_store_ports)
  unfolding tick
  tick-accesses bs s =
      let no_more : (n : ℕ) → 0 + n ≡ n = λ n. omega arith in
      accesses-is_ok bs (tick k s) (omega arith, omega arith)
      ∙ ap₂ (λ m n. leb m s.cache_load_ports && leb n s.cache_store_ports) (no_more (count true bs))
          (no_more (count false bs))
