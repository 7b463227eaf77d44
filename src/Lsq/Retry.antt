-- ===== src/Lsq/Retry.antt =====
-- What reaches each active thread when the cache can be tried again: src/cpu/o3/lsq.cc.
use mathlib.Core.Bool.{false≢true}
use patch_tectreee.Base.{
  ℕ, ◌<◌, ◌≡◌, ◌≢◌, refl, ap, sym, subst, ◌∙◌, Bool, true, false, ◌==◌, if◌then◌else◌, some, List,
  [], ◌∷◌, length, set, length-set, get_elem?, get_elem?_lt, get_elem?-set_same,
  get_elem?-set_other, All, Bool-cases, inl, inr, ==_refl, arith,
}
use patch_tectreee.Base.Outcome.{ok, ◌>>=◌}
use patch_tectreee.Lsq.Queue.{QueuePlatform, Lsq, set_cache_blocked, Shared, shared_of, with_shared}
use patch_tectreee.Lsq.Threads.{unit_of, on_active, recv_req_retry, on_sender}

-- Whether a thread stands in a list.
abbrev pub is_in : ℕ → List ℕ → Bool
is_in j [] = false
is_in j (t ∷ ts) = if j == t then true else is_in j ts

-- No thread stands in the list twice.
abbrev pub AllDistinct : List ℕ → Type 0
AllDistinct [] = Unit
AllDistinct (t ∷ ts) = (is_in t ts ≡ false) × AllDistinct ts

module _ (k : QueuePlatform) where
  open k use {LsqUnit, Iew}

  -- From the queue `w` on, the units of some threads are called in their order, each as it stands in
  -- `before` and on the queue that the call before left, to become those in `after`; `last` is what
  -- the last call leaves of the queue.
  abbrev pub IsChain :
      (Shared Iew → LsqUnit → Shared Iew × LsqUnit)
      → List LsqUnit
      → List LsqUnit
      → List ℕ
      → Shared Iew
      → Shared Iew
      → Type 0
  IsChain f before after [] w last = w ≡ last
  IsChain f before after (tid ∷ tids) w last =
      (u : LsqUnit) × (get_elem? before tid ≡ some u)
      × (get_elem? after tid ≡ some (f w u).1)
      × IsChain f before after tids (f w u).0 last

  -- `after` differs from `before` by such calls, and by nothing else.
  abbrev pub IsCalled :
      (Shared Iew → LsqUnit → Shared Iew × LsqUnit)
      → List ℕ
      → List LsqUnit
      → List LsqUnit
      → Shared Iew
      → Shared Iew
      → Type 0
  IsCalled f tids before after w last =
      IsChain f before after tids w last
      × ((j : ℕ) → is_in j tids ≡ false → get_elem? after j ≡ get_elem? before j)

  is_in-ne : (j t : ℕ) (ts : List ℕ) → is_in j (t ∷ ts) ≡ false → (j ≢ t) × (is_in j ts ≡ false)
  is_in-ne j t ts h = elim (Bool-cases (j == t)) [
    | inl same ↦ absurd (ground (arith, same, h))
    | inr differs ↦ (
      λ e. false≢true (sym differs ∙ ap (λ i. j == i) (sym e) ∙ ==_refl j),
      ground (arith, differs, h),
    )
  ]

  -- A call of a unit of another thread is of no account to a chain.
  IsChain-set :
      (f : Shared Iew → LsqUnit → Shared Iew × LsqUnit) (before after : List LsqUnit) (tid : ℕ)
      (v : LsqUnit) (tids : List ℕ) (w last : Shared Iew)
      → is_in tid tids ≡ false
      → IsChain f (set before tid v) after tids w last
      → IsChain f before after tids w last
  IsChain-set f before after tid v [] w last fresh c = c
  IsChain-set f before after tid v (t ∷ ts) w last fresh (u, was, is, c) =
      let (other, fresh') = is_in-ne tid t ts fresh in
      (
        u,
        sym (get_elem?-set_other before tid t v other) ∙ was,
        is,
        IsChain-set f before after tid v ts (f w u).0 last fresh' c,
      )

  on_sender-eq :
      (f : Shared Iew → LsqUnit → Shared Iew × LsqUnit) (s : Lsq k) (tid : ℕ) (u : LsqUnit)
      → get_elem? s.thread tid ≡ some u
      → on_sender k f s tid
        ≡ ok (
            with_shared k
              (record s { thread = set s.thread tid (f (shared_of k s) u).1 })
              (f (shared_of k s) u).0)
  unfolding on_sender unit_of
  on_sender-eq f s tid u eq = rw (eq) refl

  on_active-IsCalled :
      (f : Shared Iew → LsqUnit → Shared Iew × LsqUnit) (s : Lsq k) (tids : List ℕ)
      → AllDistinct tids
      → All (λ tid. tid < length s.thread) tids
      → (units : List LsqUnit) × (last : Shared Iew) × (on_active k f s tids
          ≡ ok (with_shared k (record s { thread = units }) last))
        × IsCalled f tids s.thread units (shared_of k s) last
  unfolding on_active
  on_active-IsCalled f s [] d a = (s.thread, shared_of k s, refl, (refl, λ j h. refl))
  on_active-IsCalled f s (tid ∷ tids) (fresh, d) (at, a) =
      let (u, eq) = get_elem?_lt s.thread tid at in
      let w = (f (shared_of k s) u).0 in
      let u' = (f (shared_of k s) u).1 in
      let s1 : Lsq k = with_shared k (record s { thread = set s.thread tid u' }) w in
      let same = length-set s.thread tid u' in
      let (units, last, eq1, (chain, others)) =
        on_active-IsCalled f s1 tids d (subst (λ n. All (λ t. t < n) tids) (sym same) a) in
      (
        units,
        last,
        ap (λ o. o >>= λ s'. on_active k f s' tids) (on_sender-eq f s tid u eq) ∙ eq1,
        (
          (
            u,
            eq,
            others tid fresh ∙ get_elem?-set_same s.thread tid u' at,
            IsChain-set f s.thread units tid u' tids w last fresh chain,
          ),
          λ j away.
              let (differs, away') = is_in-ne j tid tids away in
              others j away' ∙ get_elem?-set_other s.thread tid j u' (λ e. differs (sym e)),
        ),
      )

  -- A retry from the cache, where no thread is active twice and each active thread has a unit: the
  -- stage is told and the cache is no longer blocked; from there on exactly the units of the active
  -- threads try again, once each and in order, each on the queue that the one before left. What the
  -- last leaves is what stays: whether the cache is blocked again, and the ports in use.
  pub recv_req_retry-IsCalled :
      (s : Lsq k)
      → AllDistinct s.active_threads
      → All (λ tid. tid < length s.thread) s.active_threads
      → (units : List LsqUnit) × (last : Shared Iew) × (recv_req_retry k s
          ≡ ok (with_shared k (record s { thread = units }) last))
        × IsCalled k.recv_retry s.active_threads s.thread units
            (record {
              iew_stage = k.cache_unblocked s.iew_stage;
              cache_blocked = false;
              used_store_ports = s.used_store_ports;
              used_load_ports = s.used_load_ports;
            })
            last
  unfolding recv_req_retry set_cache_blocked
  recv_req_retry-IsCalled s d a =
      on_active-IsCalled k.recv_retry
        (record s { cache_blocked = false; iew_stage = k.cache_unblocked s.iew_stage })
        s.active_threads d a
