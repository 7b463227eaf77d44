-- ===== src/Lsq/Full.antt =====
-- Whether the queue is full, empty or drained: src/cpu/o3/lsq.cc.
use patch_tectreee.Base.{
  ℕ, zero, suc, ◌<◌, ◌≡◌, refl, ap, ◌∙◌, Bool, true, false, List, [], ◌∷◌, length, All,
  get_elem?_lt, arith, Bool-cases, inl, inr,
}
use patch_tectreee.Base.Outcome.{Outcome, ok, abort}
use patch_tectreee.Lsq.Queue.{is_dynamic, QueuePlatform, Lsq}
use patch_tectreee.Lsq.Threads.{
  unit_of, all_active, lq_empty, sq_empty, is_empty, is_drained, sq_full, all_asked, sq_full_of,
}

module _ (k : QueuePlatform) where
  all_asked-abort :
      (s : Lsq k) (tid : ℕ) (tids : List ℕ)
      → is_dynamic s.lsq_policy ≡ true
      → s.active_threads ≡ tid ∷ tids
      → all_asked k (sq_full_of k abort s) s.active_threads ≡ abort
  unfolding all_asked sq_full_of
  all_asked-abort s tid tids d a = rw (a, d) refl

  -- Under the dynamic policy and with an active thread, `sqFull()` and `sqFull(tid)` call each other
  -- without end: no depth of the stack is enough for an answer.
  pub sq_full-dynamic :
      (depth : ℕ) (s : Lsq k) (tid : ℕ) (tids : List ℕ)
      → is_dynamic s.lsq_policy ≡ true
      → s.active_threads ≡ tid ∷ tids
      → sq_full k depth s ≡ abort
  unfolding sq_full
  sq_full-dynamic zero s tid tids d a = refl
  sq_full-dynamic (suc depth) s tid tids d a =
      ap (λ all. all_asked k (sq_full_of k all s) s.active_threads)
        (sq_full-dynamic depth s tid tids d a)
      ∙ all_asked-abort s tid tids d a

  all_asked-all :
      (all : Outcome Bool) (s : Lsq k) (tids : List ℕ)
      → is_dynamic s.lsq_policy ≡ false
      → all_asked k (sq_full_of k all s) tids ≡ all_active k k.sq_full s tids
  unfolding sq_full_of all_asked all_active
  all_asked-all all s [] d = refl
  all_asked-all all s (tid ∷ tids) d =
      let rest = all_asked-all all s tids d in ground (arith, d, rest)

  -- Under another policy one call is enough, and `sqFull()` tells whether the store queues of all
  -- active threads are full.
  pub sq_full-all :
      (depth : ℕ) (s : Lsq k)
      → is_dynamic s.lsq_policy ≡ false
      → sq_full k (suc depth) s ≡ all_active k k.sq_full s s.active_threads
  unfolding sq_full
  sq_full-all depth s d = all_asked-all (sq_full k depth s) s s.active_threads d

  -- The active threads have units.
  abbrev pub IsActive : Lsq k → Type 0
  IsActive s = All (λ tid. tid < length s.thread) s.active_threads

  all_active-some :
      (test : k.LsqUnit → Bool) (s : Lsq k) (tids : List ℕ)
      → All (λ tid. tid < length s.thread) tids
      → (b : Bool) × (all_active k test s tids ≡ ok b)
  unfolding all_active unit_of
  all_active-some test s [] at = (true, refl)
  all_active-some test s (tid ∷ tids) (at, ats) =
      let (u, eq) = get_elem?_lt s.thread tid at in
      let (b, rest) = all_active-some test s tids ats in
      elim (Bool-cases (test u)) [
        | inl passes ↦ (b, rw (eq, passes) rest)
        | inr fails ↦ (false, rw (eq, fails) refl)
      ]

  -- With a unit for every active thread, the queue is empty exactly if it is drained, though
  -- `isEmpty` asks of the store queues only if the load queues are empty.
  pub is_empty-is_drained : (s : Lsq k) → IsActive s → is_empty k s ≡ is_drained k s
  unfolding is_empty is_drained lq_empty sq_empty
  is_empty-is_drained s a =
      let (lq, eq) = all_active-some k.lq_empty s s.active_threads a in
      let (sq, eq1) = all_active-some k.sq_empty s s.active_threads a in
      ground (arith, eq, eq1, Bool-cases lq)
