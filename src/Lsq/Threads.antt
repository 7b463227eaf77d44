-- ===== src/Lsq/Threads.antt =====
-- What the queue asks and does of the units of its threads: src/cpu/o3/lsq.cc. The results `int` and
-- `unsigned` of the counts are their 32 bits.
use patch_tectreee.Base.{
  ℕ, zero, suc, ◌+◌, ◌%◌, ◌^◌, Bool, true, false, not, ◌&&◌, ◌||◌, if◌then◌else◌, List, [], ◌∷◌,
  get_elem?, set,
}
use patch_tectreee.Base.Outcome.{Outcome, ok, abort, ◌>>=◌, deref}
use patch_tectreee.Lsq.Queue.{
  is_dynamic, QueuePlatform, Lsq, set_cache_blocked, Shared, shared_of, with_shared,
}

module _ (k : QueuePlatform) where
  open k use {LsqUnit, Iew, DynInst, thread_number}

  -- `thread[tid]`.
  unfoldable pub unit_of : Lsq k → ℕ → Outcome LsqUnit
  unit_of s tid = deref (get_elem? s.thread tid)

  -- A call of a unit that changes it.
  unfoldable pub on_unit : (LsqUnit → LsqUnit) → Lsq k → ℕ → Outcome (Lsq k)
  on_unit f s tid = do u ← unit_of s tid; ok (record s { thread = set s.thread tid (f u) })

  -- The loop over the active threads that returns `false` at the first that fails the test.
  unfoldable pub all_active : (LsqUnit → Bool) → Lsq k → List ℕ → Outcome Bool
  all_active test s [] = ok true
  all_active test s (tid ∷ tids) = do
    u ← unit_of s tid
    let rest = all_active test s tids
    if not (test u) then ok false else rest

  -- The loop that returns `true` at the first that passes it.
  unfoldable pub any_active : (LsqUnit → Bool) → Lsq k → List ℕ → Outcome Bool
  any_active test s [] = ok false
  any_active test s (tid ∷ tids) = do
    u ← unit_of s tid
    let rest = any_active test s tids
    if test u then ok true else rest

  -- The loop that adds up a count.
  unfoldable pub total_from : (LsqUnit → ℕ) → Lsq k → ℕ → List ℕ → Outcome ℕ
  total_from measure s total [] = ok total
  total_from measure s total (tid ∷ tids) = do
    u ← unit_of s tid
    total_from measure s ((total + measure u) % 2 ^ 32) tids

  -- A call of a unit that may change the queue too, and the loop that calls every active unit so.
  unfoldable pub on_sender :
      (Shared Iew → LsqUnit → Shared Iew × LsqUnit) → Lsq k → ℕ → Outcome (Lsq k)
  on_sender f s tid = do
    u ← unit_of s tid
    let (w, u') = f (shared_of k s) u
    ok (with_shared k (record s { thread = set s.thread tid u' }) w)

  unfoldable pub on_active :
      (Shared Iew → LsqUnit → Shared Iew × LsqUnit) → Lsq k → List ℕ → Outcome (Lsq k)
  on_active f s [] = ok s
  on_active f s (tid ∷ tids) = do s' ← on_sender f s tid; on_active f s' tids

  unfoldable pub lq_empty : Lsq k → Outcome Bool
  lq_empty s = all_active k.lq_empty s s.active_threads

  unfoldable pub sq_empty : Lsq k → Outcome Bool
  sq_empty s = all_active k.sq_empty s s.active_threads

  unfoldable pub is_empty : Lsq k → Outcome Bool
  is_empty s = do lq ← lq_empty s; if lq then sq_empty s else ok false

  unfoldable pub is_drained : Lsq k → Outcome Bool
  is_drained s = do lq ← lq_empty s; sq ← sq_empty s; ok (lq && sq)

  abbrev pub either_full : LsqUnit → Bool
  either_full u = k.lq_full u || k.sq_full u

  unfoldable pub is_full : Lsq k → Outcome Bool
  is_full s = all_active either_full s s.active_threads

  unfoldable pub is_full_of : Lsq k → ℕ → Outcome Bool
  is_full_of s tid =
      if is_dynamic s.lsq_policy then is_full s else (do u ← unit_of s tid; ok (either_full u))

  unfoldable pub lq_full : Lsq k → Outcome Bool
  lq_full s = all_active k.lq_full s s.active_threads

  unfoldable pub lq_full_of : Lsq k → ℕ → Outcome Bool
  lq_full_of s tid =
      if is_dynamic s.lsq_policy then lq_full s else (do u ← unit_of s tid; ok (k.lq_full u))

  -- `sqFull(tid)`; `all` is what a call of `sqFull()` comes to.
  unfoldable pub sq_full_of : Outcome Bool → Lsq k → ℕ → Outcome Bool
  sq_full_of all s tid =
      if is_dynamic s.lsq_policy then all else (do u ← unit_of s tid; ok (k.sq_full u))

  -- The loop of `sqFull()`, which asks `sqFull(tid)` of each active thread.
  unfoldable pub all_asked : (ℕ → Outcome Bool) → List ℕ → Outcome Bool
  all_asked ask [] = ok true
  all_asked ask (tid ∷ tids) = do
    full ← ask tid
    let rest = all_asked ask tids
    if not full then ok false else rest

  -- `sqFull()`: `depth` bounds how deep it and `sqFull(tid)` call each other, and a call beyond it
  -- overflows the stack.
  unfoldable pub sq_full : ℕ → Lsq k → Outcome Bool
  sq_full zero s = abort
  sq_full (suc depth) s = all_asked (sq_full_of (sq_full depth s) s) s.active_threads

  unfoldable pub is_stalled : Lsq k → Outcome Bool
  is_stalled s = all_active k.is_stalled s s.active_threads

  unfoldable pub is_stalled_of : Lsq k → ℕ → Outcome Bool
  is_stalled_of s tid =
      if is_dynamic s.lsq_policy then is_stalled s else (do u ← unit_of s tid; ok (k.is_stalled u))

  unfoldable pub has_stores_to_wb : Lsq k → Outcome Bool
  has_stores_to_wb s = any_active k.has_stores_to_wb s s.active_threads

  unfoldable pub will_wb : Lsq k → Outcome Bool
  will_wb s = any_active k.will_wb s s.active_threads

  unfoldable pub violation : Lsq k → Outcome Bool
  violation s = any_active k.violation s s.active_threads

  unfoldable pub get_count : Lsq k → Outcome ℕ
  get_count s = total_from k.get_count s 0 s.active_threads

  unfoldable pub num_loads : Lsq k → Outcome ℕ
  num_loads s = total_from k.num_loads s 0 s.active_threads

  unfoldable pub num_stores : Lsq k → Outcome ℕ
  num_stores s = total_from k.num_stores s 0 s.active_threads

  unfoldable pub num_free_load_entries : Lsq k → Outcome ℕ
  num_free_load_entries s = total_from k.num_free_load_entries s 0 s.active_threads

  unfoldable pub num_free_store_entries : Lsq k → Outcome ℕ
  num_free_store_entries s = total_from k.num_free_store_entries s 0 s.active_threads

  unfoldable pub insert_load : Lsq k → DynInst → Outcome (Lsq k)
  insert_load s inst = on_unit (k.insert_load inst) s (thread_number inst)

  unfoldable pub insert_store : Lsq k → DynInst → Outcome (Lsq k)
  insert_store s inst = on_unit (k.insert_store inst) s (thread_number inst)

  unfoldable pub commit_loads : Lsq k → ℕ → ℕ → Outcome (Lsq k)
  commit_loads s youngest_inst tid = on_unit (k.commit_loads youngest_inst) s tid

  unfoldable pub commit_stores : Lsq k → ℕ → ℕ → Outcome (Lsq k)
  commit_stores s youngest_inst tid = on_unit (k.commit_stores youngest_inst) s tid

  unfoldable pub writeback_stores : Lsq k → Outcome (Lsq k)
  writeback_stores s = on_active k.writeback_stores s s.active_threads

  unfoldable pub squash : Lsq k → ℕ → ℕ → Outcome (Lsq k)
  squash s squashed_num tid = on_unit (k.squash squashed_num) s tid

  unfoldable pub recv_req_retry : Lsq k → Outcome (Lsq k)
  recv_req_retry s =
      let s' = set_cache_blocked k (record s { iew_stage = k.cache_unblocked s.iew_stage }) false in
      on_active k.recv_retry s' s'.active_threads
