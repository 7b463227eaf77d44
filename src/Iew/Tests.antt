-- ===== src/Iew/Tests.antt =====
-- A run of src/cpu/o3/iew.cc with small queues, and instances of its theorems.
use patch_tectreee.Base.{ℕ, suc, ◌≡◌, refl, true, false, ltb, [], ◌∷◌}
use patch_tectreee.Base.Outcome.{ok}
use patch_tectreee.Iew.Stage.{
  StageStatus, IewInst, IewPlatform, FromCommit, Stage, check_signals_and_update, check_stall,
  resume, block, skid_insert,
}
use patch_tectreee.Iew.Dispatch.{
  cycle, dispatch, dispatch_at, dispatch_insts, dispatch_loop, dispatch_one, ldst_full, issue,
  after_loop, block_again, wake, issued, add,
}
use patch_tectreee.Iew.Signals.{IsTold}
use patch_tectreee.Iew.Credits.{total}
use patch_tectreee.Iew.Cycle
use patch_tectreee.Iew.Credits

-- The queues count the instructions that were put in them.
abbrev counting : IewPlatform
counting = record {
  Queues = ℕ;
  iq_full = ltb 7;
  lq_full = ltb 3;
  sq_full = ltb 3;
  iq_squash = λ n. 0;
  ldst_squash = λ n. 0;
  mark_htm = λ i n. n;
  insert_load = λ i n. n;
  insert_store = λ i n. n;
  insert = λ i n. suc n;
  insert_non_spec = λ i n. suc n;
  insert_barrier = λ i n. suc n;
  record_producer = λ i n. n;
}

abbrev load : IewInst
load = record {
  is_squashed = false;
  is_load = true;
  is_store = false;
  is_atomic = false;
  is_store_conditional = false;
  is_barrier = false;
  is_nop = false;
  is_executed = false;
  is_non_speculative = false;
}

-- Two loads come to a stage that dispatches one in a cycle.
abbrev before : Stage counting
before = record {
  dispatch_status = StageStatus.running;
  insts = load ∷ load ∷ [];
  skid_buffer = [];
  skid_buffer_max = 4;
  dispatch_width = 1;
  to_rename = record {
    iew_block = false;
    iew_unblock = false;
    dispatched = 0;
    dispatched_to_lq = 0;
    dispatched_to_sq = 0;
  };
  wrote_to_time_buffer = false;
  updated_queues = false;
  fetch_redirect = false;
  queues = 0;
}

abbrev after : Stage counting
after = record before {
  dispatch_status = StageStatus.blocked;
  insts = [];
  skid_buffer = load ∷ [];
  to_rename = record {
    iew_block = true;
    iew_unblock = false;
    dispatched = 1;
    dispatched_to_lq = 1;
    dispatched_to_sq = 0;
  };
  wrote_to_time_buffer = true;
  queues = 1;
}

abbrev quiet : FromCommit
quiet = record { squash = false; rob_squashing = false }

after-cycle : cycle counting quiet true true before ≡ ok after
unfolding cycle check_signals_and_update check_stall dispatch dispatch_at resume dispatch_insts
    dispatch_loop dispatch_one ldst_full issue after_loop block_again block skid_insert wake issued
    add
after-cycle = refl

cycle-IsTold_example : IsTold counting false after
cycle-IsTold_example =
    Cycle.cycle-IsTold counting quiet true true before after (refl, refl) after-cycle

cycle-total_example : total counting after ≡ total counting before
cycle-total_example = Credits.cycle-total counting quiet true true before after after-cycle
