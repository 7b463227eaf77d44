-- ===== src/Request/Plain.antt =====
-- A small platform for the runs of src/mem/request.hh: flags are words of bits, and identifiers are
-- numbers.
use patch_tectreee.Base.{ℕ, refl, Bool, false}
use patch_tectreee.Request.Masks.{either_of, both_of, none_of, nonzero, FlagWord}
use patch_tectreee.Request.State.{RequestPlatform}

-- Flags as words of bits.
abbrev plain_word : (w : ℕ) → FlagWord w
plain_word w = record {
  Flags = ℕ → Bool;
  cleared = λ _. false;
  bits = λ f. f;
  set = either_of;
  clear = λ f m. both_of f (none_of m);
  is_set = λ f m. nonzero w (both_of f m);
  bits_cleared = λ _ _. refl;
  bits_set = λ _ _ _ _. refl;
  bits_clear = λ _ _ _ _. refl;
  is_set_bits = λ _ _. refl;
}

abbrev pub plain : RequestPlatform
plain = record {
  word = plain_word;
  ContextId = ℕ;
  invalid_context_id = 99;
  HtmFailureFaultCause = ℕ;
  invalid_cause = 0;
  AtomicOpFunctor = ℕ;
  clone = λ op. op;
  LocalAccessor = ℕ;
  max_tick = 18446744073709551615;
  max_addr = 18446744073709551615;
  invalid_requestor_id = 65535;
}
