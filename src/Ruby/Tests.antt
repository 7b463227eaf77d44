-- ===== src/Ruby/Tests.antt =====
-- Runs of src/mem/ruby/slicc_interface/RubySlicc_Util.hh and RubyRequest.hh, and instances of the
-- theorems about them.
use patch_tectreee.Base.{
  ℕ, ◌≡◌, refl, ◌⊎◌, ◌<◌, ◌≤◌, ◌+◌, ◌/◌, ◌*◌, Bool, true, false, ◌==◌, if◌then◌else◌, none, some,
  List, [], ◌∷◌, length, get_elem?, arith, ==_refl, ==-ne,
}
use patch_tectreee.Base.Outcome.{ok, abort}
use patch_tectreee.Request.Masks.{bit}
use patch_tectreee.Request.State.{Request, physical_request}
use patch_tectreee.Request.Query.{is_mem_mgmt}
use patch_tectreee.Request.Plain.{plain}
use patch_tectreee.Ruby.Message.{
  MessagePlatform, RubyRequest, ruby_request, management_ruby_request, masked_ruby_request,
  atomic_ruby_request,
}
use patch_tectreee.Ruby.Functional.{
  BlockPlatform, DataPacket, test_and_read, read_bytes, test_and_read_mask, read_masked,
  test_and_write, count_bool_vec, address_offset,
}
use patch_tectreee.Ruby.Sent
use patch_tectreee.Ruby.Copied
use patch_tectreee.Ruby.{RubyRequestType}

-- Eight-byte blocks as functions, and messages whose packets are their requests.
abbrev bytes8 : BlockPlatform
bytes8 = record {
  DataBlock = ℕ → ℕ;
  WriteMask = ℕ → Bool;
  block_size = 8;
  get_byte = λ blk i. blk i;
  set_byte = λ blk i v j. if i == j then v else blk j;
  test = λ mask i. mask i;
  make_line_address = λ a. a / 8 * 8;
  get_byte-set_byte = λ blk i v h. rw (==_refl i) refl;
  get_byte-set_byte_ne = λ blk i j v h k ne. rw (==-ne i j ne) refl;
}

abbrev two_bytes : DataPacket
two_bytes = record { addr = 19; size = 2; bytes = 7 ∷ 9 ∷ [] }

two_bytes-IsWithin : Copied.IsWithin bytes8 16 two_bytes
two_bytes-IsWithin = record {
  same_line = refl;
  sized = refl;
  fits = omega arith;
  small = omega arith;
}

read_two_bytes :
    test_and_read bytes8 16 (λ i. i) two_bytes ≡ ok (true, record two_bytes { bytes = 3 ∷ 4 ∷ [] })
unfolding test_and_read read_bytes
read_two_bytes = refl

read_masked_byte :
    test_and_read_mask bytes8 16 (λ i. i) (λ i. i == 4) two_bytes
    ≡ ok (true, record two_bytes { bytes = 7 ∷ 4 ∷ [] })
unfolding test_and_read_mask read_masked
read_masked_byte = refl

count_three : count_bool_vec (true ∷ false ∷ true ∷ true ∷ []) ≡ 3
unfolding count_bool_vec
count_three = refl

test_and_read-get_byte_example :
    (out : List ℕ) × (test_and_read bytes8 16 (λ i. i) two_bytes
      ≡ ok (true, record two_bytes { bytes = out }))
    × (length out ≡ 2)
    × ((k : ℕ) → k < 2 → get_elem? out k ≡ some (3 + k))
test_and_read-get_byte_example =
    Copied.test_and_read-get_byte bytes8 16 (λ i. i) two_bytes two_bytes-IsWithin

test_and_write-get_byte_example :
    (out : ℕ → ℕ) × (test_and_write bytes8 16 (λ i. i) two_bytes ≡ ok (true, out))
    × ((k : ℕ) → k < 2 → some (out (3 + k)) ≡ get_elem? (7 ∷ 9 ∷ []) k)
    × ((j : ℕ) → j < 8 → (j < 3) ⊎ (3 + 2 ≤ j) → out j ≡ j)
test_and_write-get_byte_example =
    Copied.test_and_write-get_byte bytes8 16 (λ i. i) two_bytes two_bytes-IsWithin

-- A packet for the same bytes that holds none of them yet.
abbrev blank : DataPacket
blank = record two_bytes { bytes = 0 ∷ 0 ∷ [] }

test_and_write-test_and_read_example :
    (out : ℕ → ℕ) × (test_and_write bytes8 16 (λ i. i) two_bytes ≡ ok (true, out))
    × (test_and_read bytes8 16 out blank ≡ ok (true, two_bytes))
test_and_write-test_and_read_example =
    Copied.test_and_write-test_and_read bytes8 16 (λ i. i) two_bytes blank two_bytes-IsWithin refl
      refl refl

abbrev direct : MessagePlatform plain
direct = record {
  Packet = Request plain;
  req = λ r. r;
  RubyAccessMode = ℕ;
  PrefetchBit = Bool;
  prefetch_no = false;
  WriteMask = List Bool;
  no_mask = [];
  mask_of = λ _ mask. mask;
  mask_with_atomics = λ _ mask _. mask;
  DataBlock = ℕ;
  no_data = 0;
  make_line_address = λ a. a / 64 * 64;
}

abbrev load : Request plain
load = physical_request plain 7 130 4 (bit 40) 3

insert_tardis_tso_info-none_example :
    (ruby_request plain direct 7 130 4 0 RubyRequestType.ld 0 none false 1 ≡ abort)
    × (management_ruby_request plain direct 7 0 RubyRequestType.ld 0 none 1 ≡ abort)
    × (masked_ruby_request plain direct 7 130 4 0 RubyRequestType.ld 0 none false 2 1 1
          (true ∷ [])
          5
          6
        ≡ abort)
    × (atomic_ruby_request plain direct 7 130 4 0 RubyRequestType.ld 0 none false 2 1 1
          (true ∷ [])
          5
          []
          6
        ≡ abort)
insert_tardis_tso_info-none_example =
    Sent.insert_tardis_tso_info-none plain direct 7 130 4 0 RubyRequestType.ld 0 false 2 1 1
      (true ∷ []) 5 [] 6

ruby_request-Carries_example :
    (m n : RubyRequest plain direct) × (ruby_request plain direct 7 130 4 0 RubyRequestType.ld 0
        (some load)
        false
        1
      ≡ ok m)
    × (m.line_address ≡ some 128)
    × Sent.Carries plain direct m load
    × (management_ruby_request plain direct 7 0 RubyRequestType.ld 0 (some load) 1
        ≡ (if is_mem_mgmt plain load then ok n else abort))
    × Sent.Carries plain direct n load
ruby_request-Carries_example =
    Sent.ruby_request-Carries plain direct 7 130 4 0 RubyRequestType.ld 0 load false 1

offset_3 : (address_offset 19 16 ≡ ok 3) × (address_offset 16 19 ≡ abort)
unfolding address_offset
offset_3 = (refl, refl)
