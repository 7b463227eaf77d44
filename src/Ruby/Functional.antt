-- ===== src/Ruby/Functional.antt =====
-- Functional accesses to a data block: `testAndRead`, `testAndReadMask`, `testAndWrite`,
-- `countBoolVec` and `addressOffset` of src/mem/ruby/slicc_interface/RubySlicc_Util.hh.
use patch_tectreee.Base.{
  ℕ, zero, suc, ◌+◌, ◌-◌, ◌%◌, ◌^◌, ◌<◌, ◌≡◌, ◌≢◌, Bool, true, false, ◌==◌, if◌then◌else◌, ltb, leb,
  List, [], ◌∷◌, set, get_elem?,
}
use patch_tectreee.Base.Outcome.{Outcome, ok, ◌>>=◌, ◌>>◌, assert, deref}

-- `DataBlock`, of `block_size` bytes, `WriteMask::test`, and `makeLineAddress`.
pub record BlockPlatform : Type 1 where
  pub DataBlock : Type 0
  pub WriteMask : Type 0
  pub block_size : ℕ
  pub get_byte : DataBlock → ℕ → ℕ
  pub set_byte : DataBlock → ℕ → ℕ → DataBlock
  pub test : WriteMask → ℕ → Bool
  pub make_line_address : ℕ → ℕ
  pub get_byte-set_byte :
      (b : DataBlock) (i v : ℕ) → i < block_size → get_byte (set_byte b i v) i ≡ v
  pub get_byte-set_byte_ne :
      (b : DataBlock) (i j v : ℕ)
      → i < block_size
      → j < block_size
      → i ≢ j
      → get_byte (set_byte b i v) j ≡ get_byte b j

-- A packet: its address and the bytes of its data, as many as its size.
pub record DataPacket : Type 0 where
  pub addr : ℕ
  pub size : ℕ
  pub bytes : List ℕ

module _ (b : BlockPlatform) where
  open b use {DataBlock, WriteMask, block_size, get_byte, set_byte, test, make_line_address}

  -- A byte of the block; one outside it stops the program.
  abbrev in_block : ℕ → Outcome (Unit {0})
  in_block i = assert (ltb i block_size)

  -- `startByte`, an `unsigned`.
  abbrev pub start_byte : DataPacket → ℕ → ℕ
  start_byte pkt line_addr = (pkt.addr + 2 ^ 64 - line_addr) % 2 ^ 64 % 2 ^ 32

  -- The loop of `testAndRead`, with `n` bytes left from the byte `i` on.
  unfoldable pub read_bytes : ℕ → ℕ → ℕ → DataBlock → List ℕ → Outcome (List ℕ)
  read_bytes zero i start blk bytes = ok bytes
  read_bytes (suc n) i start blk bytes = do
    in_block ((i + start) % 2 ^ 32)
    read_bytes n (i + 1) start blk (set bytes i (get_byte blk ((i + start) % 2 ^ 32)))

  unfoldable pub test_and_read : ℕ → DataBlock → DataPacket → Outcome (Bool × DataPacket)
  test_and_read addr blk pkt =
      let line_addr = make_line_address addr in
      if make_line_address pkt.addr == line_addr
      then (do
        bytes ← read_bytes pkt.size 0 (start_byte pkt line_addr) blk pkt.bytes
        ok (true, record pkt { bytes = bytes }))
      else ok (false, pkt)

  -- The loop of `testAndReadMask`.
  unfoldable pub read_masked :
      ℕ → ℕ → ℕ → DataBlock → WriteMask → Bool → List ℕ → Outcome (Bool × List ℕ)
  read_masked zero i start blk mask was_read bytes = ok (was_read, bytes)
  read_masked (suc n) i start blk mask was_read bytes = do
    in_block ((i + start) % 2 ^ 32)
    let at = (i + start) % 2 ^ 32
    let now_read = (if test mask at then true else was_read)
    let next = (if test mask at then set bytes i (get_byte blk at) else bytes)
    read_masked n (i + 1) start blk mask now_read next

  unfoldable pub test_and_read_mask :
      ℕ → DataBlock → WriteMask → DataPacket → Outcome (Bool × DataPacket)
  test_and_read_mask addr blk mask pkt =
      let line_addr = make_line_address addr in
      if make_line_address pkt.addr == line_addr
      then (do
        (was_read, bytes) ←
            read_masked pkt.size 0 (start_byte pkt line_addr) blk mask false pkt.bytes
        ok (was_read, record pkt { bytes = bytes }))
      else ok (false, pkt)

  -- The loop of `testAndWrite`.
  unfoldable pub write_bytes : ℕ → ℕ → ℕ → List ℕ → DataBlock → Outcome DataBlock
  write_bytes zero i start bytes blk = ok blk
  write_bytes (suc n) i start bytes blk = do
    in_block ((i + start) % 2 ^ 32)
    value ← deref (get_elem? bytes i)
    write_bytes n (i + 1) start bytes (set_byte blk ((i + start) % 2 ^ 32) value)

  unfoldable pub test_and_write : ℕ → DataBlock → DataPacket → Outcome (Bool × DataBlock)
  test_and_write addr blk pkt =
      let line_addr = make_line_address addr in
      if make_line_address pkt.addr == line_addr
      then (do
        written ← write_bytes pkt.size 0 (start_byte pkt line_addr) pkt.bytes blk
        ok (true, written))
      else ok (false, blk)

unfoldable pub count_bool_vec : List Bool → ℕ
count_bool_vec [] = 0
count_bool_vec (e ∷ vec) = if e then count_bool_vec vec + 1 else count_bool_vec vec

-- `addressOffset`; `INT_MAX` is 2 ^ 31 - 1.
unfoldable pub address_offset : ℕ → ℕ → Outcome ℕ
address_offset addr base = do
  assert (leb base addr)
  assert (ltb (addr - base) (2 ^ 31 - 1))
  ok (addr - base)
