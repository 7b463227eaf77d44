-- ===== src/Ruby/Copied.antt =====
-- The bytes that functional accesses move.
-- Code: src/mem/ruby/slicc_interface/RubySlicc_Util.hh.
use patch_tectreee.Base.{
  ℕ, zero, suc, ◌+◌, ◌%◌, ◌^◌, ◌≤◌, ◌<◌, ◌≡◌, refl, sym, ap, ◌∙◌, true, ◌==◌, some, List, length,
  get_elem?, set, arith, Bool-cases, lt→ltb, ==_refl, ==-eq, inl, inr, length-set,
  get_elem?-set_same, get_elem?-set_other, get_elem?_lt, ◌⊎◌, List-ext,
}
use patch_tectreee.Base.Outcome.{ok}
use patch_tectreee.Ruby.Functional.{
  BlockPlatform, DataPacket, start_byte, read_bytes, test_and_read, write_bytes, test_and_write,
}

module _ (b : BlockPlatform) where
  open b use {DataBlock, block_size, get_byte, set_byte, make_line_address}

  -- A step of each loop at the byte `j` of the block.
  read_bytes-suc :
      (n i start j : ℕ) (blk : DataBlock) (bytes : List ℕ)
      → (i + start) % 2 ^ 32 ≡ j
      → j < block_size
      → read_bytes b (suc n) i start blk bytes
        ≡ read_bytes b n (i + 1) start blk (set bytes i (get_byte blk j))
  unfolding read_bytes
  read_bytes-suc n i start j blk bytes at inside = rw (at, lt→ltb j block_size inside) refl

  write_bytes-suc :
      (n i start j v : ℕ) (blk : DataBlock) (bytes : List ℕ)
      → (i + start) % 2 ^ 32 ≡ j
      → j < block_size
      → get_elem? bytes i ≡ some v
      → write_bytes b (suc n) i start bytes blk
        ≡ write_bytes b n (i + 1) start bytes (set_byte blk j v)
  unfolding write_bytes
  write_bytes-suc n i start j v blk bytes at inside read =
      rw (at, lt→ltb j block_size inside, read) refl

  -- The loop of the read, from the byte `i` on: it replaces the bytes from there by the block's.
  read_bytes-get_byte :
      (n i start : ℕ) (blk : DataBlock) (bytes : List ℕ)
      → i + n ≡ length bytes
      → start + length bytes ≤ block_size
      → block_size < 2 ^ 31
      → (out : List ℕ) × (read_bytes b n i start blk bytes ≡ ok out)
        × (length out ≡ length bytes)
        × ((k : ℕ) → k < i → get_elem? out k ≡ get_elem? bytes k)
        × ((k : ℕ) → i ≤ k → k < length bytes → get_elem? out k ≡ some (get_byte blk (start + k)))
  unfolding read_bytes
  read_bytes-get_byte zero i start blk bytes e fits small =
      (bytes, refl, refl, λ _ _. refl, λ k l u. absurd (omega (arith, e)))
  read_bytes-get_byte (suc n) i start blk bytes e fits small =
      let at : (i + start) % 2 ^ 32 ≡ start + i = omega (arith, e) in
      let next = set bytes i (get_byte blk (start + i)) in
      let len = length-set bytes i (get_byte blk (start + i)) in
      let (out, run, same, before, after) =
        read_bytes-get_byte n (i + 1) start blk next (omega (arith, e, len)) (omega (arith, len))
          small in
      (
        out,
        read_bytes-suc n i start (start + i) blk bytes at (omega (arith, e)) ∙ run,
        same ∙ len,
        λ k l. before k (omega arith) ∙ get_elem?-set_other bytes i k _ (omega arith),
        λ k l u. elim (Bool-cases (i == k)) [
          | inl now ↦
              let e = ==-eq i k now in
              before k (omega (arith, e))
              ∙ ap (get_elem? next) (sym e)
              ∙ get_elem?-set_same bytes i _ (omega (arith, e))
              ∙ ap (λ j. some (get_byte blk (start + j))) e
          | inr later ↦ after k (ground (arith, later)) (omega (arith, len))
        ],
      )

  -- The loop of the write, from the byte `i` on: it replaces the block's bytes from `start + i` on by
  -- the packet's, and no others.
  write_bytes-get_byte :
      (n i start : ℕ) (bytes : List ℕ) (blk : DataBlock)
      → i + n ≡ length bytes
      → start + length bytes ≤ block_size
      → block_size < 2 ^ 31
      → (out : DataBlock) × (write_bytes b n i start bytes blk ≡ ok out)
        × ((k : ℕ) → i ≤ k → k < length bytes → some (get_byte out (start + k)) ≡ get_elem? bytes k)
        × ((j : ℕ)
            → j < block_size
            → (j < start + i) ⊎ (start + length bytes ≤ j)
            → get_byte out j ≡ get_byte blk j)
  unfolding write_bytes
  write_bytes-get_byte zero i start bytes blk e fits small =
      (blk, refl, λ k l u. absurd (omega (arith, e)), λ _ _ _. refl)
  write_bytes-get_byte (suc n) i start bytes blk e fits small =
      let at : (i + start) % 2 ^ 32 ≡ start + i = omega (arith, e) in
      let (v, read) = get_elem?_lt bytes i (omega (arith, e)) in
      let next = set_byte blk (start + i) v in
      let inside : start + i < block_size = omega (arith, e) in
      let (out, run, written, others) =
        write_bytes-get_byte n (i + 1) start bytes next (omega (arith, e)) fits small in
      (
        out,
        write_bytes-suc n i start (start + i) v blk bytes at inside read ∙ run,
        λ k l u. elim (Bool-cases (i == k)) [
          | inl now ↦
              let same = ==-eq i k now in
              ap (λ j. some (get_byte out (start + j))) (sym same)
              ∙ ap some (
                  others (start + i) inside (inl (omega arith))
                  ∙ b.get_byte-set_byte blk (start + i) v inside)
              ∙ sym read
              ∙ ap (get_elem? bytes) same
          | inr later ↦ written k (ground (arith, later)) u
        ],
        λ j l away.
            others j l (ground (arith, away))
            ∙ b.get_byte-set_byte_ne blk (start + i) j v inside l (ground (arith, away, e)),
      )

  -- The packet's bytes lie in the line of the block's address.
  pub record IsWithin (addr : ℕ) (pkt : DataPacket) : Type 0 where
    pub same_line : make_line_address pkt.addr ≡ make_line_address addr
    pub sized : length pkt.bytes ≡ pkt.size
    pub fits : start_byte b pkt (make_line_address addr) + pkt.size ≤ block_size
    pub small : block_size < 2 ^ 31

  -- A functional read of a packet within the block's line succeeds, and its data becomes the block's
  -- bytes from the packet's place in the line on.
  pub test_and_read-get_byte :
      (addr : ℕ) (blk : DataBlock) (pkt : DataPacket)
      → IsWithin addr pkt
      → (out : List ℕ) × (test_and_read b addr blk pkt ≡ ok (true, record pkt { bytes = out }))
        × (length out ≡ pkt.size)
        × ((k : ℕ)
            → k < pkt.size
            → get_elem? out k ≡ some (get_byte blk (start_byte b pkt (make_line_address addr) + k)))
  unfolding test_and_read
  test_and_read-get_byte addr blk pkt w =
      let start = start_byte b pkt (make_line_address addr) in
      let (out, run, len, before, after) =
        read_bytes-get_byte pkt.size 0 start blk pkt.bytes (omega (arith, w.sized))
          (omega (arith, w.sized, w.fits)) w.small in
      (
        out,
        rw (w.same_line, ==_refl (make_line_address addr), run) refl,
        len ∙ w.sized,
        λ k l. after k (omega arith) (omega (arith, w.sized)),
      )

  -- A functional write of a packet within the block's line succeeds; the bytes of the block in the
  -- packet's place are its data, and every other byte is as before.
  pub test_and_write-get_byte :
      (addr : ℕ) (blk : DataBlock) (pkt : DataPacket)
      → IsWithin addr pkt
      → (out : DataBlock) × (test_and_write b addr blk pkt ≡ ok (true, out))
        × ((k : ℕ)
            → k < pkt.size
            → some (get_byte out (start_byte b pkt (make_line_address addr) + k))
              ≡ get_elem? pkt.bytes k)
        × ((j : ℕ)
            → j < block_size
            → (j < start_byte b pkt (make_line_address addr))
              ⊎ (start_byte b pkt (make_line_address addr) + pkt.size ≤ j)
            → get_byte out j ≡ get_byte blk j)
  unfolding test_and_write
  test_and_write-get_byte addr blk pkt w =
      let start = start_byte b pkt (make_line_address addr) in
      let (out, run, written, others) =
        write_bytes-get_byte pkt.size 0 start pkt.bytes blk (omega (arith, w.sized))
          (omega (arith, w.sized, w.fits)) w.small in
      (
        out,
        rw (w.same_line, ==_refl (make_line_address addr), run) refl,
        λ k l. written k (omega arith) (omega (arith, w.sized)),
        λ j l away. others j l (ground (arith, away, w.sized)),
      )

  -- What a functional write of a packet within the block's line stores, a functional read into
  -- another packet for the same bytes gives back, whatever that packet held before.
  pub test_and_write-test_and_read :
      (addr : ℕ) (blk : DataBlock) (pkt other : DataPacket)
      → IsWithin addr pkt
      → other.addr ≡ pkt.addr
      → other.size ≡ pkt.size
      → length other.bytes ≡ other.size
      → (out : DataBlock) × (test_and_write b addr blk pkt ≡ ok (true, out))
        × (test_and_read b addr out other ≡ ok (true, record other { bytes = pkt.bytes }))
  test_and_write-test_and_read addr blk pkt other w same_addr same_size sized =
      let line = make_line_address addr in
      let start : start_byte b other line ≡ start_byte b pkt line =
        ap (λ a. start_byte b (record pkt { addr = a }) line) same_addr in
      let w' : IsWithin addr other = record {
        same_line = ap make_line_address same_addr ∙ w.same_line;
        sized = sized;
        fits = omega (arith, start, same_size, w.fits);
        small = w.small;
      } in
      let (out, wrote, written, others) = test_and_write-get_byte addr blk pkt w in
      let (bytes, read, len, got) = test_and_read-get_byte addr out other w' in
      let same : bytes ≡ pkt.bytes =
        List-ext bytes pkt.bytes (len ∙ same_size ∙ sym w.sized) (λ k l.
          let inside : k < pkt.size = omega (arith, l, len, same_size) in
          got k (omega (arith, inside, same_size))
          ∙ ap (λ n. some (get_byte out (n + k))) start
          ∙ written k inside) in
      (out, wrote, read ∙ ap (λ l. ok (true, record other { bytes = l })) same)
