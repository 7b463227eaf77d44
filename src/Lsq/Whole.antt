-- ===== src/Lsq/Whole.antt =====
-- The pieces of a split access cover it. Code: `SplitDataRequest::initiateTranslation` of
-- src/cpu/o3/lsq.cc.
use patch_tectreee.Base.{
  ℕ, suc, ◌+◌, ◌-◌, ◌*◌, ◌/◌, ◌%◌, ◌^◌, ◌≤◌, ◌<◌, ◌≡◌, refl, sym, ap, ◌∙◌, Bool, List, [], ◌∷◌,
  ◌++◌, length, arith, inl, inr, Bool-cases, ltb, length-append, subst,
}
use mathlib.Core.List.{append-nil, append_assoc}
use native.Mathlib.Nat.{one-le-pow}
use patch_tectreee.Base.Outcome.{ok}
use patch_tectreee.Request.State.{RequestPlatform}
use patch_tectreee.Lsq.Platform.{LsqPlatform}
use patch_tectreee.Lsq.Fragments.{Piece, slice, whole_lines, tail_piece, split_pieces}
use patch_tectreee.Lsq.Lines.{crossing}
use patch_tectreee.Lsq.Partition.{
  Covers, all_bytes, Covers-append, all_bytes-append, from_begin-at, prefix_of, slice-at,
  whole_lines-Covers,
}

empty_of_length : (bytes : List Bool) → length bytes ≡ 0 → bytes ≡ []
empty_of_length [] h = refl
empty_of_length (b ∷ bytes) h = absurd (omega (arith, h))

join :
    (k a b c a' c' : ℕ) (ps qs : List Piece)
    → Covers k a ps b
    → Covers k b qs c
    → a ≡ a'
    → c ≡ c'
    → Covers k a' (ps ++ qs) c'
join k a b c a' c' ps qs h g e f =
    subst (λ x. Covers k x (ps ++ qs) c') e
      (subst (λ x. Covers k a (ps ++ qs) x) f (Covers-append k a b c ps qs h g))

gather :
    (first left bytes : List Bool) (ps qs : List Piece)
    → bytes ≡ (first ++ all_bytes ps) ++ left
    → all_bytes qs ≡ left
    → first ++ all_bytes (ps ++ qs) ≡ bytes
gather first left bytes ps qs whole kept =
    ap (λ x. first ++ x) (all_bytes-append ps qs)
    ∙ sym (append_assoc first (all_bytes ps) (all_bytes qs))
    ∙ ap (λ x. (first ++ all_bytes ps) ++ x) kept
    ∙ sym whole

module _ (q : RequestPlatform) (l : LsqPlatform) where
  open l use {addr_block_align}

  -- The tail covers what the lines before it leave.
  tail_piece-Covers :
      (k j base size so_far : ℕ) (bytes before rest : List Bool)
      → base ≡ j * k
      → so_far ≤ size
      → size < so_far + k
      → size < 2 ^ 32
      → bytes ≡ before ++ rest
      → length before ≡ so_far
      → length bytes ≡ size
      → (ps : List Piece) × (tail_piece q l base size so_far bytes ≡ ok ps)
        × Covers k base ps (base + (size - so_far))
        × (all_bytes ps ≡ rest)
  unfolding tail_piece
  tail_piece-Covers k j base size so_far bytes before rest at low high b e len all =
      let n : length rest ≡ size - so_far =
        omega (arith, ap length e, length-append before rest, len, all) in
      elim (Bool-cases (ltb so_far size)) [
        | inl some_left ↦
            let m : (size + 2 ^ 32 - so_far) % 2 ^ 32 ≡ size - so_far = ground (arith, some_left) in
            (
              record { addr = base; size = size - so_far; bytes = rest } ∷ [],
              rw (some_left, e, ← len, from_begin-at q before rest)
                  (ap (λ (x : ℕ). ok (record { addr = base; size = x; bytes = rest } ∷ []))
                    (omega (arith, len, m))),
              (refl, ground (arith, some_left), n, (j, omega (arith, at), omega (arith, at)), refl),
              append-nil rest,
            )
        | inr done ↦ (
          [],
          rw done refl,
          ground (arith, done, low),
          sym (empty_of_length rest (ground (arith, done, n))),
        )
      ]

  split_run :
      (k a size next final pre covered : ℕ) (bytes first : List Bool) (ps tail : List Piece)
      → addr_block_align ((a + k) % 2 ^ 64) k ≡ next
      → addr_block_align ((a + size) % 2 ^ 64) k ≡ final
      → (next + 2 ^ 64 - a) % 2 ^ 64 ≡ pre
      → pre % 2 ^ 32 ≡ pre
      → slice q l bytes 0 pre ≡ ok first
      → whole_lines q l (suc size) k next final pre bytes ≡ ok (ps, covered)
      → tail_piece q l final size covered bytes ≡ ok tail
      → split_pieces q l k a size bytes
        ≡ ok (record { addr = a; size = pre; bytes = first } ∷ ps ++ tail)
  unfolding split_pieces
  split_run k a size next final pre covered bytes first ps tail e1 e2 e3 e4 cut run last =
      rw (e1, e2, e3, e4, cut, run, last) refl

  -- The pieces, for a line of `k` bytes that the alignment knows.
  pieces-Covers :
      (k a size : ℕ) (bytes : List Bool)
      → 0 < k
      → ((x : ℕ) → addr_block_align x k ≡ x / k * k)
      → k < a % k + size
      → size < 2 ^ 32
      → a + size + k < 2 ^ 64
      → length bytes ≡ size
      → (ps : List Piece) × (split_pieces q l k a size bytes ≡ ok ps)
        × Covers k a ps (a + size)
        × (all_bytes ps ≡ bytes)
  pieces-Covers k a size bytes kp align over b1 b2 len =
      let c = crossing k a size kp over in
      let next = suc c.first * k in
      let pre = next - a in
      let covered = pre + c.whole * k in
      let e1 : addr_block_align ((a + k) % 2 ^ 64) k ≡ next =
        ap (λ (t : ℕ). addr_block_align t k) (omega (arith, b2)) ∙ align (a + k) ∙ c.next_addr in
      let e2 : addr_block_align ((a + size) % 2 ^ 64) k ≡ next + c.whole * k =
        ap (λ (t : ℕ). addr_block_align t k) (omega (arith, b2))
        ∙ align (a + size)
        ∙ c.final_addr in
      let e3 : (next + 2 ^ 64 - a) % 2 ^ 64 ≡ pre = omega (arith, b2, c.whole_ends, c.line_ends) in
      let (first, rest, cut, flen) =
        prefix_of q bytes pre (omega (arith, len, c.whole_ends, c.line_ends)) in
      let (ps, left, run, cover, whole, total) =
        whole_lines-Covers q l k c.whole (suc size) (suc c.first) next (next + c.whole * k) pre
          bytes first rest kp (omega (arith, c.rounds, c.whole_ends, c.line_ends)) refl refl
          (omega (arith, c.whole_ends, b2)) (omega (arith, c.whole_ends, c.line_ends, b1)) cut flen
          (omega (
            arith,
            ap length cut,
            length-append first rest,
            flen,
            len,
            c.whole_ends,
            c.line_ends,
          )) in
      let (tail, last, end, kept) =
        tail_piece-Covers k (suc c.first + c.whole) (next + c.whole * k) size covered bytes
          (first ++ all_bytes ps) left c.final_line (omega (arith, c.whole_ends, c.line_ends))
          (omega (arith, c.tail_fits, c.line_ends)) b1 whole total len in
      (
        record { addr = a; size = pre; bytes = first } ∷ ps ++ tail,
        split_run k a size next (next + c.whole * k) pre covered bytes first ps tail e1 e2 e3
            (omega (arith, b1, c.whole_ends, c.line_ends))
            (slice-at q l bytes [] first rest 0 pre cut refl flen) run last,
        (
          refl,
          omega (arith, c.line_ends),
          flen,
          (c.first, c.line_starts, omega (arith, c.first_end, c.line_ends)),
          join k next (next + c.whole * k) (next + c.whole * k + (size - covered)) (a + pre)
              (a + size) ps tail cover end (omega (arith, c.line_ends))
              (omega (arith, c.line_ends, c.whole_ends)),
        ),
        gather first left bytes ps tail whole kept,
      )

  -- An access that leaves its line of `2 ^ n` bytes, and does not wrap around, is cut into pieces
  -- that follow one another from its address to its end; none is empty, each lies in one line and
  -- has an enable bit for each of its bytes, and together they have the access's enable bits.
  pub split_pieces-Covers :
      (n a size : ℕ) (bytes : List Bool)
      → 2 ^ n < a % 2 ^ n + size
      → size < 2 ^ 32
      → a + size + 2 ^ n < 2 ^ 64
      → length bytes ≡ size
      → (ps : List Piece) × (split_pieces q l (2 ^ n) a size bytes ≡ ok ps)
        × Covers (2 ^ n) a ps (a + size)
        × (all_bytes ps ≡ bytes)
  split_pieces-Covers n a size bytes =
      pieces-Covers (2 ^ n) a size bytes (one-le-pow n 2 (omega arith))
        (λ x. l.addr_block_align_pow x n)
