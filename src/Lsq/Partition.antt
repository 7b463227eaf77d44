-- ===== src/Lsq/Partition.antt =====
-- The pieces of a split access cover it, in order, without a gap or an overlap.
-- Code: `SplitDataRequest::initiateTranslation` of src/cpu/o3/lsq.cc.
use patch_tectreee.Base.{
  ℕ, zero, suc, ◌+◌, ◌*◌, ◌%◌, ◌^◌, ◌≤◌, ◌<◌, ◌≡◌, refl, sym, ap, subst, ◌∙◌, Bool, true, false,
  List, [], ◌∷◌, ◌++◌, length, arith, ◌==◌, ==_refl, ==-ne, length-append,
}
use native.Mathlib.Nat.{suc-mul}
use mathlib.Core.List.{append_assoc, append-nil}
use patch_tectreee.Base.Outcome.{ok}
use patch_tectreee.Request.State.{RequestPlatform, from_begin}
use patch_tectreee.Lsq.Platform.{LsqPlatform}
use patch_tectreee.Lsq.Fragments.{Piece, slice, whole_lines}

-- The piece lies in one line of `k` bytes.
abbrev pub InLine : ℕ → Piece → Type 0
InLine k p = (j : ℕ) × (j * k ≤ p.addr) × (p.addr + p.size ≤ j * k + k)

-- The pieces follow one another from `start` to `end`: none is empty, each has an enable bit for
-- each of its bytes and lies in one line of `k` bytes.
abbrev pub Covers : ℕ → ℕ → List Piece → ℕ → Type 0
Covers k start [] end = start ≡ end
Covers k start (p ∷ ps) end =
    (p.addr ≡ start)
    × (0 < p.size)
    × (length p.bytes ≡ p.size)
    × InLine k p
    × Covers k (start + p.size) ps end

abbrev pub all_bytes : List Piece → List Bool
all_bytes [] = []
all_bytes (p ∷ ps) = p.bytes ++ all_bytes ps

pub Covers-append :
    (k a b c : ℕ) (ps qs : List Piece) → Covers k a ps b → Covers k b qs c → Covers k a (ps ++ qs) c
Covers-append k a b c [] qs h g = subst (λ n. Covers k n qs c) (sym h) g
Covers-append k a b c (p ∷ ps) qs h g =
    (h.0, h.1, h.2, h.3, Covers-append k (a + p.size) b c ps qs h.4 g)

pub all_bytes-append : (ps qs : List Piece) → all_bytes (ps ++ qs) ≡ all_bytes ps ++ all_bytes qs
all_bytes-append [] qs = refl
all_bytes-append (p ∷ ps) qs =
    ap (λ b. p.bytes ++ b) (all_bytes-append ps qs)
    ∙ sym (append_assoc p.bytes (all_bytes ps) (all_bytes qs))

module _ (q : RequestPlatform) where
  pub from_begin-at :
      (before rest : List Bool) → from_begin q (before ++ rest) (length before) ≡ ok (before, rest)
  unfolding from_begin
  from_begin-at [] rest = refl
  from_begin-at (b ∷ before) rest = rw (from_begin-at before rest) refl

  -- A list has a prefix of each length up to its own.
  pub prefix_of :
      (bytes : List Bool) (n : ℕ)
      → n ≤ length bytes
      → (piece rest : List Bool) × (bytes ≡ piece ++ rest) × (length piece ≡ n)
  prefix_of bytes zero h = ([], bytes, refl, refl)
  prefix_of [] (suc n) h = absurd (omega arith)
  prefix_of (b ∷ bytes) (suc n) h =
      let (piece, rest, e, k) = prefix_of bytes n (omega arith) in
      (b ∷ piece, rest, ap (λ l. b ∷ l) e, ap suc k)

module _ (q : RequestPlatform) (l : LsqPlatform) where
  pub slice-at :
      (bytes before piece rest : List Bool) (s n : ℕ)
      → bytes ≡ before ++ (piece ++ rest)
      → length before ≡ s
      → length piece ≡ n
      → slice q l bytes s n ≡ ok piece
  unfolding slice
  slice-at bytes before piece rest s n e a b =
      rw (e, sym a, sym b, from_begin-at q before (piece ++ rest), from_begin-at q piece rest) refl

  -- The loop ends at the last boundary.
  whole_lines-zero :
      (fuel k base final so_far : ℕ) (bytes : List Bool)
      → base ≡ final
      → whole_lines q l (suc fuel) k base final so_far bytes ≡ ok ([], so_far)
  unfolding whole_lines
  whole_lines-zero fuel k base final so_far bytes here =
      let test : (base == final) ≡ true = rw here (==_refl final) in rw test refl

  -- A round of the loop over whole lines.
  whole_lines-suc :
      (fuel k base final so_far n : ℕ) (bytes piece : List Bool) (ps : List Piece)
      → (base == final) ≡ false
      → slice q l bytes so_far k ≡ ok piece
      → base + k < 2 ^ 64
      → so_far + k < 2 ^ 32
      → whole_lines q l fuel k (base + k) final (so_far + k) bytes ≡ ok (ps, n)
      → whole_lines q l (suc fuel) k base final so_far bytes
        ≡ ok (record { addr = base; size = k; bytes = piece } ∷ ps, n)
  unfolding whole_lines
  whole_lines-suc fuel k base final so_far n bytes piece ps more cut b1 b2 run =
      let e1 : (base + k) % 2 ^ 64 ≡ base + k = omega arith in
      let e2 : (so_far + k) % 2 ^ 32 ≡ so_far + k = omega arith in rw (more, cut, e1, e2, run) refl

  -- From a line boundary, with enough fuel and enable bits for `n` lines, the loop cuts these lines.
  pub whole_lines-Covers :
      (k n fuel j base final so_far : ℕ) (bytes before rest : List Bool)
      → 0 < k
      → n < fuel
      → base ≡ j * k
      → final ≡ base + n * k
      → final < 2 ^ 64
      → so_far + n * k < 2 ^ 32
      → bytes ≡ before ++ rest
      → length before ≡ so_far
      → n * k ≤ length rest
      → (ps : List Piece) × (left : List Bool) × (whole_lines q l fuel k base final so_far bytes
          ≡ ok (ps, so_far + n * k))
        × Covers k base ps final
        × (bytes ≡ (before ++ all_bytes ps) ++ left)
        × (length (before ++ all_bytes ps) ≡ so_far + n * k)
  unfolding whole_lines
  whole_lines-Covers k n zero j base final so_far bytes before rest kp f at to b1 b2 e len h =
      absurd (omega (arith, f))
  whole_lines-Covers k zero (suc fuel) j base final so_far bytes before rest kp f at to b1 b2 e len
        h =
      let here : base ≡ final = omega (arith, to) in
      (
        [],
        rest,
        whole_lines-zero fuel k base final so_far bytes here
            ∙ ap (λ (n : ℕ). ok ([], n)) (omega arith),
        here,
        e ∙ ap (λ x. x ++ rest) (sym (append-nil before)),
        omega (arith, length-append before [], len),
      )
  whole_lines-Covers k (suc n) (suc fuel) j base final so_far bytes before rest kp f at to b1 b2 e
        len h =
      let m = suc-mul n k in
      let (piece, rest', cut, size) = prefix_of q rest k (omega (arith, m, h)) in
      let e' : bytes ≡ (before ++ piece) ++ rest' =
        e ∙ ap (λ r. before ++ r) cut ∙ sym (append_assoc before piece rest') in
      let len' : length (before ++ piece) ≡ so_far + k =
        omega (arith, length-append before piece, len, size) in
      let (ps, left, run, cover, whole, total) =
        whole_lines-Covers k n fuel (suc j) (base + k) final (so_far + k) bytes (before ++ piece)
          rest' kp (omega arith) (omega (arith, at, suc-mul j k)) (omega (arith, to, m)) b1
          (omega (arith, b2, m)) e' len'
          (omega (arith, h, m, ap length cut, length-append piece rest', size)) in
      (
        record { addr = base; size = k; bytes = piece } ∷ ps,
        left,
        whole_lines-suc fuel k base final so_far _ bytes piece ps
              (==-ne base final (λ same. absurd (omega (arith, to, m, same, kp))))
              (slice-at bytes before piece rest' so_far k (e ∙ ap (λ r. before ++ r) cut) len size)
              (omega (arith, to, m, b1)) (omega (arith, b2, m)) run
            ∙ ap (λ (x : ℕ). ok (record { addr = base; size = k; bytes = piece } ∷ ps, x))
                (omega (arith, m)),
        (refl, kp, size, (j, omega (arith, at), omega (arith, at)), cover),
        whole ∙ ap (λ x. x ++ left) (append_assoc before piece (all_bytes ps)),
        ap length (sym (append_assoc before piece (all_bytes ps))) ∙ total ∙ omega (arith, m),
      )
