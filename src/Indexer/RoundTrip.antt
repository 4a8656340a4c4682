-- ===== src/Indexer/RoundTrip.antt =====
-- The indexer reads back what the service writes.
use onchainburner.Base.{
  ℕ, ◌+◌, ◌-◌, ◌≤◌, ◌<◌, ◌≡◌, ◌≢◌, refl, sym, ap, ◌∙◌, true, false, ◌||◌, some, Bytes, List, [],
  ◌∷◌, ◌++◌, map, length, take, sum, any, All, list_eq, ltb, ◌==◌, le→ltb_false, length-append,
  le_bytes, length-le_bytes, read_le-at, arith, ==-refl,
}
use onchainburner.Base.Errors.{ok}
use onchainburner.Wire.{PreparedLeg, split_discriminator, split_data}
use onchainburner.Wire.Shape.{leg_bytes, legs_bytes, Fits, Written, split_data-Written}
use onchainburner.Indexer.{read_u16, read_u32, read_u64, legs_loop, decode_split_bytes}
use mathlib.Core.List.{append_assoc, append-nil}
use mathlib.Core.Path.{subst₂}

length-leg_bytes : (leg : PreparedLeg) → length (leg_bytes leg) ≡ 15 + length leg.route_data
unfolding leg_bytes
length-leg_bytes leg = simp (length-append, length-le_bytes) (omega arith)

-- The two fields that the indexer reads, and the end of the leg.
module _ (leg : PreparedLeg) (h : Fits leg) (front rest : Bytes) where
  read_bps : read_u16 (front ++ (leg_bytes leg ++ rest)) (length front) ≡ some leg.bps
  unfolding read_u16 leg_bytes
  read_bps =
      read_le-at 2 leg.bps _ _ front
        (le_bytes 8 leg.minimum_output
          ++ (le_bytes 1 (length leg.route_accounts)
              ++ (le_bytes 4 (length leg.route_data) ++ (leg.route_data ++ rest))))
        (simp append_assoc) refl (omega (arith, h.bps))

  read_size :
      read_u32 (front ++ (leg_bytes leg ++ rest)) (length front + 11) ≡ some (length leg.route_data)
  unfolding read_u32 leg_bytes
  read_size =
      read_le-at 4 (length leg.route_data) _ _
        (front
          ++ (le_bytes 2 leg.bps
              ++ (le_bytes 8 leg.minimum_output ++ le_bytes 1 (length leg.route_accounts))))
        (leg.route_data ++ rest) (simp append_assoc) (simp (length-append, length-le_bytes))
        (omega (arith, h.size))

  room :
      ltb (length (front ++ (leg_bytes leg ++ rest)) - (length front + 15)) (length leg.route_data)
      ≡ false
  room = le→ltb_false _ _ (
      omega (
        arith,
        length-append front (leg_bytes leg ++ rest),
        length-append (leg_bytes leg) rest,
        length-leg_bytes leg,
      ))

legs_loop-legs_bytes :
    (legs : List PreparedLeg) (front bytes : Bytes) (cursor : ℕ) (weights : List ℕ)
    → All Fits legs
    → bytes ≡ front ++ legs_bytes legs
    → cursor ≡ length front
    → legs_loop (length legs) bytes cursor weights
      ≡ some (weights ++ map (λ (leg : PreparedLeg). leg.bps) legs, length bytes)
unfolding legs_loop legs_bytes
legs_loop-legs_bytes [] front bytes cursor weights h e f =
    rw (append-nil weights, f, e)
      (ap (λ (t : Bytes). some (weights, length t)) (sym (append-nil front)))
legs_loop-legs_bytes (leg ∷ legs) front bytes cursor weights (h, hs) e f =
    rw
      (
        subst₂ (λ (t : Bytes) (c : ℕ). read_u16 t c ≡ some leg.bps) (sym e) (sym f)
            (read_bps leg h front (legs_bytes legs)),
        subst₂ (λ (t : Bytes) (c : ℕ). read_u32 t (c + 11) ≡ some (length leg.route_data)) (sym e)
            (sym f) (read_size leg h front (legs_bytes legs)),
        subst₂ (λ (t : Bytes) (c : ℕ). ltb (length t - (c + 15)) (length leg.route_data) ≡ false)
            (sym e) (sym f) (room leg h front (legs_bytes legs)),
      )
      (legs_loop-legs_bytes legs (front ++ leg_bytes leg) bytes
          (cursor + 15 + length leg.route_data) (weights ++ leg.bps ∷ []) hs
          (e ∙ sym (append_assoc front (leg_bytes leg) (legs_bytes legs)))
          (omega (arith, f, length-append front (leg_bytes leg), length-leg_bytes leg))
        ∙ ap (λ t. some (t, length bytes)) (append_assoc weights (leg.bps ∷ []) _))

-- The checks that `decodeSplit` makes of what it has read.
pub record IsSplit (total : ℕ) (legs : List PreparedLeg) : Type 0 where
  pub funded : total ≢ 0
  pub some_leg : 1 ≤ length legs
  pub few_legs : length legs ≤ 4
  pub positive : All (λ w. 0 < w) (map (λ (leg : PreparedLeg). leg.bps) legs)
  pub whole : sum (map (λ (leg : PreparedLeg). leg.bps) legs) ≡ 10_000

any-zero_false : (ws : List ℕ) → All (λ w. 0 < w) ws → any (λ w. w == 0) ws ≡ false
any-zero_false [] h = refl
any-zero_false (w ∷ ws) (p, h) = ground (arith, any-zero_false ws h)

module _ (total : ℕ) (legs : List PreparedLeg) {bytes : Bytes} (w : Written total legs bytes) where
  head : Bytes
  head = split_discriminator ++ (le_bytes 8 total ++ le_bytes 4 (length legs))

  length-head : length head ≡ 20
  unfolding head
  length-head = simp (length-append, length-le_bytes)

  head_then_legs : bytes ≡ head ++ legs_bytes legs
  unfolding head
  head_then_legs = w.shape ∙ simp append_assoc

  long_enough : ltb (length bytes) 20 ≡ false
  long_enough =
      le→ltb_false _ _
        (omega (arith, ap length head_then_legs, length-append head (legs_bytes legs), length-head))

  same_discriminator : list_eq (take 8 bytes) split_discriminator ≡ true
  same_discriminator = rw (w.shape) refl

  read_total : read_u64 bytes 8 ≡ some total
  unfolding read_u64
  read_total =
      read_le-at 8 total 8 bytes split_discriminator (le_bytes 4 (length legs) ++ legs_bytes legs)
        w.shape refl (omega (arith, w.amount))

  read_count : read_u32 bytes 16 ≡ some (length legs)
  unfolding read_u32
  read_count =
      read_le-at 4 (length legs) 16 bytes (split_discriminator ++ le_bytes 8 total)
        (legs_bytes legs) (w.shape ∙ simp append_assoc) (simp length-le_bytes)
        (omega (arith, w.count))

  read_legs :
      legs_loop (length legs) bytes 20 []
      ≡ some (map (λ (leg : PreparedLeg). leg.bps) legs, length bytes)
  read_legs = legs_loop-legs_bytes legs head bytes 20 [] w.fits head_then_legs (sym length-head)

  decode_written :
      IsSplit total legs
      → decode_split_bytes bytes
        ≡ some (record { total = total; weights = map (λ (leg : PreparedLeg). leg.bps) legs })
  unfolding decode_split_bytes
  decode_written v =
      rw (long_enough, same_discriminator, read_total, read_count, counted, read_legs)
        (rw (==-refl (length bytes), any-zero_false _ v.positive, v.whole) refl)
    where
      counted : (ltb (length legs) 1 || ltb 4 (length legs) || total == 0) ≡ false
      counted = ground (arith, v.funded, v.some_leg, v.few_legs)

-- Whatever the service encodes for one to four legs of positive weights that sum to 100% and a
-- positive total, the indexer decodes to that total and those weights.
pub decode_split_bytes-split_data :
    (total : ℕ) (legs : List PreparedLeg) {bytes : Bytes}
    → split_data total legs ≡ ok bytes
    → IsSplit total legs
    → decode_split_bytes bytes
      ≡ some (record { total = total; weights = map (λ (leg : PreparedLeg). leg.bps) legs })
decode_split_bytes-split_data total legs e v =
    decode_written total legs (split_data-Written total legs e) v
