-- ===== src/Wire/Shape.antt =====
-- What `splitData` writes, when it writes: the header of 20 bytes and one block for each leg.
use onchainburner.Base.{
  ℕ, ◌^◌, ◌≤◌, ◌<◌, ◌≡◌, Bytes, List, [], ◌∷◌, ◌++◌, length, ltb, All, le_bytes, write_le,
  write_le-eq-ok, arith, sym,
}
use onchainburner.Base.Errors.{ok, >>=-eq-ok, reject_if, ok-injective}
use onchainburner.Wire.{PreparedLeg, split_discriminator, leg_data, legs_data, split_data}

unfoldable pub leg_bytes : PreparedLeg → Bytes
leg_bytes leg =
    le_bytes 2 leg.bps
    ++ (le_bytes 8 leg.minimum_output
        ++ (le_bytes 1 (length leg.route_accounts)
            ++ (le_bytes 4 (length leg.route_data) ++ leg.route_data)))

unfoldable pub legs_bytes : List PreparedLeg → Bytes
legs_bytes [] = []
legs_bytes (leg ∷ legs) = leg_bytes leg ++ legs_bytes legs

-- Every number of a leg fits its field.
pub record Fits (leg : PreparedLeg) : Type 0 where
  pub bps : leg.bps < 2 ^ 16
  pub minimum : leg.minimum_output < 2 ^ 64
  pub accounts : length leg.route_accounts ≤ 255
  pub size : length leg.route_data < 2 ^ 32

leg_data-eq-ok :
    (leg : PreparedLeg) {bs : Bytes} → leg_data leg ≡ ok bs → (bs ≡ leg_bytes leg) × Fits leg
unfolding leg_data leg_bytes
leg_data-eq-ok leg e =
    let (_, checked, e1) = >>=-eq-ok (reject_if (ltb 255 (length leg.route_accounts)) _) _ e in
    let (a, ea, e2) = >>=-eq-ok (write_le 2 leg.bps) _ e1 in
    let (b, eb, e3) = >>=-eq-ok (write_le 8 leg.minimum_output) _ e2 in
    let (c, ec, e4) = >>=-eq-ok (write_le 1 (length leg.route_accounts)) _ e3 in
    let (d, ed, e5) = >>=-eq-ok (write_le 4 (length leg.route_data)) _ e4 in
    let (ha, sa) = write_le-eq-ok 2 leg.bps ea in
    let (hb, sb) = write_le-eq-ok 8 leg.minimum_output eb in
    let (hc, sc) = write_le-eq-ok 1 (length leg.route_accounts) ec in
    let (hd, sd) = write_le-eq-ok 4 (length leg.route_data) ed in
    (
      cc (ok-injective e5, sa, sb, sc, sd),
      record {
        bps = omega arith;
        minimum = omega arith;
        accounts = ground arith;
        size = omega arith;
      },
    )

legs_data-eq-ok :
    (legs : List PreparedLeg) {bs : Bytes}
    → legs_data legs ≡ ok bs
    → (bs ≡ legs_bytes legs) × All Fits legs
unfolding legs_data legs_bytes
legs_data-eq-ok [] e = (sym (ok-injective e), tt)
legs_data-eq-ok (leg ∷ legs) e =
    let (first, ef, e1) = >>=-eq-ok (leg_data leg) _ e in
    let (later, el, e2) = >>=-eq-ok (legs_data legs) _ e1 in
    let (sf, hf) = leg_data-eq-ok leg ef in
    let (sl, hl) = legs_data-eq-ok legs el in (cc (ok-injective e2, sf, sl), (hf, hl))

pub record Written (total : ℕ) (legs : List PreparedLeg) (bytes : Bytes) : Type 0 where
  pub shape :
      bytes
      ≡ split_discriminator ++ (le_bytes 8 total ++ (le_bytes 4 (length legs) ++ legs_bytes legs))
  pub amount : total < 2 ^ 64
  pub count : length legs < 2 ^ 32
  pub fits : All Fits legs

pub split_data-Written :
    (total : ℕ) (legs : List PreparedLeg) {bytes : Bytes}
    → split_data total legs ≡ ok bytes
    → Written total legs bytes
unfolding split_data
split_data-Written total legs e =
    let (a, ea, e1) = >>=-eq-ok (write_le 8 total) _ e in
    let (b, eb, e2) = >>=-eq-ok (write_le 4 (length legs)) _ e1 in
    let (c, ec, e3) = >>=-eq-ok (legs_data legs) _ e2 in
    let (ha, sa) = write_le-eq-ok 8 total ea in
    let (hb, sb) = write_le-eq-ok 4 (length legs) eb in
    let (sc, hc) = legs_data-eq-ok legs ec in
    record {
      shape = cc (ok-injective e3, sa, sb, sc);
      amount = omega arith;
      count = omega arith;
      fits = hc;
    }
