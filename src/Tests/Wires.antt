-- ===== src/Tests/Wires.antt =====
-- Division of an amount, the burn instruction, and what the indexer reads from it.
use onchainburner.Base.{
  ℕ, ◌-◌, ◌≡◌, refl, true, false, Bytes, List, [], ◌∷◌, map, sum, length, get_elem?, drop, some,
  le_bytes, le_value, arith,
}
use onchainburner.Base.Int.{pos}
use onchainburner.Base.Errors.{ok, err, range_error}
use onchainburner.Chain.{AccountMeta, Instruction, system_program, token_program, jupiter_program}
use onchainburner.Split.{split_amounts, share, indexer_split_amounts}
use onchainburner.Split.Laws.{split_amounts-IsFair, indexer_split_amounts-eq, Legwise, IsFair}
use onchainburner.Wire.{PreparedLeg, split_data, build_burn_instruction, building}
use onchainburner.Wire.Layout.{
  IsLaidOut, build_burn_instruction-IsLaidOut, build_burn_instruction-signer, Unsigned,
}
use onchainburner.Indexer.{decode_split_bytes, reading}
use onchainburner.Indexer.RoundTrip.{IsSplit, decode_split_bytes-split_data}

division :
    split_amounts 10_001 (3_333 ∷ 3_333 ∷ 3_334 ∷ []) ≡ pos 3_333 ∷ pos 3_333 ∷ pos 3_335 ∷ []
unfolding split_amounts share
division = refl

abbrev thirds : List ℕ
thirds = 3_333 ∷ 3_333 ∷ 3_334 ∷ []

split_amounts-IsFair_example :
    (amounts : List ℕ) × (split_amounts 10_001 thirds ≡ map pos amounts)
    × (sum amounts ≡ 10_001)
    × Legwise (IsFair 10_001 (length thirds - 1)) thirds amounts
split_amounts-IsFair_example = split_amounts-IsFair 10_001 thirds refl

abbrev leg_of : ℕ → ℕ → PreparedLeg
leg_of mint bps = record {
  target_mint = mint;
  target_token_program = 1;
  target_ata = 2;
  bps = bps;
  amount_in = 500;
  minimum_output = 70_000;
  reference = record { pool = 31; vault_a = 32; vault_b = 33; fee_source = 34 };
  route_accounts = record { pubkey = 90; is_signer = true; is_writable = true } ∷ [];
  route_data = 5 ∷ 6 ∷ 7 ∷ [];
  lookup_tables = [];
}

abbrev two_legs : List PreparedLeg
two_legs = leg_of 21 4_000 ∷ leg_of 22 6_000 ∷ []

abbrev two_legs_data : Bytes
two_legs_data =
    157 ∷ 45 ∷ 186 ∷ 225 ∷ 142 ∷ 17 ∷ 2 ∷ 105 ∷ 232 ∷ 3 ∷ 0 ∷ 0 ∷ 0 ∷ 0 ∷ 0 ∷ 0 ∷ 2 ∷ 0 ∷ 0 ∷ 0
    ∷ 160 ∷ 15 ∷ 112 ∷ 17 ∷ 1 ∷ 0 ∷ 0 ∷ 0 ∷ 0 ∷ 0 ∷ 1 ∷ 3 ∷ 0 ∷ 0 ∷ 0 ∷ 5 ∷ 6 ∷ 7 ∷ 112 ∷ 23 ∷ 112
    ∷ 17 ∷ 1 ∷ 0 ∷ 0 ∷ 0 ∷ 0 ∷ 0 ∷ 1 ∷ 3 ∷ 0 ∷ 0 ∷ 0 ∷ 5 ∷ 6 ∷ 7 ∷ []

two_legs_written : split_data 1_000 two_legs ≡ ok two_legs_data
unfolding building le_bytes
two_legs_written = refl

too_heavy : split_data 1_000 (leg_of 21 70_000 ∷ []) ≡ err range_error
unfolding building le_bytes
too_heavy = refl

two_legs_read :
    decode_split_bytes two_legs_data ≡ some (record { total = 1_000; weights = 4_000 ∷ 6_000 ∷ [] })
unfolding reading le_value
two_legs_read = refl

two_legs-IsSplit : IsSplit 1_000 two_legs
two_legs-IsSplit = record {
  funded = omega arith;
  some_leg = omega arith;
  few_legs = omega arith;
  positive = (omega arith, (omega arith, tt));
  whole = refl;
}

decode_split_bytes-split_data_example :
    decode_split_bytes two_legs_data
    ≡ some (record { total = 1_000; weights = map (λ (leg : PreparedLeg). leg.bps) two_legs })
decode_split_bytes-split_data_example =
    decode_split_bytes-split_data 1_000 two_legs two_legs_written two_legs-IsSplit

-- The accounts of the burn of `two_legs`.
abbrev key : ℕ → AccountMeta
key k = record { pubkey = k; is_signer = false; is_writable = false }

abbrev writable_key : ℕ → AccountMeta
writable_key k = record { pubkey = k; is_signer = false; is_writable = true }

abbrev two_legs_burn : Instruction
two_legs_burn = record {
  program_id = 60;
  keys =
      record { pubkey = 61; is_signer = true; is_writable = false }
      ∷ key 60
      ∷ writable_key 63
      ∷ writable_key 64
      ∷ key 62
      ∷ key system_program
      ∷ key token_program
      ∷ key jupiter_program
      ∷ writable_key 21
      ∷ writable_key 2
      ∷ key 1
      ∷ key 31
      ∷ key 32
      ∷ key 33
      ∷ key 34
      ∷ writable_key 22
      ∷ writable_key 2
      ∷ key 1
      ∷ key 31
      ∷ key 32
      ∷ key 33
      ∷ key 34
      ∷ writable_key 90
      ∷ writable_key 90
      ∷ [];
  content = two_legs_data;
}

two_legs_built : build_burn_instruction 60 61 62 63 64 1_000 two_legs ≡ ok two_legs_burn
unfolding building le_bytes
two_legs_built = refl

build_burn_instruction-IsLaidOut_example :
    IsLaidOut 62 63 (leg_of 21 4_000 ∷ []) (leg_of 22 6_000) two_legs_burn.keys
build_burn_instruction-IsLaidOut_example =
    build_burn_instruction-IsLaidOut 60 61 62 63 64 1_000 (leg_of 21 4_000 ∷ []) []
      (leg_of 22 6_000) two_legs_built

build_burn_instruction-signer_example :
    (get_elem? two_legs_burn.keys 0
      ≡ some (record { pubkey = 61; is_signer = true; is_writable = false }))
    × Unsigned (drop 1 two_legs_burn.keys)
build_burn_instruction-signer_example =
    build_burn_instruction-signer 60 61 62 63 64 1_000 two_legs two_legs_built

indexer_split_amounts-eq_example : indexer_split_amounts 10_001 thirds ≡ split_amounts 10_001 thirds
indexer_split_amounts-eq_example = indexer_split_amounts-eq 10_001 thirds
