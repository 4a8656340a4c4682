-- ===== src/Vault.antt =====
-- The vault address: `deriveVault` of quote-service/core.ts, and `deriveSplitPda` of
-- app/src/chain/derive.ts.
pub mod Migration
use onchainburner.Base.{ℕ, Option, none, some, Bytes, codes, List, [], ◌∷◌, ◌++◌, map, write_le}
use onchainburner.Base.Errors.{Result, ok, err, ◌>>=◌}
use onchainburner.Chain.{PublicKey, Web3, burner_program}
use onchainburner.Reference.Venues.{zeroes}

-- `{ targetMint, bps, refSeed }`
pub record SeededLeg : Type 0 where
  pub target_mint : PublicKey
  pub bps : ℕ
  pub ref_seed : Bytes

-- `Leg` of the app: no reference is the zero sentinel.
pub record ClientLeg : Type 0 where
  pub mint : PublicKey
  pub bps : ℕ
  pub ref : Option PublicKey

-- The weights as packed u16, lowest byte first.
pub weights_blob : List ℕ → Result Bytes
weights_blob [] = ok []
weights_blob (bps ∷ rest) = do
  first ← write_le 2 bps
  later ← weights_blob rest
  ok (first ++ later)

module _ (w : Web3) where
  pub derive_vault : PublicKey → PublicKey → List SeededLeg → Result PublicKey
  derive_vault program launch_mint legs = do
    weights ← weights_blob (map (λ (l : SeededLeg). l.bps) legs)
    ok (
        w.find_program_address
          (codes "burner"
            ∷ w.to_buffer launch_mint
            ∷ (map (λ (l : SeededLeg). w.to_buffer l.target_mint) legs
                ++ weights ∷ map (λ (l : SeededLeg). l.ref_seed) legs))
          program)

  abbrev pub client_seed : Option PublicKey → Bytes
  client_seed none = zeroes 32
  client_seed (some ref) = w.to_buffer ref

  pub derive_split_pda : PublicKey → List ClientLeg → Result PublicKey
  derive_split_pda launch_mint legs = do
    blob ← weights_blob (map (λ (l : ClientLeg). l.bps) legs)
    ok (
        w.find_program_address
          (codes "burner"
            ∷ w.to_buffer launch_mint
            ∷ (map (λ (l : ClientLeg). w.to_buffer l.mint) legs
                ++ blob ∷ map (λ (l : ClientLeg). client_seed l.ref) legs))
          burner_program)

-- What a test unfolds.
unfoldable pub vault_steps : Unit {0}
unfolding derive_vault derive_split_pda weights_blob write_le
vault_steps = tt
