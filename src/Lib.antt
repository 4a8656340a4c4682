-- ===== src/Lib.antt =====
-- The keyless buyback-and-burn service: quote-service/ builds burn transactions that anyone can send
-- to the on-chain program, and app/ shows and indexes them. This library models the parts that decide
-- about money and addresses, and proves what they promise.
--
-- The parts, in the order in which a burn goes through them:
--   Request (quote-service/core.ts): parseBurnRequest, over JSON values.
--   Admission (quote-service/core.ts): requireAllowedMint is require_allowed_mint, requireTokenAccount
--     is require_token_account, assertRoute is assert_route, assertAuxiliaryInstructions is
--     assert_auxiliary_instructions, resolveAndValidateLookupTables keeps its name.
--   Reference (quote-service/reference.ts): the price floor. makeFloor is make_floor and floor_for,
--     pumpFeeConfig is pump_fee_config, resolveCurve, resolvePool, resolvePumpVenue and
--     resolveReference keep their names; the parts of resolvePool are functions of their own.
--   Market (quote-service/markets.ts): rankCandidates is rank_candidates. In Market/Selecting the
--     rounds of selectReference are authenticate, and select_market its two phases, from the three enumerations on, with
--     unsupportedDammSelection where only a pool of a venue that is not supported was found.
--   Rates (quote-service/core.ts): StaticRateFloorPolicy.
--   Vault (quote-service/core.ts deriveVault, app/src/chain/derive.ts deriveSplitPda).
--   Split (splitAmounts of quote-service/core.ts and of app/community-indexer.ts).
--   Curve (quote-service/directcurve.ts): legs that buy on Pump's curve.
--   Wire (quote-service/core.ts): splitData and buildBurnInstruction.
--   Lease (quote-service/core.ts): InMemoryVaultLeaseStore; the closures and timers that it hands out
--     are part of the state, and a step is a call or a timer that fires.
--   Base58 and Indexer (app/community-indexer.ts): decodeBase58, decodeSplit, burnLogGroups and
--     decodeBurnTransaction, which read back what the service and the program wrote.
--   Service (quote-service/core.ts): QuoteService. Service/Resolved is resolveRequest; Service/Admitted,
--     Quoted, Fitted and Simulated are the parts of buildAndSimulate in their order: the admission of
--     the vault and the targets, the quotes of one round, the ladder of account caps, and the loop of
--     attempts with classifySimulationFailure; Service/Executed is execute and executeUnderLease over
--     the store of Lease; Service/Submittable is assertSubmittableSignedTransaction.
-- Base holds the shared helpers, Chain the keys and accounts, Tests the runs at concrete inputs.
--
-- Numbers are natural numbers; where the source subtracts, a result below zero is a negative integer of
-- Base/Int. A write or read outside its range is an error, as RangeError is; a rejection carries the
-- code of the PolicyError without its message. A public key is the number of its 32 bytes. What
-- @solana/web3.js and @solana/spl-token compute (keys from bytes, program addresses, token account
-- addresses) is the record Web3, an argument; reads of the chain and base64 decoding are arguments as
-- well. Regular expressions over log lines are applied before the model, which gets the lines by kind.
--
-- Fuel: price_loop gets the exponent, which halves each round; tier_loop, legs_loop and leg_rows get
-- the count that the loop runs to; push_carry gets the carry, which shrinks each round; attempts gets
-- one more than the bound of retries, which it never uses up; authenticate gets one more than the
-- number of candidates, as the source does, which run out only where a failure has an empty message.
--
-- The answers of Jupiter, of a blockhash and of a simulation are functions of the attempt and of the
-- rung of the ladder, so that they may differ from round to round; the other reads of the chain are
-- taken to answer alike while one burn is built. Legs that the source prepares at once are prepared in
-- turn, so that of several errors it is the first leg's that is thrown. What other calls do to the
-- lease store while a burn is executed is an argument of execute.
--
-- Not modelled: HTTP, the network clients and the storage, the pages of the app, the Rust program, the
-- generated declarations; of the market discovery, the scans, the branch for coins of Pump and the
-- cache; of the service, the digests, the texts of errors and
-- the timing events.
pub mod Base
pub mod Split
pub mod Base58
pub mod Chain
pub mod Wire
pub mod Indexer
pub mod Lease
pub mod Market
pub mod Reference
pub mod Admission
pub mod Curve
pub mod Rates
pub mod Request
pub mod Vault
pub mod Service
pub mod Tests
