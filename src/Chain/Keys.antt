-- ===== src/Chain/Keys.antt =====
-- The fixed keys of the source, as the numbers that their base58 texts spell.
use onchainburner.Chain.Types.{PublicKey}

-- `WSOL_ADDRESS` and `NATIVE_MINT`: So11111111111111111111111111111111111111112
abbrev pub wsol_mint : PublicKey
wsol_mint = 0x69b8857feab8184fb687f634618c035dac439dc1aeb3b5598a0f00000000001

-- `NATIVE_MINT_2022`: 9pan9bMn5HatX4EJdBwg9VgCa7Uz5HL8N1m5D3NdXejP
abbrev pub native_mint_2022 : PublicKey
native_mint_2022 = 0x830dfc9fde5fe6b8aa7c04a476e91e8ac6bb264aad90fa19c9df49d85c3e5b5e

-- `TOKEN_PROGRAM_ID`: TokenkegQfeZyiNwAJbNbGKPFXCWuBvf9Ss623VQ5DA
abbrev pub token_program : PublicKey
token_program = 0x6ddf6e1d765a193d9cbe146ceeb79ac1cb485ed5f5b37913a8cf5857eff00a9

-- `TOKEN_2022_PROGRAM_ID`: TokenzQdBNbLqP5VEhdkAS6EPFLC1PHnBqCXEpPxuEb
abbrev pub token_2022_program : PublicKey
token_2022_program = 0x6ddf6e1ee758fde18425dbce46ccddab61afc4d83b90d27febdf928d8a18bfc

-- `ASSOCIATED_TOKEN_PROGRAM_ID`: ATokenGPvbdGVxr1b2hvZbsiqW5xWH25efTNsLJA8knL
abbrev pub associated_token_program : PublicKey
associated_token_program = 0x8c97258f4e2489f1bb3d1029148e0d830b5a1399daff1084048e7bd8dbe9f859

-- `SystemProgram.programId`: 11111111111111111111111111111111
abbrev pub system_program : PublicKey
system_program = 0x0

-- JUP6LkbZbjS1jKKwapdHNy74zcZ3tLUZoi5QNyVTaV4
abbrev pub jupiter_program : PublicKey
jupiter_program = 0x479d55bf231c06eee74c56ece681507fdb1b2dea3f48e5102b1cda256bc138f

-- D8cy77BBepLMngZx6ZukaTff5hCt1HrWyKk3Hnd9oitf
abbrev pub jupiter_event_authority : PublicKey
jupiter_event_authority = 0xb43ffa27f5d7f64a74c09b1f295879de4b09ab36dfc9dd514b321aa7b38ce5e8

-- pumpCmXqMfrsAkQ5r49WcJnRayYRqmXz6ae8H7H9Dfn
abbrev pub pump_mint : PublicKey
pump_mint = 0xc45f7df8d9e72956284933f6d98b757032e83df84604fb5e117fff61d5b12f9

-- DMdBa812dBW1CHVhmTyUyVcrBnSbZbfoFC7U14k4riH1
abbrev pub pump_transfer_hook_authority : PublicKey
pump_transfer_hook_authority = 0xb794c54d2d7560673deb5c93df3bf24995ba14293407c963efa5d97ebc4faedc

-- 6EF8rrecthR5Dkzon8Nwu78hRvfCKubJ14M5uBEwF6P
abbrev pub pump_fun_program : PublicKey
pump_fun_program = 0x156e0f693665acf44db1568bf175baa5189cb97f5d2ff3b655d2bb6fd6d18b0

-- pAMMBay6oceH9fJKBRHGP5D4bD4sWpmSwMn52FMfXEA
abbrev pub pump_amm_program : PublicKey
pump_amm_program = 0xc14defc825ec67694250818bb654065f4298d3156d571b4d4f8090c18e9a863

-- pfeeUxB6jkeY1Hxd7CsFCAjcbHA9rWtchMGdZ6VojVZ
abbrev pub pump_fee_program : PublicKey
pump_fee_program = 0xc35ffa9055a8e568da8f7bc075615274cf1c92ca41f40009c516aa414c27c70

-- 675kPX9MHTjS2zt1qfr1NYHuzeLXfQM9H24wFSUt1Mp8
abbrev pub raydium_v4_program : PublicKey
raydium_v4_program = 0x4bd949c43602c33f207790ed16a3524ca1b9975cf121a2a90cffec7df8b68acd

-- CPMMoo8L3F4NbTegBCKVNunggL7H1ZpdTHKxQB5qKP1C
abbrev pub raydium_cp_program : PublicKey
raydium_cp_program = 0xa92a5a8b4f295952842550aa93fd5b95b5ace6a8eb920c93942e43690c20ec73

-- CAMMCzo5YL8w4VFF8KVHrK22GGUsp5VTaW7grrKgrWqK
abbrev pub raydium_clmm_program : PublicKey
raydium_clmm_program = 0xa5d5ca9e04cf5db590b714ba2fe32cb159133fc1c192b72257fd07d39cb0401e

-- LBUZKhRxPF3XUpBCjp4YzTKgLccjZhTSDM9YuVaPwxo
abbrev pub meteora_dlmm_program : PublicKey
meteora_dlmm_program = 0x4e9e12fbc84e826c932cce9e2640cce15590c1c6273b0925708ba3b8520b0bc

-- burnLkcSaW4gHz3xXT1vnKZg3oJuH6Wc2yHcmHptyh5
abbrev pub burner_program : PublicKey
burner_program = 0x8f183bbde81676620421f1d4adbe4a6978e81cda9ff3e59a9f4ec675c3a8d5c

-- `ComputeBudgetProgram.programId`: ComputeBudget111111111111111111111111111111
abbrev pub compute_budget_program : PublicKey
compute_budget_program = 0x306466fe5211732ffecadba72c39be7bc8ce5bbc5f7126b2c439b3a40000000
