-- ===== src/Staking/Examples.antt =====
-- A stake of 5000 satoshi with a reward of 1000, with concrete libraries.
use organic_web_wallet.Prelude.{◌≡◌, some, [], ◌∷◌, ◌++◌, replicate, arith}
use organic_web_wallet.Prelude.Int.{pos}
use organic_web_wallet.Platform.{Bytes, number, units}
use organic_web_wallet.Platform.Hex.{plain_noble}
use organic_web_wallet.Address.{testnet}
use organic_web_wallet.Wire.Examples.{header, footer, key}
use organic_web_wallet.Staking.Merkle.{levels, leaves, merkle_root, merkle_root_total}
use organic_web_wallet.Staking.{StakeRequest}
use organic_web_wallet.Staking.SignedBlocks.{SignedBlock}

merkle_root_total_example :
    (root : Bytes) × ((levels plain_noble 3 (leaves plain_noble ([] ∷ (1 ∷ []) ∷ (2 ∷ []) ∷ []))
        ≡ some (root ∷ []))
      × (merkle_root plain_noble ([] ∷ (1 ∷ []) ∷ (2 ∷ []) ∷ []) ≡ some root))
merkle_root_total_example =
    merkle_root_total plain_noble ([] ∷ (1 ∷ []) ∷ (2 ∷ []) ∷ []) (omega arith)

abbrev own_script : Bytes
own_script = 0xff ∷ 0x51 ∷ 0x20 ∷ replicate 32 0

-- One input and one output of 5000 satoshi.
abbrev previous : Bytes
previous =
    (1 ∷ 0 ∷ 0 ∷ 0 ∷ 1 ∷ [])
    ++ (replicate 36 0
        ++ ((0 ∷ 0 ∷ 0 ∷ 0 ∷ 0 ∷ 1 ∷ 0x88 ∷ 0x13 ∷ 0 ∷ 0 ∷ 0 ∷ 0 ∷ 0 ∷ 0 ∷ 35 ∷ []) ++ own_script))

abbrev block_header : Bytes
block_header =
    (7 ∷ 0 ∷ 0 ∷ 0 ∷ [])
    ++ (replicate 32 0x11
        ++ (replicate 32 0 ++ (0xe8 ∷ 3 ∷ 0 ∷ 0 ∷ 0 ∷ 0 ∷ 0 ∷ 0 ∷ 0 ∷ 0 ∷ 0 ∷ 0 ∷ [])))

-- From the index of the input to the script of the second output: values 0 and 6000.
abbrev stake_middle : Bytes
stake_middle =
    (0 ∷ 0 ∷ 0 ∷ 0 ∷ 0 ∷ 255 ∷ 255 ∷ 255 ∷ 255 ∷ 2 ∷ [])
    ++ (replicate 9 0 ++ (0x70 ∷ 0x17 ∷ 0 ∷ 0 ∷ 0 ∷ 0 ∷ 0 ∷ 0 ∷ 35 ∷ []))

-- A coinstake with the given signature.
abbrev coinstake : Bytes → Bytes
coinstake seal =
    header
    ++ (replicate 32 0
        ++ (stake_middle ++ (own_script ++ (footer ++ ((1 ∷ 2 ∷ 1 ∷ []) ++ (key ++ seal))))))

abbrev request : StakeRequest
request = record {
  template = record {
    version = 1;
    network = testnet;
    genesis = replicate 64 b'a';
    tip = replicate 64 b'1';
    height = number (pos 10);
    expires = number (pos 1030);
    previous_transaction = plain_noble.bytes_to_hex previous;
    header = plain_noble.bytes_to_hex block_header;
    transactions =
        plain_noble.bytes_to_hex (0 ∷ [])
        ∷ plain_noble.bytes_to_hex (coinstake (replicate 2420 6))
        ∷ [];
  };
  candidate = record {
    txid = replicate 64 b'0';
    vout = 0;
    address = units "olcpqtest1pqqqqqqqqqqqqqqqqqqqqqqqqqqqqqqqqqqqqqqqqqqqqqqqqqqqqt5dc3d";
    value_sats = 5000;
  };
  keypair = record { public_key = key; secret_key = [] };
  network = testnet;
  genesis_display = replicate 64 b'a';
  expected_tip = replicate 64 b'1';
  reserved_outpoints = (replicate 64 b'0', 1) ∷ [];
  now = 1000;
}

abbrev block : SignedBlock
block = record {
  raw_hex = plain_noble.bytes_to_hex (
      block_header
      ++ ((2 ∷ [])
          ++ (((0 ∷ []) ++ coinstake (replicate 2420 0))
              ++ ((253 ∷ 149 ∷ 14 ∷ []) ++ ((1 ∷ []) ++ (key ++ replicate 2420 0))))));
  block_hash = plain_noble.bytes_to_hex (replicate 32 0);
  coinstake_hex = plain_noble.bytes_to_hex (coinstake (replicate 2420 0));
  reward_sats = pos 1000;
  block_signature = replicate 2420 0;
}
