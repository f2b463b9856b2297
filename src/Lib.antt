-- ===== src/Lib.antt =====
-- The OrganicLifeCoin web wallet: its post-quantum core, its mempool and its legacy transactions.
--
-- The wallet builds, signs and reads the transactions of the OLC post-quantum protocol in the browser.
-- A payment goes through three parts: scripts/pqwallet/pqcoinselect.js chooses one or two coins and
-- the fee, scripts/pqwallet/pqsigner.js signs a message for each input, and
-- scripts/pqwallet/pqtxtx.js writes the bytes and reads them back; addresses and scripts are those of
-- scripts/pqwallet/pqaddress.js. On the signer stand scripts/pqwallet/pqstaking.js, which checks a
-- block that a server prepared and signs it, in the loop of scripts/pqwallet/pqstaking-session.js, and
-- scripts/pqwallet/pqmasternode.js, which registers a masternode and withdraws its collateral.
-- scripts/pqwallet/pqwallet-store.js keeps the keys of a wallet in a database, under a password through
-- scripts/aes-gcm.js, and writes and reads its backups; scripts/pqwallet/pqoperator.js makes the
-- configuration that the operator of a masternode is given.
-- scripts/mempool.js keeps the states of outpoints and the balances of the wallet that this one is
-- based on; on its coins stands createTransaction of scripts/wallet.js, which uses
-- scripts/transaction_builder.js, scripts/script.js, scripts/transaction.js and scripts/encoding.js.
-- scripts/ordered_array.js is one of its helpers.
--
-- Files, by the source that they model:
--   Prelude     tests, lists, integers, and `Result`, which stands for code that throws: one
--               constructor of `Error` for each message, without the values that it prints
--   Platform    values of JavaScript (texts as code units, byte arrays, numbers of several kinds) and
--               @noble/hashes as the record `Noble` with its laws `NobleLaws`; Platform/Hex has a
--               concrete library that satisfies them
--   Address     pqaddress.js: bech32m in Address/Bech32m, convertBits in Address/Groups, the rest in
--               Address; Address/Canonical has the theorems
--   Wire        pqtxtx.js: integers and ByteReader in Wire/Codec, buildPayload and parsePayload in
--               Wire/Payload, serializeTransfer in Wire/Serialize, parsePQTransaction in Wire/Parse
--   Coins       pqcoinselect.js: sizes, fees and a selection in Coins, selectCoins in Coins/Search
--   Signer      mldsa.js in Signer/Keys, signatureMessage in Signer/Message, signPQTransaction in
--               Signer; ML-DSA-44 is the record `MlDsa`
--   Staking     pqstaking.js: previousOutput in Staking/Previous, merkleRoot in Staking/Merkle,
--               the request and its first checks in Staking, signStakeTemplate in
--               Staking/SignedBlocks
--   Masternode  pqmasternode.js: selectMasternodeFeeCoins in Masternode/FeeCoins, encodeService in
--               Masternode/Service, encodeMasternodeRegistration in Masternode/Encoding,
--               signMasternodeRegistration in Masternode/Registering, signCollateralWithdrawal in
--               Masternode/Withdrawing
--   Vault       aes-gcm.js, and the key pair of a seed of mldsa.js; WebCrypto, @noble/ciphers and the
--               text codecs of the browser are the record `Crypto` with its laws
--   Store       pqwallet-store.js: records and object stores in Store/Records, checks in Store/Checks,
--               passwords, unlocking and addresses in Store/Keys, creation and export in Store/Wallets,
--               import and deletion in Store/Imports, masternode records in Store/Masternodes,
--               reachable states in Store/Steps
--   Operator    pqoperator.js; BLAKE2b and XChaCha20-Poly1305 are the record `OperatorCrypto`
--   Mempool     mempool.js: outpoints in Mempool, spendable outputs and balances in
--               Mempool/Spendable, with the tests of transaction.js that it calls in Mempool/Transactions
--   Legacy      encoding.js in Legacy/Encoding, serialize and fromHex of transaction.js in
--               Legacy/Transaction, script.js in Legacy/Script, transparent addresses in
--               Legacy/Addresses, transaction_builder.js in Legacy/Builder, createTransaction of
--               wallet.js in Legacy/Spending; the decoders it imports are the record `Library`
--   Session     pqstaking-session.js: the state, its steps and the states it can reach in Session
--   OrderedArray  ordered_array.js, and the comparison with which wallet.js uses it
-- A definition has the name of the function that it models, in snake case. Files called Examples or
-- Tests run the definitions on concrete input.
--
-- State and loops: the reader of pqtxtx.js keeps an offset; the model passes the list of the bytes from
-- that offset on. The mempool is a record that operations return anew. Loops over arrays are
-- recursion on the list. Two loops run on fuel: the inner loop of convertBits, whose fuel is the number
-- of bits held, which falls in every round, and that of merkleRoot, whose fuel is the number of
-- hashes, which halves in every round. Fuel that runs out in the second loop is `none`. The shift operations of bech32m and convertBits are written
-- on 32-bit patterns.
--
-- The wallet store is a record of its database and of what is in memory; an operation that succeeds
-- returns it anew, and one that throws leaves it as it was. Clock and random source are arguments.
--
-- Not modelled: ciphers, hashes and signatures, which are library calls; the opening of databases, HTTP,
-- pages and workers; the wiping of keys in memory; the explorer's activity; the mnemonics, which the
-- wallet store takes as the record `Phrases`; of the legacy wallet all but its mempool,
-- transactions and their creation, and the order of its history. Arguments of a type that the code refuses outright are left out where
-- the types of the model have no such value; the definitions say so.
pub mod Prelude
pub mod Platform
pub mod Address
pub mod Wire
pub mod Coins
pub mod Signer
pub mod Staking
pub mod Masternode
pub mod Mempool
pub mod OrderedArray
pub mod Session
pub mod Vault
pub mod Store
pub mod Operator
pub mod Legacy
