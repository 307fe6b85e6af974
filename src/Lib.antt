-- ===== src/Lib.antt =====
-- A verification library for the Lightning node of this repository, which is built on LDK, BDK and
-- bitcoind's RPC interface.
--
-- The program. src/main.rs starts the node, handles LDK's events and keeps the records of inbound
-- and outbound payments; src/cli.rs reads commands from the terminal and acts on the same records;
-- both save them through the key-value store of src/filesystem_store.rs. src/bitcoind_client.rs
-- polls fee estimates, which src/convert.rs reads from JSON and which the wallet of
-- src/onchain_wallet.rs and LDK use. src/args.rs reads the settings, src/disk.rs the files beside the
-- store, src/hex_utils.rs hexadecimal text; src/logger.rs writes the log, and src/sweep.rs moves
-- outputs that an older version saved. src/commands.rs, src/events.rs and src/internal are exercises
-- on small stand-ins for LDK.
--
-- The files.
--   Base         shared types, tests, lists, outcomes (`Result` with panics), dictionaries, equality.
--   Text         the methods of `str` that the program calls, over UTF-8 bytes.
--   Exec         code that changes a state and may return an error or panic.
--   FilePath, Fs paths, and `std::fs` over a tree of files in memory; Fs/Laws and Fs/Calm prove.
--   FilesystemStore  src/filesystem_store.rs: Names (checks and paths), Locks (counters and locks),
--                Io (`read`, `write`, `remove`, `list`); Paths, Distinct, Atomic, Write,
--                Complete, Remove, Checks, Temporary and Gc prove. Requests and Refinement: the store
--                as the map FileStore. Threads: `write` in many threads of many stores, call by call;
--                Interleaved proves; in it Solo, Calls and Alone compare a thread
--                with `write`.
--   FileStore    the map of src/internal/types.rs.
--   Convert      src/convert.rs; Laws proves.
--   BitcoindClient   the fee table of src/bitcoind_client.rs, and its calls in Rpc; Served, Bounds and
--                RpcLaws prove.
--   Payments     the payment records of src/main.rs and their updates; Laws proves.
--   Node         the state that events and commands share: the records, the two stores of `start_ldk`
--                over one directory, the calls of LDK; Durable proves.
--   Wallet       src/onchain_wallet.rs: `create_funding_transaction`, Utxos (`list_confirmed_utxos`),
--                Bdk (what it takes of BDK), Session (loading, scans, addresses, signing) and Operations
--                (any sequence of these); UtxosLaws, AddressLaws, Sessions and Restarts prove.
--   Peers        connecting and disconnecting in src/cli.rs; Laws proves.
--   Events       `handle_ldk_events` of src/main.rs by event, and the reconciliation of `start_ldk`;
--                Forwarded is the message of a forwarded payment; Durability and Crash prove.
--   StartLdk     `start_ldk` of src/main.rs: Boot (up to the seed), Keys (the seed), Chain (the channel
--                manager and the monitors), Prepare (what was saved, up to the payment records), Running (events
--                and lines until the end), Tasks (connecting to peers, announcing) and Shutdown;
--                BootFiles, BootLaws, KeysLaws, ChainLaws, RestoreLaws, RecordsLaws, RunningLaws,
--                TasksLaws and ShutdownLaws prove.
--   Sweep        src/sweep.rs; Laws proves.
--   Logger       src/logger.rs; Laws proves.
--   Exercises    src/commands.rs and src/events.rs (Commands), src/intro/exercises.rs (Intro).
--   Cli          src/cli.rs: PeerInfo (`parse_peer_info`), Pay (`send_payment`, `keysend`,
--                `get_invoice`), Channels (opening and closing), Offer (offers in `sendpayment`),
--                Commands (`poll_for_user_input`), Listing (`list_payments`); PayLaws, Durability, Saves, PeersFile,
--                PayCommands, PeerCommands, LineDurability, OfferLaws, ChannelLaws, ListingFields
--                and ListingLaws prove.
--   Args         src/args.rs: Credentials and Startup; Laws proves.
--   Disk         src/disk.rs; Laws proves.
--   HexUtils     src/hex_utils.rs; Decode, RoundTrip and Pubkey prove.
--   KeysManager  src/keys_manager.rs, an exercise that derives keys; Laws proves.
--   Tests        runs on small inputs.
--
-- The state. A function that changes something is a function from the state to its outcome and the
-- next state: `World` for the file system, `Process` for the store, `Node` for the records and the
-- trace of calls. What was changed before a failure stays changed. A panic is an outcome of its own,
-- since the profiles of the build abort on it.
--
-- Assumptions. Text is its UTF-8 bytes. Hash maps are association lists. Every call of the file
-- system may fail, the tests `exists` and `is_file` too, which are then false, and a failing write
-- leaves a prefix of its bytes; what a power loss takes back is
-- not modelled, so the effect of `sync_all` is not either. Events and commands run one
-- after the other, but the table of locks may hold references of other threads; only Threads lets
-- writes interleave. LDK, BDK, secp256k1, serde, the
-- resolver and the random numbers are parameters; what LDK answers may depend on all calls made
-- before. A scan of the wallet opens its database, which may panic, and asks the Esplora server,
-- which may not answer; IsLawful of Wallet/Bdk says what is used of BDK: addresses are revealed
-- one by one, do not repeat, and are reached again by what was persisted. Printed text is left out. A line of input is a text or an error of
-- `read_line`.
--
-- Bounds and fuel. Integers that the source wraps or checks are reduced or checked at their width:
-- u16 ports, u32 feerates, u64 amounts, usize counters, u64 sums. `show` runs on `n + 1` rounds, which is
-- enough for the digits of n. Reading descriptors runs on one round more than there are bytes, since
-- each takes at least one. The confirmation of an offer is cut off after a number of rounds that
-- its theorem leaves open.
--
-- Not modelled. src/networking.rs, which starts a listener of its library; of `start_ldk` the
-- constructors of LDK's objects, the polling of blocks and the listener; the commands that only
-- print, but for `list_payments`; src/internal/bitcoind_client.rs, a stand-in that nothing calls;
-- src/solutions, older copies of src/bitcoind_client.rs and src/logger.rs; and the tests.
pub mod Base
pub mod Text
pub mod HexUtils
pub mod KeysManager
pub mod Exec
pub mod FilePath
pub mod FileStore
pub mod Fs
pub mod FilesystemStore
pub mod Convert
pub mod BitcoindClient
pub mod Payments
pub mod Node
pub mod Wallet
pub mod Peers
pub mod Events
pub mod Cli
pub mod Args
pub mod Disk
pub mod Logger
pub mod Sweep
pub mod StartLdk
pub mod Exercises
pub mod Tests
