-- ===== src/Lib.antt =====
-- The off-chain core of the payment channel hub: modules/cf-core, the library that keeps a state
-- channel between two parties and runs the protocols by which they agree on its next state.
--
-- The program's parts and the files here:
-- - modules/cf-types/src (data-types.ts, index.ts): the shared types, in Types.
-- - modules/cf-core/src/ethereum/utils/free-balance-app.ts: flip, flipTokenIndexedBalances and
--   merge, in CoinTransfers.
-- - modules/cf-core/src/models/app-instance.ts: an app with its latest state, in AppInstance; what it
--   asks of its contract is in Outcome.
-- - modules/cf-core/src/models/free-balance.ts and machine/xkeys.ts: the deposits that no app holds,
--   in FreeBalance. The ledger of FreeBalance/Ledger, an amount for each token and beneficiary, is
--   the abstract view; FreeBalance/Increment and FreeBalance/Codec relate the code to it.
-- - modules/cf-core/src/models/state-channel.ts: a channel, in StateChannel; `build` and the methods
--   that return a new channel are in StateChannel/Operations and StateChannel/Installs, the
--   serialization in StateChannel/Json. Each operation is a function of the channel into a Result.
-- - modules/cf-core/src/protocol/utils/get-outcome-increments.ts: Outcome.
-- - modules/cf-core/src/ethereum and utils.ts: commitments and signatures, in Commitment.
-- - modules/cf-core/src/machine: Machine. A protocol is a generator that yields instructions (sign,
--   send, wait, write, persist); here it is the tree of all its runs, Machine.Run, which branches on
--   each signature and each message. Machine/Rules says what holds at every write to the store
--   whatever the other side answers, Machine/Play plays a run with given answers.
-- - modules/cf-core/src/protocol (setup, propose, install, uninstall, take-action, update, withdraw,
--   install-virtual-app, uninstall-virtual-app): the sides of each protocol, in the module of its name
--   under Protocol. Its child Safety is about each side with any counterparty, Exchange about two
--   honest sides; Propose/Agreement is both. A long side is cut into parts where it waits for a
--   message. A virtual app has three sides (initiating, intermediary, responding), and the channels
--   and apps that they compute are in Objects.
-- - modules/cf-core/src/machine/protocol-runner.ts and protocol/index.ts: the choice of a step by
--   protocol and number and the start of a run, in Runner; Runner/Opening and Runner/Starts are about
--   the first message. The loop of runProtocol is Machine/Play,
--   with given answers.
-- - modules/cf-core/src/store.ts and db-schema.ts: Store, over a storage service. Store/Represents
--   relates the stored values to the map from addresses to channels that is the abstract view, and
--   Store/Search, with the loops of the search in Store/Reading, shows that the operations implement
--   it. Store/Owners is the search for a channel by
--   its owners, with the in-place sort of the owners and getCreate2MultisigAddress of utils.ts.
-- - modules/cf-core/src/node.ts: the handlers that write a commitment or a channel for a protocol, in
--   Store/Middleware, with the loop of runProtocol over a store.
-- - Prelude holds the numbers, maps, lists and results that the rest shares; Tests holds concrete
--   platforms, channels and contexts.
--
-- How the code is modelled. A class is a record, a method that mutates or copies it a function to a
-- new value, a thrown error an `err`. A Map or object is an association list in insertion order,
-- where putting a present key keeps its place, as a Map does; an object with keys that look like
-- integers would order them first, but addresses and hashes do not. A text is a number, since the
-- code only compares texts or hands them to ethers, and 0 is the empty text. A BigNumber is an
-- integer. Machine integers do not occur: amounts have no bound in the code either.
--
-- What the code only calls is a parameter. Types.Platform is ethers' address, hex and encoding
-- functions and the reading of a key; IsPlatform its documented laws (getAddress returns the
-- checksum form of an address, and a number survives its hexadecimal text). Outcome.Chain is what a
-- contract answers and how it is decoded, at each query. Commitment.Ethereum is packing with
-- hashing, encoding of calls, and signature recovery; a signature is not assumed to be unforgeable.
-- The storage service of Store is a state with a read and a write; IsStoreService is its documented
-- behaviour: a channel is read as it was written last, a write at another path leaves it alone, and
-- a read of the parent path is the object of all channels.
--
-- Bounds. The loop of handleRefundAppOutcomeSpecialCase has ten rounds in the source and here; all
-- other loops are recursions on a list. No fuel is used.
--
-- Not modelled: of cf-core, the request queue (it wraps a third-party queue), the RPC methods and
-- the validations they make, the routing of node messages, the events and the wiring of the node's
-- services; the memoization of getters, log output and waiting. The steps of one run are not
-- interleaved with those of another, since a queue serializes the runs on one channel. The client,
-- the hub server, the contracts in Solidity and the user interfaces are outside: they reach the core
-- by calls only.
pub mod Prelude
pub mod Types
pub mod AppInstance
pub mod FreeBalance
pub mod StateChannel
pub mod Outcome
pub mod Commitment
pub mod Machine
pub mod Protocol
pub mod Store
pub mod Runner
pub mod CoinTransfers
pub mod Tests
