-- ===== src/Lib.antt =====
-- The client of a state channel network: packages/node. Two parties keep a channel (a multisig and
-- the apps installed in it), and the money that is not tied up in an app stands in the state of one
-- special app, the free balance. A protocol computes the next channel from the present one, has both
-- parties sign it, and saves it in the store.
--
-- The files and the code that they are about, all under packages/node/src unless said otherwise:
--   Prelude, Prelude/*       names of the libraries, Boolean tests, signed integers
--   Errors                   what the code throws, and the monad of calls that may throw
--   External                 the ethers library as parameters, with one documented law
--   Dict, Dict/*             JavaScript objects, `Map`s and `Set`s with string keys
--   AppInstance              models/app-instance.ts, ethereum/utils/app-identity.ts and the types of
--                            packages/types/src
--   FreeBalanceApp           ethereum/utils/free-balance-app.ts: `flip`, `merge`
--   FreeBalance              models/free-balance.ts: `FreeBalanceClass` and its JSON form
--   Xkeys                    engine/xkeys.ts: addresses of extended keys, their cache and their order
--   StateChannel             models/state-channel.ts: the constructor, `build` and the questions;
--     StateChannel/Funds       the methods that change the free balance, and the creation of channels;
--     StateChannel/Apps        proposals, `installApp`, `uninstallApp` and the virtual app agreements;
--     StateChannel/Json        `toJson` and `fromJson`
--   Store                    store.ts
--   Outcome                  engine/utils/get-outcome-increments.ts
--   Commitments              ethereum/*.ts: what is signed, and the transaction that it becomes
--   Create2                  utils/create2-address.ts
--   Protocols                engine/enums.ts, engine/types.ts: protocols, parameters, messages
--   Engine                   what the generators of engine/ share, and the check of signatures
--     Engine/Runner            engine/protocol-runner.ts: a generator runs until it sends or ends
--     Engine/Update, Engine/TakeAction, Engine/Uninstall, Engine/Propose
--                              engine/update.ts, engine/take-action.ts, engine/uninstall.ts,
--                              engine/propose.ts
--     Engine/Setup             engine/setup.ts
--     Engine/Install, Engine/Install/Exchange
--                              engine/install.ts: the next channel, and the generators
--     Engine/Withdraw, Engine/Withdraw/Exchange
--                              engine/withdraw.ts: the refund app, and the generators
--     Engine/VirtualApp, Engine/VirtualApp/*
--                              engine/install-virtual-app.ts and engine/uninstall-virtual-app.ts: the
--                              objects that the three parties compute, and their generators
--     Engine/Dispatch          engine/protocol-runner.ts: a message chooses a generator
--     Engine/Session           two parties run a protocol with each other
--   Handling, Handling/*     message-handling/handle-protocol-message.ts: the events of a node
--   Installation             methods/app-instance/install/operation.ts
--   Tests, Tests/*           a channel between two parties, and the theorems at it
-- The other files hold the proofs about the file that they stand under. A channel uses the free
-- balance and the apps, the store the channels, and the outcomes give the increments with which an
-- app is uninstalled.
--
-- How the code is read. A name of the source is spelled in lower case with underscores
-- (`installApp` is `install_app`, `fromJson` is `from_json`). A method that changes its object
-- returns the changed one. An object, a `Map` or a `Set` is the list of its entries in the order of
-- insertion. A `BigNumber` is an integer of any size; sequence numbers, versions and timeouts are
-- natural numbers, as they stay far below 2^53. `parseInt` rounds to a double, as JavaScript does: an
-- address has 160 bits, so 128 rounds are more than enough to find its 53 leading bits. The loop on
-- refunds makes the 10 attempts of the source and ends by itself. The waiting of `await` is left
-- out: each function is run to its end.
--
-- Parameters are the ethers library, ABI coding, signing, the contracts of apps, the answers of the
-- chain, the store service, and the fields of the state of a pass-through app. Deriving a key is
-- taken to succeed, as it does for a well-formed key, and the cache of the k-th addresses is
-- modelled on its own and shown to be invisible. The handler of a message is given the run of the
-- protocol, with its waits, as a function of the store.
-- A protocol's generator function is a tree (`Process`): a node for each `yield` and each change of
-- the store, a branch for what comes back. `advance` runs the tree as `runProtocol` does. The store
-- is read when the generator starts. A session of two parties carries the messages to and fro until
-- both generators have ended; what the chain answers them about outcomes is a parameter of each. One of
-- three carries those between the intermediary and the users, with one chain for all; a
-- channel between the parties that loses messages is not modelled, and neither are the node's
-- queues, its other methods and user interfaces.
pub mod Prelude
pub mod Dict
pub mod Errors
pub mod External
pub mod AppInstance
pub mod Xkeys
pub mod FreeBalance
pub mod StateChannel
pub mod Store
pub mod Outcome
pub mod Create2
pub mod Commitments
pub mod Protocols
pub mod Engine
pub mod Handling
pub mod Installation
mod Tests
pub mod FreeBalanceApp
