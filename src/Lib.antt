-- ===== src/Lib.antt =====
-- A model of rundler, an ERC-4337 bundler, in the parts that keep its state: which operations a
-- paymaster can pay for and which addresses are banned in the pool, and which builder bundles which
-- senders, with what transactions and in which state of its loop.
--
-- The parts and how they interact. The pool (crates/pool/src/mempool) receives user operations. UoPool
-- checks and simulates an operation, stores it in its inner pool, which holds the operations in indices
-- by hash, by id and by price, and follows the chain: what is mined leaves, what a reorganisation takes
-- back returns, and each block sets the prices again and removes what has expired. Its paymaster tracker reserves for each operation the greatest cost that its paymaster may pay, and its
-- reputation tracker counts seen and included operations per address. The builder (crates/builder/src)
-- runs one loop per signing account. In a turn the loop waits for its trigger, lets its transaction
-- tracker read the last block, asks the shared assigner for operations of the pool whose senders no
-- other builder has, gives them to the proposer, sends the bundle through the tracker and settles the
-- assigner's locks by the result. A bundle that is not mined in time is sent again with raised fees; one
-- that stays underpriced is cancelled.
--
-- Files.
--   Common: the names of the libraries, lists, words, and hash maps and sets as association lists and
--     lists (Common.HashMap, Common.HashSet), with `Result` in Common.Results and integers in Common.Int.
--   Utils.Math: crates/utils/src/math.rs at u128, with its wrap-around.
--   Types, Types.Gas: UserOperationId and crates/types/src/gas.rs.
--   Types.Time, Types.Entity, Types.Operation: crates/types/src/timestamp.rs, entity.rs, and PoolOperation
--     of pool/types.rs with what the pool reads of a user operation.
--   Mempool.EntityTracker: entity_tracker.rs and size.rs of crates/pool/src/mempool.
--   Mempool.Pool, Mempool.Admission, Mempool.Upkeep: PoolInner of crates/pool/src/mempool/pool.rs, namely
--     its state with what removes an operation, what checks and adds one, and what follows the blocks. The
--     set `best` is a sorted list; the fields of an operation behind locks are the cell of its submission
--     id. Mempool.Calls makes a history of the calls on it (`step`, `run`).
--   Mempool.ChainUpdate: the update of crates/pool/src/chain.rs that a pool receives.
--   Mempool.UoPool, Mempool.Requests, Mempool.Screening, Mempool.Submission: UoPool of
--     crates/pool/src/mempool/uo_pool.rs, namely `on_chain_update`, what is done at the request of others,
--     and the checks and the rest of `add_operation`, in the parts between which it waits.
--     Mempool.Histories makes a history of the calls on it (`uo_step`, `uo_run`); Histories.Blocks,
--     Histories.Submitted and Histories.Served name the calls of the inner pool that stand for each.
--   Mempool.Reputation: crates/pool/src/mempool/reputation.rs. AddressReputationInner is the record
--     AddressReputation; each method is the function of its name, `step` is a call and `run` a list of
--     calls, the ticks of the loop `run` among them.
--   Mempool.Paymaster: PaymasterTrackerInner of crates/pool/src/mempool/paymaster.rs, and
--     Mempool.Paymaster.Tracker the outer PaymasterTracker, whose methods have the ending `_of` where
--     the inner ones have the same name. The LRU map is the parameter LruMap with its laws;
--     Mempool.Paymaster.Cache is a bounded map that fulfils them.
--   Builder.Assigner: crates/builder/src/assigner.rs. The loops inside its methods are functions.
--   Builder.Transactions, Builder.Tracker: the data and the operations of TransactionTrackerImpl of
--     crates/builder/src/transaction_tracker.rs.
--   Builder.States, Builder.Machine, Builder.Bundling, Builder.Sender: crates/builder/src/
--     bundle_sender.rs, namely the inner states and their moves, SenderMachineState, `send_bundle`, and
--     the handlers of BundleSenderImpl with the loop; `dispatch` is the match of `step_state`,
--     `after_attempt` that of `handle_building_state`, `step` a turn of `send_bundles_in_loop`.
--   The modules below a component hold its lemmas, named for what they prove, and Examples its tests.
--
-- Choices. Addresses, hashes and amounts are natural numbers; u64, u128 and U256 arithmetic wraps or
-- saturates where the source's does in a release build. A panic is `none`, an error a value of Result
-- or, where only its presence matters, `none` inside the result. Recursion is on lists,
-- but for the loop of `enforce_size`, which has fuel: as much as there are best operations, and one. Each
-- round of the loop takes one of them away, and with none left a round changes nothing; so `none` is a
-- loop that does not end, as enforce_size-Enough in Mempool.Admission.Resizing makes precise. Locks and
-- async calls make the operations of one component sequential, so that each is a function on its state.
-- The node, the entry point contract, the pool's answers to the builder, the proposer and the transaction
-- senders are parameters, which may answer differently at each turn; the trigger is one too, and the
-- argument Event of a turn says what its wait returns and which last block and mode it leaves. What the
-- loop tells others is kept as a list of calls.
--
-- Not modelled. Metrics, logs, gRPC and JSON-RPC servers, signing and configuration do not bear on the
-- state. process_revert of the loop is recorded as a call only. UoPool's checks of gas efficiency are
-- floating point; they, the prechecks, the simulation, the aggregators, the filters and the fee oracles
-- are parameters. The calls on UoPool are taken one after the other, also where its `add_operation` waits
-- between its parts. The chain's history (crates/pool/src/chain.rs), the proposer, the simulation and the
-- fee oracles are parts of their own that are still open.
pub mod Common
pub mod Utils
pub mod Types
pub mod Mempool
pub mod Builder
