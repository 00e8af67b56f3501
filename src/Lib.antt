-- ===== src/Lib.antt =====
-- A blockchain with proof of work, transactions over unspent outputs, an adaptive Merkle forest and
-- vector clocks. This library models its logic from the Go sources and proves what makes it correct.
--
-- The parts and how they interact:
--
-- The chain (Blockchain/blockchain.go) is a list of blocks in a database, each linked to the one before
-- it by the hash in `PrevHash`; the record "lh" holds the newest hash. A block (Blockchain/block.go)
-- holds transactions, a Merkle tree over their identifiers and a nonce that the proof of work
-- (Blockchain/proof.go) finds. A transaction (Blockchain/transaction.go, Blockchain/tx.go) spends
-- outputs of earlier ones, which a scan over the blocks collects. Every block's data also goes into an
-- adaptive Merkle forest (Blockchain/adaptive_merkle_forest.go), whose shards grow, split and merge.
-- Clocks and conflicting versions (Blockchain/cap_optimizer.go) stand beside the chain. Wallets
-- (wallet/) hold keys and their addresses in a file. The command line (cli/cli.go) opens the chain for
-- each command, runs the operations above on it, and closes it: the database, the wallet file and the
-- address locks are what lasts.
--
-- Which file models what:
--
-- Prelude and its children: Go's int and int64 as integers that wrap at 64 bits (add64, sub64), byte
--   slices, float64 as a bit pattern with its operations as a parameter, maps as association lists.
-- Outcome: a call that returns, or panics with a reason. Run: one that may also use up its fuel.
-- Merkle: buildMerkleTree. Merkle/Shape: the tree it builds. Merkle/Binding: what a root commits to.
-- Tx: inputs, outputs, SetID, CoinbaseTx, VerifyTransaction, CreateStateProof.
-- Block: Block, HashTransactions with the tree it stores, the entropy, PruneBlockData.
--   Block/Create: CreateBlock and Genesis. Block/Roots, Block/Create/Laws: their theorems.
-- Pow: NewProof, ToHex, initData, Run, Validate. Pow/Run, Pow/Target: their theorems.
-- Utxo: FindUnspentTransactions, FindUTXO, FindSpendableOutputs over the blocks that the iterator
--   visits. Utxo/Spent, Balance, Spendable, Reward and Payment: their theorems.
-- Locks: LockAddress, UnlockAddress, IsAddressLocked. Transfer: NewTransaction; Transfer/Laws
--   and Transfer/Payment: its theorems.
-- Slices: a slice as a window into an array in memory, with append; Slices/Append, Slices/Many,
--   Slices/Halves.
-- Forest: AddData, findOptimalShard, splitShard, mergeLowActivityShards, runShardMonitor,
--   GenerateMerkleProof. Forest/Adding, Forest/Proving, Forest/Merging: the invariant and what can be
--   proved of data that is added and merged. Forest/Splitting: the halves of a shard that is split.
--   Forest/Locking: the locks that AddData and mergeLowActivityShards take in two goroutines, as steps;
--   Forest/Locking/Invariant, Progress and Deadlock: its theorems.
-- Bloom: the Bloom filter, the accumulator over it, CreateCommitment, SynchronizeState; Bloom/Members.
-- Clock: VectorClock, ResolveConflicts. Clock/Merging, Clock/Resolving: their theorems.
-- Chain: Iterator, Next, rebuildAMF. Chain/Opening: InitBlockChain, ContinueBlockChain, the node's
--   identifier, UpdateTrustScore. Chain/Integrity: VerifyBlockIntegrity. Chain/Adding: AddBlock.
--   Chain/Walk, Chain/Rebuild and the children named Laws and Storing: their theorems.
-- Consensus: the random function, SelectLeader, ValidateBlock; Consensus/Voting.
-- Network: heartbeats, the partition probability, consistency levels and timeouts; Network/Laws and
--   Network/Adjusting: their theorems.
-- Wallet: MakeWallet, Address, CheckSum, ValidateAddress. Wallet/Store: the wallets and their file.
--   Wallet/Address, Wallet/Store/Laws: their theorems.
-- Cli: what lasts between commands and what one command is given by the clock and by chance.
--   Cli/Commands: the commands. Cli/Menu, with Options and Loop: the menu. Cli/Atoi: strconv.Atoi.
--   Cli/Flags, Cli/Dispatch: Run, with the global flags and the choice of the command.
--   Cli/Commands/Settings, Funds, Sending and Files, Cli/Menu/Steps, Cli/Flags/Global: their theorems.
-- Tests: a toy hash and other stand-ins, and the theorems applied at concrete inputs.
--
-- State and failures: a method that changes its receiver returns the new state beside its result. A
-- mutex makes a method one step, except in Forest/Locking, where the waits for a mutex are the subject.
-- `log.Panic`, `os.Exit(1)`, a nil pointer and an index out of range are panics as values. Time, random
-- numbers, map order and generated keys are arguments.
--
-- Bounds: the proof of work runs with `max_int64 - start` rounds, which are all that its own test lets
-- through. The Merkle loop has as many rounds as there are leaves, and every round but the last
-- shortens the list. A walk over the chain has enough fuel with the number of its blocks, and so has a
-- command that opens it. The menu is given a number of turns, since nothing in its code bounds it.
--
-- Parameters, with what is assumed of them written at each theorem: sha256, ripemd160, gob, hex, base58,
-- x509 and the elliptic curve, the database badger, the file system, the arithmetic of float64 and its
-- reading from a text, and the package flag.
--
-- Not modelled: the text of prompts and menus, which is output alone; main.go, which only calls Run; the
-- data race of two goroutines inside one call, since calls of the forest change it as one step; errors of
-- badger other than a missing key, on which the program panics; printUsage and the helpers min and max
-- of Blockchain/blockchain.go, which nothing calls.
pub mod Prelude
pub mod Merkle
pub mod Tx
pub mod Block
pub mod Pow
pub mod Outcome
pub mod Run
pub mod Utxo
pub mod Locks
pub mod Slices
pub mod Forest
pub mod Bloom
pub mod Clock
pub mod Transfer
pub mod Chain
pub mod Consensus
pub mod Network
pub mod Wallet
pub mod Cli
mod Tests
