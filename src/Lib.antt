-- ===== src/Lib.antt =====
-- A verification library for datura: the dmt package's Merkle tree, peer registry, leader election,
-- write-ahead log, tree, forest and latency window, the structure package's rings and clock, and the
-- memory package's store.
--
-- The Merkle tree (dmt/merkle.go, dmt/merkle_snapshot.go) publishes an immutable snapshot: the leaves,
-- sorted by key, the root over them, and the parent of each node. `Insert` changes the leaves and marks
-- the snapshot, `Rebuild` builds the nodes over them, `GetProof` and `VerifyProof` read the way from a
-- leaf to the root, and `GetDiff` walks the trees of two snapshots.
--   Dmt/Merkle/Nodes: MerkleNode, MerkleTree, NewMerkleTree, Insert, LookupLeaf, Verify, hashKV,
--     hashChildren
--   Dmt/Merkle/Build: Rebuild and buildLevelZeroAlloc; Build/Levels and Build/Links say what they build
--   Dmt/Merkle/Proof: GetProof and VerifyProof; Proof/Climb follows the loop to the root
--   Dmt/Merkle/Diff: GetDiff, diffNode and fullDiff; Diff/Full compares fullDiff with a lookup of each leaf
--   Dmt/Merkle/Tree: the invariant of a tree, and the theorems on all operations together; Tree/Gaps has
--     what the code does not do
-- The registry of peers (dmt/peers.go) publishes a slice sorted by address in the same way.
--   Dmt/Peers: Peers, With, Without, Has, List, Len, Upsert, Remove; Peers/Map compares it with a map
--   Dmt/SortedSlice: the binary search of sort.Search, and the copy of a sorted slice with one element
--     changed, added or removed, as the leaves and the peers use it
-- The election (dmt/election.go) is the state of one node: its term, its vote, its role, and the count of
-- votes for itself. A timeout starts an election, a request for a vote and a heartbeat come from other
-- nodes, and each answer of a peer comes back as an operation of its own.
--   Dmt/Election: Election, startElection, tryPromoteToLeader, stepDown, publishVote, drainVotes,
--     handleVoteRequest, handleHeartbeat, updateLogState, Close
--   Dmt/Election/Wins: an election that peers answer with votes
--   Dmt/Election/Reach: the states that sequences of operations lead to, with the votes cast; Terms has
--     what holds in all of them
-- The write-ahead log (dmt/persist.go) appends a record for each write, deletion and new term, and reads
-- them back at a restart. Its steps run under a batch (dmt/guard.go) that keeps the first error and skips
-- what follows. What the operating system answers to each call is an argument.
--   Dmt/Guard: batch, guardValue, guardStep; Guard/Laws compares a batch with steps that stop
--   Dmt/Log/Frame: the records as bytes; Frame/Fields and Frame/Headers have the fields at their places
--   Dmt/Log/Replay: Replay over the bytes of a log; Replay/Whole reads a whole record, Replay/Ends has
--     where the loop ends, Replay/Grows that it only adds entries
--   Dmt/Log/Records: a log as the sequence of its records; Records/Torn has a last record that is cut
--   Dmt/Log/Store: PersistentStore, LogInsert, LogDelete, LogTerm; Store/Open has NewPersistentStore,
--     Replay, GetLastState, Close, and Store/Truncate createSnapshot and truncateWAL
--   Dmt/Log/Store/Reach: sequences of operations; Kept, Durable, Exact and Positions have what is in the
--     log behind them, Untouched what an append leaves, Scheduled the operations that schedule no
--     snapshot, Snapshots what a truncation leaves, and Rotated the log across a scheduled snapshot
-- The tree (dmt/tree.go) is the root of an immutable radix tree with such a log.
--   Dmt/Tree: Tree, NewTree, Insert, Get, Seek, WalkPrefix, UpdateTerm, GetLogState, AVG, Close
--   Dmt/Tree/Restart: a tree and the one that a restart finds; Restart/Opened has NewTree on whole
--     records, Restart/Steps the operations, Tree/Lookup what Get answers, Tree/Torn a log that is cut
-- The metrics of a node keep the last latencies of an operation in a window (dmt/latency.go).
--   Dmt/Latency: NewLatency, Record, Average; Latency/Bounds has the average behind some recordings
-- The forest (dmt/forest.go, dmt/snapshot.go) publishes a list of such trees, writes to all of them and
-- reads from the one with the lowest average time.
--   Dmt/Forest: NewForest, AddTree, synchronizeTrees, syncReferenceTree, getFastestTree, Get, Seek, Insert,
--     Iterate, Close; Forest/Fastest and Sources have the choice of a tree, Replicas, Adding and Reads the root that
--     all trees have, Contents the forest as a map, and Closing what `Close` closes
-- The rings (structure/offline.go, structure/spsc.go, structure/mpmc.go): a live queue between one
-- producer and one consumer, one between any number of them, and the view over a copied slice that
-- `Snapshot` and `Select` return.
--   Structure/Offline: OfflineRing and its operations
--   Structure/Spsc: SPSCRing, Push, Pop, Len, Snapshot, Select, Do, Close, drainInto
--   Structure/Spsc/Queue: the bounded queue that a ring stands for; Queue/Refine has Push and Pop
--   Structure/Spsc/Moves: Merge, Slice and adopt, that move values between rings
--   Structure/Mpmc: MPMCRing, pushpop, Push, Pop, Snapshot, Select, Len, Close; Mpmc/Cells has the
--     queue that a ring holds, Mpmc/Refine Push and Pop, and Mpmc/Moves Do, mergeMPMC and Slice
-- The ring of linked nodes (structure/list.go) has its nodes in a store.
--   Structure/ListRing: NewListRing, Push, Pop, Select, Merge, Slice, Len, Do; ListRing/Circle has circles of
--     nodes, Build what NewListRing makes, Push and Visit the values behind pushes, Splice a merge of two
--     rings, and Clocked a clock on such rings
-- The clock (structure/clock.go, structure/clock_track.go, structure/clock_cursor.go) numbers observations
-- into a timeline and into a history for each key, on rings that the caller gives, and hands consumers
-- what is between their cursor and a cut.
--   Structure/Clock: ClockRing, Register, Push, Observe, Pop; the rings are a parameter
--   Structure/Clock/Cuts: Cut, Frame, FrameThrough, Aligned, EventsAfter
--   Structure/Clock/Rings: what a clock relies on in its rings; Push has what a push does, Numbers and
--     Events what EventsAfter reads, Newest what a track shows a frame
-- The memory store (memory/store.go) keeps documents in a map and searches them by text and embedding.
--   Memory: Get, Put, Delete, Search, scoreDocument, cosineSimilarity, with the documents of
--     types/memory.go and types/store.go; Memory/Lookup and Contents compare it with a map, Ranking has the order
--     of the hits, and Search what a search returns
--
-- Conventions. A byte is a native number and a byte slice is a list; a nil slice is an empty one.
-- Numbers are native; a uint64 is reduced modulo 2 ^ 64 where the code adds or subtracts, and an
-- int, or the int64 of a tree's operation times, is not bounded. A pointer to a node is the node
-- with the address it was allocated at. A function of Go's library that is not part of the language,
-- SHA-256, is a parameter, of which `Tree/Gaps` assumes the length of a digest. The immutable radix
-- tree, a third-party package, is a parameter too, of which `Tree/Lookup` assumes that it keeps the
-- last value of a key. A node identifier stands as its FNV hash. The values of a ring have a
-- parameter for their zero value. The strings, the floats and the sort of the memory store are
-- parameters, and a document's metadata is a type parameter; `Memory/Ranking` names the laws of IEEE
-- 754 comparisons and what `sort.SliceStable` documents, and `Memory/Insertion` has a sort that does
-- it. A Go map is the list of its entries.
--
-- Fuel. `Replay` is given the length of the log, of which each round takes a byte. `sort.Search` is
-- given the length of the slice, which it halves. A level of the Merkle tree is shorter than the one
-- below, so the number of leaves is enough for `Rebuild` and `GetProof`. `Do` and `drainInto` are
-- given one more round than the ring has values; each round takes one. `bits.Len` halves its
-- argument. A walk around a ring of linked nodes is given as many steps as the store has nodes.
--
-- Not modelled. The operations run one at a time: a compare-and-swap loop is one successful round,
-- and producers and consumers of a ring do not interleave. The logged errors, the error of a ring,
-- which is never set, and the slice that two views of an offline ring share are left out, and so are
-- the election's timers and the terms of its peers. Of a tree the nil pointer and the retries of the
-- compare-and-swap are left out, and a snapshot of the log runs between two operations, as a step of
-- its own: sequences of operations are stated where none is scheduled, or with the one that is. A
-- forest has no network node, and each of its trees is added once. The bytes that a buffered writer
-- hands over early, when its buffer is full, count as part of the flush behind them. A time of the
-- clock is a number of nanoseconds; its merge, which rewrites the timeline, and a nil clock are left
-- out. A memory's embeddings and relationships, which the memory store does not use, are left out.
-- The network, the cognitive engine, the transports, the storage adapters and the generated code are
-- not part of the library.
pub mod Dmt
pub mod Memory
pub mod Prelude
pub mod Structure
