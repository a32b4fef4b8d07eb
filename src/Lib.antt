-- ===== src/Lib.antt =====
-- Alpha entanglement on IPFS: a file is cut into blocks, parity blocks are made from them by XOR along
-- the strands of a lattice, and a node that misses a block recovers it from the others. Community
-- nodes watch files and repair them together.
--
-- The parts, and the files that model them (paths are from the root of the repository):
--   * Bytes: the padding and XOR of two chunks, entangler/block.go. A byte is a number, a chunk a list.
--   * Entangler/Index: the index arithmetic of entangler/entangler.go, over integers with the
--     remainder and the quotient of Go. A division by zero is `none`.
--   * Entangler/State and Entangler/Encode: NewEntangler, Entangle, entangleSingleBlock and wrapLattice.
--     A pointer to a block is an index into a heap; the data channel is a list, and what goes into the
--     parity channel is listed in the order in which it is sent.
--   * Block: the methods of Block in entangler/block.go, each one a step under the block's lock.
--   * Lattice: NewLattice and Init of entangler/lattice.go, which allocate the blocks and link them.
--   * Lattice/Recover: GetRecoverPairs and the sequential recovery. The links are fixed after Init, so
--     a recovery reads the list `nodes` and changes the list `cells`. The getter that downloads blocks
--     is a parameter, the same function during a request.
--   * Lattice/Request: GetChunk, GetParity, GetAllData, UpdateParity and GetRepairedParities.
--   * Server: the types of Server/types.go; Server/Split, how failed leaves are shared out;
--     Server/Collab, StartCollabRepair and ReportUnitRepair of Server/repair.go; Server/Strand,
--     StartStrandRepair and ContinueStrandRepair; Server/Node, the daemon of Server/daemon.go with the
--     HTTP handlers of Server/server.go as a step relation over channels without a buffer.
--   * Monitor: the operations on monitored files of Server/daemon.go with the mutex, and UpdateView of
--     Server/viewshare.go. Monitor/Inspector, the inspection of files in Server/inspector.go: the choice of
--     a block, and what is noted of it; the random numbers are parameters.
--     Monitor/Forward, what nodes tell each other of a file, in Server/server.go and Server/viewshare.go;
--     Monitor/Views, prepareUpdateView of Server/server.go.
--   * SafeMap: util/safestruct.go.
--   * Connector/Ranges: calculateNewBlocks of ipfs-connector/blockgetter.go.
--   * Connector/Getter: GetData, GetDataCID and the lookups of CIDs of ipfs-connector/blockgetter.go. A
--     pointer to a tree node is an index; Data and CID of the nodes and the counters are the state.
--   * Connector/Parity: GetParity, GetParityHelper and GetParityCID of that file.
--   * Connector/Tree: ConstructTree of ipfs-connector/treenode.go on trees as data; Connector/Tree/Swap,
--     the pre-order indexes, GetFlattenedTree, and the swaps of places and of lattice indexes;
--     Connector/Tree/Parity, the shape of the tree of CreateParityTree.
--   * Connector/Merkle: GetMerkleTree of ipfs-connector/ipfsconnector.go.
--   * Client: downloadAndRecover of client/download.go over an interface of lattice and network;
--     Client/Repair, RetrieveFailedLeaves and RepairFailedLeaves of client/repair.go.
--     Client/Upload, how an upload of client/upload.go collects, merges and pins the parity blocks;
--     Client/Metadata, Upload as a whole and PrepareRepair of client/repair.go, which meet in Metadata of
--     client/helpers.go.
--   * Cluster: the peers and pins of ipfs-cluster/ipfscluster.go, with the answers of the HTTP API as
--     parameters.
--   * Prelude: what the parts share, among it slices, Go integers and maps.
--
-- Interaction: the recovery uses the methods of Block, and Block the XOR of Bytes; the lattice is
-- linked with the index arithmetic that the entangler encodes with; a daemon's round calls the
-- handlers of Collab and Strand. The walks of Client ask a lattice for chunks, the lattice asks the
-- getter of Connector, and the getter finds blocks through the tree of ConstructTree, whose lattice
-- indexes must be those of the upload.
--
-- Loops are structural recursion. The recursion of sequentialRecoverHelper goes down with allowDepth,
-- so its depth is its fuel. The loop that sends the requests of a collaborative repair goes along the
-- answers of the peers; when they run out, the handler still waits.
--
-- GetData and GetParityHelper recurse from a node to its parent and loop until the node has a CID:
-- both run on one fuel, which has to exceed the depth of the node in the tree. ConstructTree goes up
-- at most D levels. The search of a place to swap runs on the number of nodes as its fuel, which is enough
-- for a positive s; for s = 0 it need not end, and then the model has no result.
--
-- Not modelled: the parallel recovery, which nothing calls; reads and writes of files; the calls of
-- IPFS, of the cluster and of other nodes, whose answers are parameters; the command line in cmd/; logs.
pub mod Prelude
pub mod Bytes
pub mod Entangler
pub mod Block
pub mod Lattice
pub mod Server
pub mod Monitor
pub mod SafeMap
pub mod Connector
pub mod Client
pub mod Cluster
