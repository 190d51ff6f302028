-- ===== src/Lib.antt =====
-- Verification library of gcosmos: the code that joins the Gordian consensus engine to the Cosmos SDK.
--
-- The program's parts and how they interact. The engine asks the consensus strategy for proposals and
-- votes, and the driver to initialize the chain and to finalize blocks. A proposer encodes the pending
-- transactions as block data, names them by a data ID and serves them over libp2p; the other nodes
-- fetch the data with the retriever, decode it under the ID and share it through the request cache.
-- The driver takes the data of a finalized block from the cache, executes it with the SDK, commits,
-- answers the engine and stores the block data and the results. A node that lags behind fetches blocks
-- from the data hosts of its peers with the catchup client. The server component starts all of them,
-- and the HTTP and gRPC servers, and stops them again; users send transactions to the buffer through
-- these servers, mostly by the client that the SDK's commands use.
--
-- The files, with the code they model:
--
--   DataId       gserver/internal/gsbd/dataid.go, dataid_zero.go: TxsHash, DataID, ParseDataID, IsZeroTxDataID
--   BlockData    gserver/internal/gsbd/encoder.go, decoder.go: EncodeBlockData, NewBlockDataDecoder, Decode; Varint
--                is encoding/binary's signed varint
--   BlockStore   gcstore/gcmemstore/blockdatastore.go, gcstore/errors.go: SaveBlockData and the two loads;
--                Refinement states the contract of gcstore/blockdatastore.go
--   TxStore      txstore/txmemstore/store.go: SaveBlockResult, LoadTxByHash
--   Requests     gserver/internal/gsbd/cache.go: SetInFlight, SetImmediatelyAvailable, Purge, Get
--   Provider     gserver/internal/gsbd/libp2p.go, provider.go: Provide, Retrieve
--   Consensus    gserver/internal/gsi/consensusstrategy.go: Proposer for DefaultProposerSelection and
--                DecidePrecommit, Propose for EnterRound, Consider for ConsiderProposedBlocks and
--                ChooseProposedBlock
--   Driver       gserver/internal/gsi/driver.go: Initialize for handleInitialization, Finalize and Validators for
--                handleFinalization, MainLoop for mainLoop and handleLagStateUpdate
--   Proposed     a block that this node proposes, from its round to its finalization, through the cache that the
--                strategy and the driver share
--   TxManager    gserver/internal/gsi/txmanager.go: AddTx, TxDeleterFunc
--   Retriever    gserver/internal/gsi/pbdretriever.go: mainLoop, workerFetchP2P, Retrieve; Turns is the step
--                relation of its goroutines
--   Catchup      gserver/internal/gp2papi: DataHost for datahost.go, Peers and Fetch for catchupclient.go
--   Server       Node for what the servers are configured with; Http for gserver/internal/gsi/http.go, http_debug.go and
--                http_compat.go; Grpc for gserver/internal/ggrpc/server.go and server_compat.go; Client for
--                gserver/cmtclient.go; Serving for the goroutines that serve and that wait for the end, in both servers;
--                Json for the parts of encoding/json and encoding/base64 that Http uses
--   Component    gserver/component.go: Init for init and initializeSQLite, Start and Stop; Wired is the invariant of the
--                states in which Start can end; Peers for the goroutine that hands connection events to the catchup client
--   Commands     gserver/commands.go: the seed command and the one that prints the validator key; Shim for the client
--                of internal/gci/command.go that stands in for the SDK's
--   TxCodec      gccodec/tx_decode.go: Decode, DecodeJSON
--   Tx           the transactions and the hash, which are other modules' code
--   Strconv      the parts of strconv, strings and encoding/hex that the code uses
--   Base         shared names, lists, maps and results
--   Tests        the theorems at concrete inputs
--
-- How code is rendered. A struct is a record and an enum a data type. A Go map is an association list.
-- A byte slice or string is a list of numbers. A call that fails returns a value of Result, whose
-- third case is a panic; a handler of the driver returns a Step with the state it leaves, since a
-- handler that stops keeps what it changed. The component is a Step on what it has recorded and what
-- is open and running; there a wait that does not return is a halt, and the root context and the one
-- that Start is given are two. An HTTP handler returns its response, a gRPC method its answer. A
-- pointer that is shared is an address in a heap. A method under a mutex is one step. Goroutines are
-- step relations, and a select is the choice of the next step. A channel operation that may be
-- cancelled has both outcomes. Numbers are natural numbers; a conversion that cuts is written with a
-- remainder, and the ranges of the Go types stand as hypotheses where a property depends on them.
--
-- Bounds. Recursion is on lists everywhere but in printing and reading numbers: format_uint runs on
-- the number itself as fuel, which is at least the count of its digits, and the varint functions on 9
-- further bytes, which is all that 64 bits take. The round trips hold for every number of the Go type.
--
-- What other modules do is a parameter with its documented facts as hypotheses: transactions and their
-- codec, BLAKE2b, Snappy, encoding/json, the application manager and root store of the SDK, the
-- transaction buffer, libp2p streams, Gordian's header store and codec, its mirror and finalization
-- stores, the HTTP router, the generated gRPC stub, io.TeeReader, time and the clock.
--
-- Not modelled: the flags and the command tree, how net/http and gRPC accept connections, the wiring
-- of the SDK's modules, generated code, logging, copies of helpers of another library, and time-outs.
pub mod Base
pub mod Strconv
pub mod Tx
pub mod DataId
pub mod BlockData
pub mod BlockStore
pub mod TxStore
pub mod Requests
pub mod Provider
pub mod Consensus
pub mod Driver
pub mod Proposed
pub mod Catchup
pub mod Retriever
pub mod TxManager
pub mod Server
pub mod Component
pub mod Commands
pub mod TxCodec
mod Tests
