-- ===== src/Lib.antt =====
-- A model of the centralized relay, which carries messages between chains: relayer/ in Go, with its
-- stores, its socket and the providers of EVM, ICON and CosmWasm chains.
--
-- A chain's listener reports the messages of its blocks. The relayer stores each of them, puts it
-- into the cache of its source chain, and hands it to a goroutine that routes it to its destination;
-- a delivered message leaves the cache and the database, and the record of its transaction is kept
-- until the transaction is final. A message that fails is tried again after a growing pause. A socket
-- lets the command line look at the stores and start some of this by hand.
--
-- Files, each with the code it models:
--   Common: Boolean tests, lists, texts as byte lists, decimal and hexadecimal numbers, int64
--     arithmetic, results, errors and calls that may panic.
--   Types (relayer/types/types.go): Message has the data types, Retry the attempts and pauses of a
--     RouteMessage, Cache MessageCache, Coin and Contracts the rest.
--   Events (relayer/events): the names of the event types.
--   Store (relayer/store): Interface is store.go, Keys common.go, Pagination and Messages
--     messageStore.go, Blocks blockStore.go, Finality finalityStore.go; Codec is the JSON library.
--   Lvldb (relayer/lvldb/lvldb.go): the store over the calls of goleveldb.
--   Provider (relayer/provider/provider.go), Chain (relayer/chain.go), Runtime
--     (relayer/chain_runtime.go).
--   Relayer (relayer/relay.go): State is the struct Relayer with the objects and goroutines it works
--     on, Blocks has processBlockInfo and SaveChainsBlockHeight, Flush flushMessages, Process
--     processMessages, Route RouteMessage, callback and HandleMessageFailed, Clear ClearMessages and
--     cleanExpiredMessages, Finality CheckFinality, Start NewRelayer, Start,
--     StartChainListeners and the event loops. Flight is about all of them.
--   Socket (relayer/socket): Wire is types.go, Server server.go with its cases in Server.Handlers,
--     Client client.go.
--   Evm (relayer/chains/evm): Heights is the catching up of listener.go, Logs events.go,
--     event_parse.go and query.go, Route route.go and calls of provider.go, Nonce types/types.go; what
--     events.go shares with the other chains is Types.EventMaps. Route.Delivery joins Route to the
--     relayer. Calls is EstimateGas with the calls of client.go and
--     abi/, Options Wallet, GetTransationOpts, ClaimFee and SetAdmin of provider.go, Listen the loop of
--     listener.go with its subscriptions.
--   Icon (relayer/chains/icon): Types is types/types.go, Events events.go, event_parse.go and the
--     callbacks of listener.go, Client the shapes of requests and answers and the wait of client.go,
--     Query query.go, Route route.go and msg.go, Calls the calls of provider.go.
--   Wasm (relayer/chains/wasm): HexString is utils/hexstr, Events events.go, Query types/query.go and
--     BuildQuery of types/types.go, Heights the block reading of provider.go, Listen its Listener and
--     subscriptions, Msg types/msg.go, Route the routing of provider.go.
--   Config (cmd/config.go, cmd/chains.go, cmd/appstate.go): how the configuration file is read,
--     changed and written.
--   Mock (relayer/chains/mockchain): the chain for tests.
--   Remote: the providers behind the one method Route, joined to the relayer by its contract, which is
--     Relayer.Route.Contract.
--   Tests: runs on concrete inputs, over a database and a JSON library written out there.
-- Where a file has a child named Laws or named for what it proves, the child has the theorems.
--
-- State and operations. The database is a value of a type D that the methods of Store take and
-- return. A *RouteMessage is an address into a heap, for a cache and a goroutine share it; a *big.Int
-- is an address and a value, for Go compares map keys that hold it by the pointer. Times are
-- nanoseconds, and each operation takes the time at which it runs. The body of each timer, of each
-- block and of the start and the end of each routing goroutine is one step; Relayer.Start.run takes
-- any sequence of them, with any results of Provider.Route. A Go map is a list in one of the orders in
-- which range may visit it. An error is a value of Error; a panic is a result none, or the
-- constructor panics of Run. A new(big.Int) gets its address as an argument. Machine integers keep
-- their wrap-around as a remainder by a power of two.
--
-- Fuel: the ranges of the EVM and CosmWasm listeners are made with one round for each height, which
-- is enough since each round goes forward; the retries and polls have the counts of the code; all
-- other recursion is on lists.
--
-- Parameters: goleveldb (LevelDbLaws), the JSON library (CodecLaws, which say that what is written is
-- read back), the nodes of the chains, the Ethereum library and the generated bindings, and the text
-- of errors. What happens inside one step of another goroutine is not interleaved with it; logging,
-- contexts and timers as such are left out.
--
-- Not modelled: the websocket of ICON, the key files, the key management, the codecs of CosmWasm, the
-- reconnection of its subscriptions, and the rest of the command line, which are I/O; most of the
-- generated bindings of EVM; and functions that nothing calls.
pub mod Common
pub mod Types
pub mod Events
pub mod Store
pub mod Lvldb
pub mod Provider
pub mod Chain
pub mod Runtime
pub mod Relayer
pub mod Socket
pub mod Evm
pub mod Icon
pub mod Wasm
pub mod Mock
pub mod Remote
pub mod Config
pub mod Tests
