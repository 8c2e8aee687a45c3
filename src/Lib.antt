-- ===== src/Lib.antt =====
-- bget is a BitTorrent client in Go. This library models the parts of it that compute: the bitmaps
-- of pieces, bencode with its scanner, its encoder and its decoder, the messages and the handshake
-- of the peer protocol, the manager of a torrent, the pieces and files of its storage, the list of
-- files of a torrent, the trackers, the ids of peers, and the table and the queries of the DHT.
--
-- How the parts interact: a peer's connection is read by its receive loop (`recvMessage`), which
-- frames and translates each message and hands it to the manager's run loop; the manager's handlers
-- change its state and the peer's, save blocks through the file system, and call the peer's message
-- functions, which write to the connection. A task hands the addresses of the torrent to the
-- manager of its trackers, which announces to one of them and turns to the others when it fails.
-- The run loop also keeps the rounds of unchoking, and serves the blocks that the storage has read.
-- A node of the DHT sends a query over its connection as bencode, and checks the id of the answer.
-- Marshal and Unmarshal meet at the bytes of bencode: Unmarshal runs the scanner twice, once over
-- the whole input to check it, and once byte by byte while it builds the value.
--
-- The files and the code they model:
-- - Common: shared names and lemmas. Common/Go has the outcomes of a Go function (a value, an
--   error, a panic), Common/State code that changes a state, Common/Int the signed integers,
--   Common/Map maps, Common/Decimal decimal notation.
-- - Bitmap: common/bitmap/bitmap.go. Bitmap/Bit, Ops, Whole and Copies hold its lemmas.
-- - Bencode/Scanner and Bencode/Valid: bencode/scanner.go, one function per state; Bencode/Rounds
--   its lemmas.
-- - Bencode/Encode: bencode/encode.go, Marshal on the values that reflection shows. Bencode/Decoded
--   and Decode: bencode/decode.go, Unmarshal into an empty interface. Bencode/Plain has the values
--   that both share and their bencode; Reads, Tokens, Walks and Places the steps of the scanner
--   over it; Accepts, Heads, Around and Whole what checkValid makes of it; Numbers, Scans, Strings,
--   Reader, Calls, ReadBack and RoundTrip what the decoder makes of it.
-- - Peer/Wire, Message, Receive and Handshake: peer/protocol.go, with `recvMessage` of peer/peer.go
--   and `Accept` of peer/server.go; Sending: `sendMessage`, with the goroutines that it
--   starts, in any order. Framing, Delivery, Misframed and Greeting hold lemmas.
-- - Peer/Id: peer/peerid.go; Peer/Ids its lemmas.
-- - Peer/Manager: peer/manager.go. Requests and Handlers have the handlers of messages, Start what a
--   new peer is told, Choke the rounds of unchoking, Run the loop as a step for each case of its
--   select, Arrivals the calls from outside, and Stored the manager over its file system. Once,
--   OnceHandlers, Blocks, Faults, Rounds, Ends, Shut and Counted hold the lemmas.
-- - Filesystem/Piece and Layout: filesystem/; Save: filesystem/file.go; Store: SavePiece, RequestData
--   and Dump. Pieces, Search, Quiet, Appends, Appending and Refines hold their lemmas.
-- - Meta and Meta/Texts: meta/torrent.go; Meta/Files holds lemmas.
-- - Tracker: tracker/tracker.go. Tracker/Manager: tracker/manager.go, over any tracker;
--   Tracker/Udp: tracker/udp.go. Addrs, Failover and Timeouts hold their lemmas.
-- - Task: the addresses of newTask of task.go; Task/Life: the tasks of task.go and their table of
--   download.go. Slots and Faults hold their lemmas.
-- - Utils: common/utils/net.go; Utils/Random: common/utils/byte.go.
-- - Dht: dht/table.go and dht/node.go; Crowd and Endless hold its lemmas. Dht/Rpc: the queries of
--   dht/krpc.go; Calls: a call over a connection; Errors: its errors; Start: dht/dht.go. Deaf and
--   Checks hold the lemmas on calls.
-- - Examples: concrete inputs for the theorems.
--
-- Bytes are natural numbers, and slices are lists. An `int` that the code never makes negative is a
-- natural number, and a signed one elsewhere; what goes into 32 bits is taken modulo 2 ^ 32.
-- Lengths and sums in 64 bits are not wrapped: the lengths of a torrent's files are taken as not
-- negative, and what FileList makes of them as below 2 ^ 63. The
-- stream of a connection is the list of the bytes that are still to be read.
--
-- Bounds on loops: the receive loop has one round more than there are bytes, and each round takes
-- at least one. The mutual calls of `stateEndValue` and `stateBeginValue` are at most two deep.
-- `checkValid` and `scanWhile` have two rounds for each byte and two more, since an empty string
-- takes a round without a byte, and report where these do not do. The calls of `valueInterface` are
-- bounded by the same number: each takes a byte. The loops of reads of the UDP tracker have three
-- rounds, since the time-out doubles from 15 seconds and they stop above 60. The binary search of
-- `queryFile` has a round for each file. The loop of `table.addNode` has a bound that its caller
-- gives, and so has that of `generateFastSet`.
--
-- Parameters: SHA-1, `filepath.Abs`, the buffer pool of the file system, the files of the operating
-- system, the storage that the manager saves to, `sort.Slice` of the peers, what a tracker does with
-- an announcement, what the network and the clock do, the decoding of the DHT's answers into structs,
-- the regular expression for versions, and random numbers.
--
-- Not modelled: goroutines, but for those of `sendMessage` and those that are events of the run loop,
-- and connections, the walk of reflection over types and the decoding into
-- typed targets, the requests of the HTTP tracker, the run loop of the DHT, and the announcements
-- of a task in the background.
pub mod Common
pub mod Bencode
pub mod Bitmap
pub mod Filesystem
pub mod Meta
pub mod Peer
pub mod Utils
pub mod Tracker
pub mod Task
pub mod Dht
mod Examples
