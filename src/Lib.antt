-- ===== src/Lib.antt =====
-- Verification of rfmpd, a daemon that exchanges short messages between radio stations.
--
-- The program: a client of the Direwolf TNC (internal/network) carries frames over a TCP stream in
-- the KISS encoding, each an AX.25 UI frame whose info field is a frame of the protocol
-- (internal/protocol). The daemon (internal/daemon) decodes what it receives, collects fragments,
-- stores messages in SQLite (internal/storage), shows them to the clients of its API, and queues
-- them for a rebroadcast; a loop sends what is due. Nodes compare vector clocks (SVEC frames) and
-- send each other what is missing. An HTTP API (internal/api) posts messages and changes the
-- configuration (internal/config). A pager (cmd/rfmp-display) is a client of the API, and a
-- simulator (cmd/rf-sim) stands in for the radio channel between several nodes.
--
-- Which file models what:
--   Base        lists, tests and integers that the other files share
--   Text        the functions of strings and strconv that the code calls
--   Kiss        internal/network/kiss.go: KISSFrame.Encode is `encode`, DecodeKISSFrame is
--               `decode`, DecodeFrames is `decode_frames` on the buffer of `KissProtocol`
--   Ax25        internal/network/ax25.go: addresses, frames, CreateUIFrame
--   Direwolf    internal/network/direwolf.go: `step` takes one event of Run and receiveLoop and
--               gives the calls of OnFrame; SendFrame is `send_frame`
--   Message     internal/protocol/message.go: IDs (`Hex`), times on the wire and in text
--               (`Timestamp`, `Calendar`)
--   Frames      internal/protocol/frames.go: MSG, FRAG, SVEC and their dictionaries
--   Wire        internal/protocol/parser.go: frames to and from protobuf messages
--   Fragments   internal/protocol/fragmentation.go: FragmentMessage, AddFragment, CleanupExpired
--   Storage     internal/storage/database.go: a record of tables as lists of rows (`Messages`,
--               `Queue`, `Seen`, `Directory`), one function per statement; `Statements` has what
--               each statement keeps
--   Daemon      internal/daemon/daemon.go: `Handlers` for received frames, `Sending` for
--               messages from the API, `Transmit` for a round of transmissionLoop; `Queued` and
--               `Sent` follow a message through the queue, `Answering` and `Agreeing` are about
--               vector clocks, `Evolution` and `Loops` about the database
--   Config      internal/config/config.go: Load is `load` over a parameter for files and YAML
--   Api         internal/api/handlers.go, server.go: the handlers of requests, which take and give
--               the `Server`, that is the daemon with its configuration; `Posting`, `Callsigns` and
--               `Unchecked` follow requests into the daemon
--   Broker      cmd/rf-sim/broker.go: the clients, partitions and noise, splitKISSFrames, and
--               readLoop as `read_loop` on the chunks of a stream
--   Display     cmd/rfmp-display: `Screens`, with `Settings` below it, has HandleKey of each screen
--               and the main loop on events, `Layout`, `Lists`, `Timeline` and `Frame` what Render
--               draws, and `Framebuffer` the pixels; `Saving` and `Creating` follow what the pager
--               sends into the API
--   Timing      internal/sync/timing.go: the random delays in signed nanoseconds, over an
--               interface for float64
--   System      main.go and Daemon.Run: `step` takes one event of the running node, which is a step
--               of the modem's client and what it hands on, a round of a loop, a request or a
--               restart; `Invariant` and `History` are about every run
--   Log         main.go, rotatingWriter: Write is `write` on the log and its numbered backups; which
--               of its system calls succeed is an argument
--   Tests       every property at a concrete input
--
-- How: a byte is a native natural number below 256, a string is its bytes, and a Go int is a natural
-- number or, where the code can see a negative one, an integer. A function that changes a struct
-- takes and returns the record. An error is `none` or a constructor of a result type; a nil
-- dereference is an outcome of its own. The clock, the random delays, the result of a write and the
-- events of the network are arguments. The handlers run one at a time: a handler is one step of the
-- state, though the code lets the receive loop, the transmission loop and the API interleave between
-- database calls. Loops over slices are recursions on the list. Five loops run on fuel, which is
-- enough by construction: the rounds of DecodeFrames and splitKISSFrames have one more than the
-- length of the buffer, and each removes two bytes; those over digipeaters have the length of the
-- frame, and each removes seven; the search for a year has one more than the number of days, and the
-- digits of a number one more than the number.
--
-- Parameters: google.golang.org/protobuf (`Proto`, which assumes that what was marshalled is
-- unmarshalled to itself, for messages and fragments), encoding/json (`Json`), SHA-256 (a
-- function), the file system and YAML (`System`), floating-point numbers (a type, and `Floats` for
-- the delays), math/rand (`Moment`), the UTF-8 encoding and the font of the pager, and what its HTTP client gives back
-- (`Replies`). SQLite statements are modelled to succeed unless a unique key forbids them.
--
-- Not modelled: the flags, signals and log levels of main.go, the generated code of
-- internal/protocol/pb, routing and static files of the API, the scenarios of the simulator, which start processes and wait, and the clients, the font and the
-- drivers of the pager; and of the modelled files the log calls, the tickers, serializeForClient,
-- which keeps no state of its own, and Open and Close of the database file.
mod Base
pub mod Text
pub mod Message
pub mod Frames
pub mod Wire
pub mod Fragments
pub mod Kiss
pub mod Ax25
pub mod Direwolf
pub mod Config
pub mod Storage
pub mod Daemon
pub mod Api
pub mod Broker
pub mod Display
pub mod Timing
pub mod System
pub mod Log
mod Tests
