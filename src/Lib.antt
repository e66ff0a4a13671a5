-- ===== src/Lib.antt =====
-- SoundSwarm: a server that captures a computer's sound and sends it over UDP to phones that play it in
-- step. The capture fills a ring buffer; the pipeline of cmd/soundswarm-server/main.go reads frames from
-- it, splits surround sound into channels, encodes each, and hands it to the stream manager, which sends
-- a datagram to each client that is to hear it. Clients join a session and report over TCP; the clock
-- component measures the offset of their clocks, and the equalizer sets one delay for all.
--
-- Prelude: shared names, Boolean tests, lists, int64 (Prelude/Int), Go maps (Prelude/Table), text, and
--   the interface of float64 (Prelude/Float).
-- Protocol: internal/protocol/packet.go, with readTCPMessage of internal/server/tcp.go. Marshal,
--   MarshalInto and Unmarshal are marshal, marshal_into and unmarshal; what the two writers share is
--   write_packet, in the order of their assignments.
-- Latency: internal/sync/latency.go. LatencyEqualizer is Equalizer, and its methods are functions of it
--   that also give the callbacks that they call.
-- Clock: internal/sync/clock.go. ClockSync is a table of clocks. What a connection answers, and the times
--   that the wall clock shows, are given with each call.
-- Session: internal/session/manager.go. Clients stand in a heap, since handlers keep pointers to them.
-- Surround: internal/surround/demux.go. Codec: internal/codec/opus.go.
-- Stream: internal/stream/manager.go. Whether a write to a socket succeeds is an argument; a send on the
--   channel that has no room drops the frame, as the source's select does.
-- Ring: the ring buffer of internal/capture/wasapi_windows.go. Capture: the rest of it. convertAndWrite is
--   Capture/Convert, processCaptureBuffer is Capture/Packets (Capture/Samples and Capture/Rounds say what
--   its rounds deliver), and Start and Stop are Capture/Device, each
--   given what the calls into Windows answer.
-- Pipeline: cmd/soundswarm-server/main.go. What main makes of the capture's format is Pipeline/Setup; a
--   round of runAudioPipeline is a tick of the counters and a frame.
-- Server: internal/server/tcp.go and http.go over the state of the four components: each stage of
--   handleConnection and each message of clientReadLoop is a function, as are handleKick and
--   handleChannelAssign. Server/System has all connections at once: their stages and messages, the
--   handlers, the eviction and the audio are steps of one relation, in any order. Server/Outbound
--   is about the clients that BroadcastToAll writes to. Server/Http has the handlers with their answers,
--   and the WebSocket hub.
-- Tests: a concrete run of each part.
--
-- Bounds: a fixed-width integer wraps, as the source's does (`% 2 ^ 32`, wrap64). Counters and positions
-- that Go keeps in an int64 and that only grow are exact numbers. Byte slices are lists of numbers. The
-- only fuel is that of the loop over TCP messages (Protocol/Framing): each message takes four bytes of
-- the stream at least, so any fuel above its length is enough. float64 and float32 are parameters, with
-- the laws of comparison and subtraction that are used named in Prelude/Float. Goroutines that share a
-- lock are taken one call after the other.
--
-- Not modelled: the vtable calls into Windows and the thread of the capture, JSON, the routing and the
-- connections of net/http, the messages that the TCP handlers send, the search for servers and addresses
-- in internal/discovery, the test tone and the stub capture, the priority of the socket, logging, and the
-- clients. These call libraries and the system, or are not in Go.
pub mod Prelude
pub mod Protocol
pub mod Latency
pub mod Clock
pub mod Session
pub mod Surround
pub mod Codec
pub mod Stream
pub mod Ring
pub mod Capture
pub mod Server
pub mod Pipeline
pub mod Tests
