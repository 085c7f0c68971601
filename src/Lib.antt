-- ===== src/Lib.antt =====
-- Voiceapp: a voice chat with a server, a client library and a desktop client.
--
-- The parts and how they interact. A client talks to the management server over TCP and to the
-- voice relay over UDP, both in the packets of the protocol crate. The management server keeps the
-- users; each connection has a task that reads packets and changes the users, writes responses
-- to its own socket, and puts broadcast messages on a channel that all tasks read. It tells the relay
-- through a channel of events who connected, joined and left. The relay keeps a session for each user
-- and sends the voice packets on.
--
--   Protocol       protocol/src: the packets (Packet), PacketId, io/reader.rs (Reader), io/writer.rs
--                  (Writer), Packet::encode and Packet::decode (Packet/Encode, Packet/Decode), and an
--                  independent description of the wire format (Layout). Strings are lists of bytes, with
--                  the check of UTF-8 (Utf8) written out as an automaton.
--   Protocol.Stream  the loop that takes complete packets out of a buffer, which
--                  server/src/management/handler.rs and sdk/src/network/tcp_client.rs both have. It runs on
--                  fuel, one more than the bytes in the buffer: each packet takes three bytes at least.
--   Server         server/src: handler.rs (World, Handler), broadcast.rs (Broadcast), management/server.rs
--                  (Management), voice/server.rs (Relay), session.rs, user.rs, event.rs, error.rs, config.rs.
--   Sdk            sdk/src/network: tcp_client.rs (Tcp), udp_client.rs (Udp), api_client.rs (Api),
--                  event_handler.rs (Events); sdk/src/voice: encoder.rs (Voice/Encoder),
--                  input_pipeline.rs (Voice/Pipeline), with its loop over chunks of a buffer on its own
--                  (Voice/Drain), io_manager.rs and decoder.rs (Voice/Output).
--   Desktop        desktop/src: the messages of all parts (Message), the updates of the room and of the
--                  login without what they draw (Room, Login), the configuration and its file (Config),
--                  the streams of sound (Audio, Audio/State), the choice of a configuration of a device and
--                  the filling of its buffers (Samples), the notifications (Notification).
--   Mirror         the server, the client's events and the room of the desktop program together:
--                  each handler's broadcasts (Packets), a login's list (Listing), runs of the other
--                  connections (Elsewhere) and the page (Page).
--   Table          the concurrent map of a third-party package, as a record of operations and laws;
--                  Table.Assoc shows that an association list has them.
--   Base           numbers, lists, results, and runs that change a state.
--   Examples       the code and the theorems at chosen inputs.
--
-- State is passed explicitly. A panic is a value: `none`, or `panicked` with the state at that time.
-- Socket addresses, one-shot channels and tokens are numbers. Channels between tasks are logs of what
-- was sent; that a broadcast channel drops old messages is not modelled. Whether a socket takes
-- a write, the clock, random tokens, and how a wait ends are the environment's, as arguments. A
-- write that fails is taken to write nothing. Handling one packet is one step of its connection:
-- steps of connections come in any order, but do not interleave within a handler.
--
-- The codec, the resampler, the jitter buffer and the sound devices are third-party packages and
-- parameters, with what the code relies on: an encoded frame is no longer than its buffer. Samples are a
-- type of their own, since they are floats. The loops of the voice pipeline and of the output buffer run
-- on fuel, one more than there are samples: each round takes one at least. The user-interface library is left out: an
-- update of the desktop program gives the list of what its task is to do.
--
-- Not modelled: binding and connecting of sockets, logging, texts of errors, the facade of the client
-- (sdk/src/client.rs), what the desktop program draws, its settings page, the loading of the sounds, and
-- the music bot (extras/src).
pub mod Base
pub mod Protocol
pub mod Table
pub mod Server
pub mod Sdk
pub mod Desktop
pub mod Mirror
pub mod Examples
