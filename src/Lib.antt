-- ===== src/Lib.antt =====
-- PulseCoAP: a CoAP (RFC 7252) client and server for embedded devices. This library models the
-- client, the server and the code that the two share, and proves properties of them.
--
-- The parts, from the bottom up:
--   Common       numbers with Boolean tests, lists, options, words of 8, 16 and 32 bits
--   Types        src/PulseCoAPTypes.h, src/PulseCoAPConfig.h (its defaults) and the Endpoint of
--                src/PulseCoAPTransport.h
--                Peers is about endpoints up to their `operator==`
--   Message      src/PulseCoAPMessage.h and .cpp. The setters are in Message itself, `encode` in
--                Message.Encode and `decode` in Message.Decode. Message.Wire describes the wire
--                format without buffers; Emit, RoundTrip, Reads and Wraps compare the code with it;
--                Build and Numbers are about the setters, Content about what the client and the
--                server fill in alike
--   Uri          src/PulseCoAPUri.h: a path as the Uri-Path options of a message, and back
--   Transaction  src/PulseCoAPTransaction.h and .cpp: the pool of Confirmable messages that await
--                their ACK. Slots is about the pool as a whole, Backoff about the timeout of one
--                slot, Schedule about when it is resent, Ticks about `tick` with the callbacks of its owner, Bounds about sizes
--   Block        src/PulseCoAPBlockwise.h: block options and the state of transfers (RFC 7959)
--   Server       src/PulseCoAPServer.h and .cpp. `begin` is in Startup; `addResource`,
--                `matchTemplate`, `findResource` and `setResourceType` in Resources;
--                `buildLinkFormat` and its handler in Discovery; the table of observers in
--                Observers; all messages that the server sends, with `respond`, in Replies;
--                `notify` in Notify; `handleRequest` in Handle (Observe, deferral, Block2), Upload
--                (Block1) and Poll (the checks at its start); `poll` in Poll. Invariant is about the
--                sizes of the arrays and the table of observers, operation by operation, and
--                Steps about whole runs
--   Client       src/PulseCoAPClient.h and .cpp. The slots of pending requests are in Slots,
--                `sendRequest` in Requests, `sendBlock1` and `sendBlock2Request` in Blocks; `get`,
--                `put`, `post`, `del`, `observe` and `cancelObserve` in Methods; `discover` and the
--                expiry of its slots in Discovering; what is done with a response in Answers, and
--                the rest of `poll` in Poll. Safety is about the bounds of the arrays, operation
--                by operation, and what is found in them, and Steps about whole runs
--   Exchange     a message on its way from the client to the server
--   Transport    src/PulseCoAPTransportLwIP.h in LwIp, src/PulseCoAPTransportPosix.h in Posix and
--                src/PulseCoAPTransportArduinoUDP.h in ArduinoUdp, over the functions of the
--                network stacks as arguments
--
-- How they interact: `poll` ticks the pool, whose callbacks send a message again or remove an
-- observer (`server_host`), decodes one datagram, and hands it to the observers (Reset), to the pool
-- (ACK) or to `handle_request`. That looks the path up, runs the handler of the resource and sends
-- the reply. A Confirmable separate response or notification enters the pool. The client's `poll`
-- first receives: a Reset ends its request, an ACK its transaction, and a response is matched by its
-- token with a discovery, then with a pending request, whose callback it ends in or which it
-- continues by the next block. Then stale discoveries expire and the pool is ticked, whose
-- callbacks send a message again or end a request (`client_host`). The two ends share the message
-- codec, the paths, the block options and the pool; each owns a pool of its own.
--
-- State is passed explicitly. The record `Server` has one field for each member of the class; `sent`
-- stands for the transport and holds the datagrams handed to it, the newest first. What
-- `transport_.begin` returns, what is received and the time are arguments. The handlers of the
-- application are an argument too, `App`: a function of the number of the handler, its context and
-- the request to the server it leaves and the response. Since it gets and gives the whole server, a
-- handler may call `notify` or `respond`. An array of slots is a list of that length; an array that
-- is filled from the front with a count is the list of its entries in use. A pointer is `none` where
-- it is null, and otherwise `some` of the bytes it points to. An index of -1 is `none`.
-- The record `Client` is made like `Server`. Its application and its transport are the
-- `Environment`: whether the transport takes the n-th datagram, and what a callback, known by its
-- number, does to the client; `calls` notes each call of one. Arithmetic
-- on 8, 16 and 32 bits wraps around where the code's does. `size_t` does not: it counts bytes of
-- buffers.
--
-- Fuel: `decode_options` is called with the number of bytes left, and each round reads one byte at
-- least; `add_segments` with the length of the path and `match_loop` with that of the template, of
-- which each round passes one character at least. None of them runs out.
--
-- Not modelled: the transport for DTLS, which drives mbedTLS, and `Client::begin`, which only calls
-- the transport. The client and the server see a transport as what it takes and gives, not as one
-- of the adapters. PULSECOAP_ENABLE_BLOCKWISE is the
-- argument `blockwise`; the other switches only choose what is compiled. Memory beyond the end of an
-- array is not modelled: where the code would touch it, the model keeps the number with which it
-- does (`count` of `Captures`).
pub mod Common
pub mod Types
pub mod Message
pub mod Uri
pub mod Transaction
pub mod Block
pub mod Server
pub mod Client
pub mod Exchange
pub mod Transport
