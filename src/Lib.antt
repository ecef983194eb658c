-- ===== src/Lib.antt =====
-- hical is a C++20 web framework: an HTTP/1.1, HTTP/2 and WebSocket server and client over
-- Boost.Asio. This library models its protocol core and proves what makes it correct.
--
-- Http2/Options.antt is src/core/Http2Options.h, the limits that every component validates.
-- Http2/Error.antt is the error value of src/core/Error.h with the codes of
-- src/core/http2/Http2Codec.h; messages are left out.
--
-- Http2/Budget.antt is src/core/http2/Http2Budget.h: Service is Http2ServiceBudget::State, State
-- is Http2Budget::State, Lease is Http2Budget::Lease; acquire, try_resize, reset and assign are
-- the methods of those names (tryResize, operator=). A lease shares its connection's state and the
-- service's counter, so both are passed to each operation and returned. size_t is a number with
-- its wrap-around written out. Budget/Laws has one law for each operation, Budget/World any number
-- of connections with all their leases, Budget/Race the atomic loop under any interleaving of
-- threads.
--
-- Http2/Headers is src/core/http2/Http2Headers.cpp: Syntax the grammar (token, validValue,
-- parseAuthority), Storage the block as offsets into one buffer with append, Seal the checks of
-- validateComplete, combineCookies and the views. Seal/Whole is a description of a whole block
-- after RFC 9113, which Requests and Accepts compare with the checks. The IPv6 parser of
-- Boost.Asio is the parameter make_address_v6.
--
-- Http2/Stream.antt is src/core/http2/Http2Stream.cpp: fields are those of the class, each method
-- returns the quotas, the stream and its result, and the clock is an argument. Stream/Wait is
-- waitBody as the two parts of its coroutine, before and after it sleeps. Stream ids are not
-- negative, as the protocol library gives them; storing bytes is taken not to throw.
--
-- Http2/Receive.antt is src/core/http2/Http2Receive.cpp. Outside holds what is not its code: the
-- answers of the codec's consume and reset, the user's notifications as the calls that they make
-- (cancel and fail), the clock and the address parser. The calls of the codec are recorded in
-- order, and an exception is the reply thrown. A stream that leaves the table may still be held by
-- its task, so it stays in retired. Receive/Events has the header handlers, Data those of DATA and
-- of the end of a stream, Tasks what the owner of a stream does to it; Run is any sequence of
-- these. The table is a list in the order of insertion, and stream ids are not negative.
-- Receive/Table has the invariant, and the other files that each handler keeps it.
--
-- Ws/Frame.antt is src/core/WsFrame.h: parse_ws_frame_header, build_ws_frame,
-- build_masked_ws_frame and build_close_payload are the functions of those names, a buffer and its
-- size is a list of bytes. Ws/Mask.antt is unmaskPayload with its path over 32-bit words, which
-- are stored lowest byte first. The enums over uint8_t and uint16_t are numbers, since a cast
-- gives them values that have no name. Frame/Parse and Frame/Forms say what is read of each form
-- of a length.
--
-- Ws/Session.antt is src/core/WebSocket.cpp, the session with its buffers, the write batch and
-- endBatch; the write lock is left out, since one coroutine runs at a time. Session/Receive is one
-- turn of the loop in receiveBatch: check_header, handle_frame, data_frame and finish_message are
-- its numbered parts, and an exception of the deflate context is a value. The string that
-- std::move leaves is empty, as the standard libraries leave it. Session/Batch is ensureBytes and
-- the loop, over the list of what each read of the socket brings; its fuel is more than the bytes
-- and reads that are still to come, which is proved to be enough. The deflate context, over zlib,
-- is the parameter decompress, and which writes succeed is the parameter write_ok. Session/Consume
-- has the buffer under a frame, Branches and Fragments follow one frame, Turn and Ends a turn of
-- the loop.
--
-- Http1/ChunkedBody.antt is src/core/ChunkedBody.cpp: write, end, the serialisers, which append to
-- a string, and chunkedBodyWireSize on size_t. A size in base 16 is written with fuel for the
-- sixteen digits that a size_t has.
--
-- Routing models src/core/Router.cpp with src/core/PerfectHashRouter.h. Method has HttpMethod and
-- the masks of methods, Path the path functions (match_param_path is matchParamPath, its limit of
-- 32 segments is the count of the recursion), Decode is urlDecode. Table has the state of Router
-- and route with its index of first segments; a map from methods or from texts is a function, the
-- map of static routes a list. Allow is the 405 detection of resolveRoute, Resolve the rest of it,
-- Dispatch is dispatch and dispatchSync, Stream the WebSocket and SSE routes, PerfectHash is
-- RuntimePerfectHashLookup. Handlers are functions from the request to a response of any type; a
-- coroutine is taken to run to its end. The responses that the router makes itself are named for
-- the functions that make them. The search for a seed has as many steps as there are odd
-- candidates, and log2Floor one for each bit.
--
-- Db/StmtCache.antt is src/db/StmtCache.cpp, over any type of statements: the list of entries, the
-- most recent first; the hash map from a text to its entry is a search of that list.
--
-- All other loops are structural recursions. Base holds shared names, lists, texts as lists of
-- bytes and words; Examples runs the model on concrete inputs.
--
-- Not modelled: the codec, the output side and the sessions of HTTP/2, the middleware, the sending
-- side and the handshake of WebSocket, HTTP/1 framing, the database pool and the client pool.
-- Sockets, TLS, files, logging, allocators and compile-time reflection are outside the model.
pub mod Base
pub mod Http1
pub mod Http2
pub mod Ws
pub mod Routing
pub mod Db
mod Examples
