-- ===== src/Lib.antt =====
-- A verification library for drift-core, the Rust core of an HTTP client that tunnels its TCP and UDP
-- streams through a wisp server, and for the crates around it: the client API, the command line and the
-- bindings for browsers.
--
-- The program. A `WispTransport` (a WebSocket or a message port) carries frames. `Mux`
-- (drift-core/src/wisp/mux.rs) multiplexes streams over it with a handshake, per-stream credit and a
-- dispatcher of inbound frames, whose wire format is in wisp/frame.rs and wisp/types.rs. A
-- `WispStream` (wisp/stream.rs) is a stream's handle, and `WispStreamIo` (wisp/stream_io.rs) makes it
-- a byte stream. On a byte stream the proxies of drift-core/src/proxy negotiate a tunnel to the next
-- hop; idle streams wait in the pool of drift-core/src/pool.rs.
--
-- The files.
--   Prelude, Bytes, Assoc   Rust's results, words, UTF-8 and maps, on the native numbers.
--   Transport               the transport's error; a transport is its answers, which are arguments.
--   Wisp/Types              the codes of wisp/types.rs: `from_u8` and `as_u8` of each enum.
--   Wisp/Frame              the encoders and decoders of wisp/frame.rs, by their names.
--   Wisp/Mux                `Mux`: `run_handshake` (Handshake), `open`, here `open_stream` (Open),
--                           `send_data`, `close_stream` and `dispatch_inbound` (Traffic). The state
--                           is `MuxInner`; an operation returns its result, the new state and the
--                           calls it makes: frames handed to the transport, payloads put into a
--                           channel, `notify_waiters`. History is any sequence of them; Wakeup is a
--                           waiting `send_data` among other tasks, as a step relation over a notifier
--                           with the documented behaviour of tokio's `Notify`.
--   Wisp/Stream             `WispStream`.
--   Wisp/StreamIo           `WispStreamIo`: Write and Read; what an inner future's poll answers is an
--                           argument.
--   Proxy                   proxy/socks5.rs, proxy/socks4.rs, proxy/http_connect.rs and `apply_chain` of
--                           proxy/mod.rs (Chain) over `Link`, a byte stream that is what the peer
--                           sends, what has been written and how many writes succeed.
--   Handle                  handle.rs: `parse_url`, `resolve_url`, and the redirect loop of `perform`
--                           (Perform), for any answers to its requests.
--   Handle/Streams          `perform` as it opens, wraps and pools its streams, for any answers of the mux, the
--                           network, the proxies and TLS; Perform is its abstract view.
--   Handle/Options          the groups of options of options.rs and their defaults.
--   Handle/Settings         `WispHandle`, its setters and `set_option`; the values of a `match` that set an
--                           option are `put_option`.
--   Handle/Compression      compression.rs, for any decoders.
--   Handle/Fetch            `perform_http1`: the header fields of a request, and the answer; Wanted is what a
--                           request and an answer should be, as relations.
--   Client                  drift/src: a call of a setter of `ClientBuilder` is a `Setter`, and `prepare` is
--                           `RequestBuilder::send` up to `perform`.
--   Tls                     tls.rs: `build_client_config`, `split_pem_certs` (Pem) and `base64_decode` (Base64, with
--                           the encoding of RFC 4648 as the reference).
--   Cli                     drift-cli/src/main.rs: the flags (Cli), the proxies (Proxies), the setters called
--                           (Setters) and `run` up to the sending (Run), for any mux of a wisp server and
--                           any contents of files; Output is what output.rs writes; Wanted and Leads are what the
--                           flags ask for, as relations.
--   Wasm/Url                `parse_ws_url` of drift-wasm/src/websocket.rs.
--   Wasm/Connection         `ConnectionState` of drift-wasm/src/libcurl.rs, whose calls and the ends of their
--                           connections are events in any order.
--   Http1                   http1.rs, over any arrival of the bytes: the head and bodies of known length
--                           or up to the end of the stream (Http1 itself), `read_chunked_body`
--                           (Chunked), `read_body` (Body), `encode_request` (Request), and
--                           `parse_response_head` and `send_request` (Exchange). The header map of the
--                           http crate is the record Headers.HeaderMap of its operations, for any of
--                           which the theorems hold; the parser of httparse is an argument.
--   Pool                    pool.rs: the idle connections by host and port, each call one step.
--
-- Bounds. A u8, u16 or u32 is a number with its bound as a hypothesis or an invariant, and its
-- wrap-around or checked addition written out. `read_chunked_body` has as much fuel as there are bytes,
-- and what skips the trailers one more than there are bytes and reads; that this is enough is part of
-- the theorem that a chunked body is received. The other loops are structural, and that of `send_data`
-- is one round of it, which a step relation repeats.
--
-- Not modelled: the transports, the TLS handshake and HTTP/2, which are calls of other libraries; the
-- parsing of the command line, which is clap; of drift-wasm what Wasm does not name.
pub mod Prelude
pub mod Bytes
pub mod Wisp
pub mod Assoc
pub mod Transport
pub mod Proxy
pub mod Pool
pub mod Http1
pub mod Client
pub mod Cli
pub mod Wasm
pub mod Tls
pub mod Handle
