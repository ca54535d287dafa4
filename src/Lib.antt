-- ===== src/Lib.antt =====
-- Verification of BW-Fetcher, a command-line HTTP/2 fetcher with browser fingerprints.
--
-- The program parses a URL (URL_to_DNS/URL_Parser.cc), connects, if asked through a SOCKS5 proxy
-- (PROXY/proxy_socket5_handshake.cpp), speaks HTTP/2 over TLS (HTTP2_Client/http2_client.cpp), and
-- drives requests, redirects, cookies and subresources (fetcher.cpp). While a page arrives it is
-- scanned for scripts (challenge_scripts.cpp), which are requested on the same connection; afterwards
-- what was not fetched is catalogued (html_catalog.cpp). The command line (main.cpp) stores the
-- captures and reports on the run.
--
-- The files and what they model. Names are the source's, in lower case with underscores.
-- - Base: shared helpers: bytes, lists, decimal numbers, maps in the order of their keys, results.
-- - Url: `parse_url`; Url/Print has the texts that Url/RoundTrip parses back.
-- - Types: the records of fetcher.h.
-- - Socket, Socks: `recv_exact`, `send_all` and `proxy_handshake`. The socket is a state with the
--   segments that arrive and the bytes each `send` takes; an action returns `none` where the code
--   returns false. The two loops run on fuel, the number of bytes: each round moves at least one.
-- - Http2: the client's request and the callbacks of nghttp2, as functions on the client's fields.
--   The session of nghttp2 and the decompressors are parameters. The client keeps, beside its fields, a log
--   of the requests that it submitted. Http2/Loop is `run_event_loop`, over
--   a list of rounds with what each of them meets: the clock, and the results of nghttp2.
-- - Scripts, Catalog: the scans of a page. `std::regex` is a parameter, from a pattern and a text to
--   the matches in order; the patterns are the source's. The scanner's state is Scripts/Scanner.
-- - Runtime: `RuntimeSubresourceState`, a record with the source's fields, and one function for each
--   of its operations. A sequence of reports of the connection is a list of events, in Runtime/Run.
-- - Headers, Cookies: the request headers, the classification of responses, the cookie jar.
-- - Json, Store, Report: the JSON texts, the names on disk and the files of a run, from main.cpp.
--   `unique_request_dir` has the 998 rounds of its loop.
-- - Fetch: the connection of a fetch, its teardown, reuse and setup. `Net` has the source's connection
--   state, how many connection attempts and requests there were, and a trace of what was opened and
--   closed; a client that is closed leaves its log of requests in the trace. What lies outside, the network, BoringSSL, nghttp2 and the clock, is the record
--   `Outside`: a function for each, where an attempt and a request are given by their number.
--   Fetch/Exchange is the event loop with its callbacks, Fetch/One is `fetch_one`, Fetch/Page the
--   page of `fetch_with_runtime_subresources`, Fetch/Batch the extra URLs and `fetch_multi`.
--   Fetch/Lifecycle has the phases of a connection as the specification of the trace. Each function of
--   `Outside` answers at once: a call of DNS, of the proxy or of TLS that never returns has no place here. A loop over
--   redirects is a recursion on `max_redirects`; a run has no result only where the code follows a
--   null pointer or the event loop never returns.
-- - Cli: the command line: `parse_int_arg`, the loop over the arguments, and the checks behind it.
-- - Profiles: the browser profiles, their registry, and the ALPN and SETTINGS wire formats.
-- - Tls: the calls of BoringSSL and what is freed, and the certificate callback.
-- - Dns: `dns_lookup_host`, `try_connect`, and the polling loop of `happy_eyeballs_connect`, on fuel, a
--   number of passes: the polls that the slowest attempt takes, and one, are enough.
-- - Decompress: the loops around zlib and brotli, on fuel, a number of calls: the steps that the
--   decoder has left to do, and one, are enough. The decoders are parameters.
-- - Tests: runs on concrete inputs, and instances of the theorems.
--
-- A byte is a natural number, and a text a list of them. `int` counters that never become negative
-- are natural numbers without a bound; the others are integers. `std::map` is a list in the order of
-- its keys; of `std::unordered_set` only membership is used, so it is a list as well.
--
-- Not modelled: the files that main writes and the run report as a whole, of which Report and Store
-- have the texts and names; `print_usage`, which only prints; the socket macros of platform_win.h; a
-- session of nghttp2 that could not be made. Fetch takes the outcome of DNS, of the race and of the
-- TLS handshake as the answer of one attempt, which Dns and Tls model by themselves. Messages to
-- stderr are left out everywhere, as are the Python package and the benchmarks, which only run the
-- program.
pub mod Base
pub mod Url
pub mod Cli
pub mod Fetch
pub mod Dns
pub mod Tls
pub mod Decompress
pub mod Profiles
pub mod Report
pub mod Tests
pub mod Http2
pub mod Runtime
pub mod Types
pub mod Json
pub mod Headers
pub mod Cookies
pub mod Scripts
pub mod Socket
pub mod Socks
pub mod Catalog
pub mod Store
