-- ===== src/Lib.antt =====
-- kroxy, a proxy that lets many tenants share one Kafka cluster by prefixing their names.
--
-- A client connects, authenticates by SASL as a tenant, and from then on its requests go to the
-- tenant's upstream cluster. Requests of 23 APIs are decoded, topic, group and transaction names in
-- them get the tenant's prefix, and the names in the response lose it again; requests of other APIs
-- are passed on with only their correlation id replaced.
--
-- Base: shared types and lemmas: bytes and the functions of package strings, results, integers with
--   their wrap-around, lists over native numbers.
-- Rewrite (rewrite/*.go): Names holds PrefixIn, StripOut and BelongsToTenant; Compact the filtering
--   loops that reuse a slice, with a proof that they filter; ProduceFetch, Metadata, TopicsAdmin,
--   Groups, Members and Transactions one function per Go function; Kmsg the message structs, as far
--   as they are read or written, with all other fields in one opaque field. Message joins the two
--   calls that each rewrite handler makes; its children state what happens to the names:
--   request_names are the names that the code prefixes, left_names those that it leaves as they are,
--   such as a Produce's transactional id, and member_names the topics in member blobs.
-- Protocol (protocol/*.go): Framing reads and writes frames on a stream with its ending; Header
--   parses request headers with 64-bit integers that wrap around, and with the panic of a slice out
--   of range as a result; Keys and Response are the tables and the response header.
-- Auth (auth/*.go): the PLAIN payload and the SCRAM client-first message.
-- Resolver (resolver/*.go): the in-memory catalogue of tenants. The lock around each operation makes
--   it one step. The map is an association list; Abstract has the interface's view of it, a function
--   from ids to tenants, and runs of operations; Lifetime follows a resolver from the configuration.
-- Proxy (proxy/conn.go, proxy/rewrite*.go): the connection. A step takes the state, the resolver at
--   that time and the answers of the network, and gives the new state, the events on the network
--   and what is counted on the metrics, in their order, and the error that ends the connection, if
--   there is one. Counts holds the labels of what is counted, Handlers has one function per rewrite
--   handler, Sasl the handshake and authentication, Dispatch the dispatch and one round of serve,
--   Run the sequences of rounds.
--   Serve is the loop of serve over the bytes that a client sends, Loop its induction, Tally sums
--   over its steps, which Counted and Dials use; Labels and Early are about what is counted before
--   and after a login; Provenance and Revoked are about where its tenant comes from; Advertised is
--   the table of handleApiVersions, and Passthrough about the APIs that are not in it; Credentials
--   joins the PLAIN login with the dial of Upstream, and Relay a SCRAM round with the relay of
--   Upstream. Debug holds the summaries of proxy/debug.go.
--   Listener is the accept loop of proxy/listener.go with its backoff, as a function. Server is Run
--   with its handlers, metrics and WaitGroup as a step relation, in which the goroutines interleave;
--   a handler's call of serve is one step of it. Server/Ledger sums over runs; the other children
--   are about the shutdown, the gauges, the accept loop within a run, and what is done for all the
--   clients together. A call of serve that panics takes no step: the panic of frame[hdr.HeaderSize:]
--   in proxy/conn.go is recovered by nobody and ends the process, and so the run; as the error
--   `panicked` of a step it stands apart from the errors that end one connection.
-- Upstream (upstream/conn.go): RoundTrip exchanges a frame under a correlation id of the proxy's
--   own; the network's answer is an argument. Link and Dial hold the other functions, from Dial,
--   DialForSCRAM and DialSCRAM down to directRoundTrip, as calls that pass on the connection's
--   state; the network is a script of outcomes there. The connection's model in Proxy uses a dial
--   and an exchange by their outcome.
-- Admin (admin/*.go): Service holds the handlers over the resolver, Client the client's operations,
--   Exchange what HTTP and JSON-RPC do between the two.
-- Config (config/config.go): Settings holds the structs, Load the function with its defaults and
--   validation; Startup goes on to what run of cmd/kroxy/main.go hands to the proxy's server.
-- Observability (observability/logging.go): Logging holds the level and the format of NewLogger.
-- Command (cmd/kroxy/main.go): Run is run, by what its select meets first, with Wait of
--   proxy/listener.go; Http the course of the HTTP servers of admin/server.go, Serve, and
--   observability/metrics.go, ServeMetrics.
-- Examples: runs on concrete inputs.
--
-- Parameters: kmsg's decoders and its encoding of consumer member blobs, which reads back a struct
-- that it has read from a blob, with other names too as long as they fit 16 bits of length; net.SplitHostPort and strconv.Atoi; franz-go's SCRAM client; os, yaml, json, net/http and
-- go-rpc for config and admin; prometheus' counter and gauge; the answers of the network.
--
-- Fuel: the loop of serve takes five bytes at least from the client in each round, so fuel for a
-- fifth of the bytes and one more is enough; the SCRAM loop uses up a frame of the script in each
-- round, so the frames left and one more are enough for a script, which is finite: an exchange with a
-- broker that goes on for ever has none, and the code's loop has no bound of its own; a number has less digits than its value and one;
-- and TrimSpace takes away a byte at least in each round. The other loops are recursions over their
-- input, or over the number of tagged fields.
--
-- Not modelled: what is logged, but for those summaries, and the durations of requests, which no
-- branch depends on; that metrics may be nil, in which case a connection counts nothing (the counts
-- stand for what is counted if they are not; Server has both cases); whether the cancellation that a
-- round of serve meets is the server's, since all courses are covered; the set-up of prometheus; sockets and TLS. Time does not pass: a deadline is the
-- timeout that it was set with, and its expiry a read or write that fails.
pub mod Base
pub mod Rewrite
pub mod Protocol
pub mod Auth
pub mod Resolver
pub mod Upstream
pub mod Admin
pub mod Config
pub mod Observability
pub mod Command
pub mod Proxy
pub mod Examples
