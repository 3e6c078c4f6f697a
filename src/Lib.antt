-- ===== src/Lib.antt =====
-- A model of modelrelay: a relay server that passes OpenAI-style requests on to agents, which are
-- connected to it by WebSockets and serve them from a local model. Paths below are from the
-- repository's root.
--
-- The parts and their files:
-- * Protocol models internal/protocol, which both sides use: Protocol/Frame is the binary frame and
--   its codec (frame.go), Protocol/RequestId the 16-byte key of a request (RequestIDBytes),
--   Protocol/Codes the error codes with their HTTP status (errors.go), and Protocol/Path the
--   whitelist (path.go).
-- * Relay models internal/relay: Relay/Node and Relay/Registry are registry.go, Relay/Heartbeat the
--   heartbeat monitor of wss.go, Relay/Scheduler the choice of a node (scheduler.go),
--   Relay/Handshake the checks of handleConnect (wss.go), Relay/Connection the life of a connection
--   (handleConnect from the registration on, teardown, DrainNode, KickNode, and connRegistry of
--   server.go), Relay/Pending the pending requests (server.go) and the read loop that serves them
--   (wss.go), Relay/Chunks the cutting of a request body, Relay/Forward the answer's way to the
--   client, Relay/Proxy handleProxy as a whole and Relay/Admission its acquire when many requests run
--   it at once (all proxy.go), Relay/Requests the ring of recent requests (requests.go),
--   Relay/Persistence the background writer of summaries (requests.go) and the retention loop
--   (server.go), Relay/Directory the model directory (registry.go) and Relay/Upstream the HTTP service
--   (http.go).
-- * Agent models internal/agent: Agent/Connector is the connection to a relay (connector.go),
--   Agent/Body the assembly of a request body, Agent/Requests the admission and cancellation of
--   requests and the wait for a drain, Agent/Response the rest of serveRequest (all agent.go),
--   Agent/LocalClient the request to the local model (localclient.go) and Agent/Probe the probe of its
--   models (probe.go).
-- * Transfer and Transfer/Request put Relay/Chunks, Protocol/Frame, Agent/Requests and Agent/Body
--   together, Transfer/Response puts Agent/Response, Protocol/Frame and Relay/Forward together.
-- * Store models internal/store: Store/Certs the certificates (certs.go), Store/Logs the audit log and
--   the request summaries with their pruning (audit.go, nowStr of store.go), Store/Users the accounts
--   (certs.go) and the loop of cmd/relay/main.go that makes them.
-- * Admin models internal/relay/admin.go: sessions and logins in Admin and Admin/Login, where a
--   request comes from in Admin/Origin, the /api/* switch and its handlers in Admin/Api. It
--   works on the states of Relay/Connection and Store.
-- * Config/Relay and Config/Agent model internal/config/relay.go and agent.go.
-- * Certs models the requests for agents' certificates and their issue (internal/certs/certs.go,
--   InspectCSR of internal/certmgr/issue.go), Certs/Authority the rest of certs.go; Certs/Issued
--   relates them to Relay/Handshake.
-- * Certmgr models internal/certmgr: the client of the admin API (client.go), the files (files.go), the
--   exports (export.go), the workspaces (workspace.go) and the issuing (issue.go, inspect.go).
--   Certmgr/Client/Revoking puts its client and Admin/Api together.
-- * Base holds the shared helpers, Tests the theorems at concrete inputs.
--
-- How the code is modelled:
-- * Numbers are naturals; sequence numbers of frames wrap at 2 ^ 32. Times are milliseconds, those
--   that the store prunes by nanoseconds, and what depends on the clock takes the time as an argument. Bytes are naturals below 256, a map is an
--   association list, a text is a native string, or the list of its bytes where bytes matter.
-- * A method that runs under a lock is one step, and so is a handler of Relay/Connection, although in
--   the code others can come between its locked calls. Objects that are shared by pointer have an address:
--   the nodes stand in the heap of the registry, the agent's requests in a map of running ones.
-- * Loops run on lists of the events that their `select` takes. The cutting of a body runs on fuel:
--   each round advances, so that the body's length is enough rounds.
-- * What a network, a clock or another goroutine decides is an input: which writes succeed, what
--   arrives, which case a `select` takes. handleProxy runs for one request; what the others do shows
--   in the registries that its waiting loop sees; for acquire alone the steps of many requests
--   interleave.
-- * Parameters stand for code of other libraries: SHA-256, bcrypt, JSON decoding, TrimSpace,
--   PathEscape, SplitHostPort, url.Parse, ParseIP, the signatures of crypto/x509, the OpenAI error
--   body, and the order of float64 with the laws that hold of numbers.
--
-- Not modelled: TLS and the WebSocket library, the JSON of control messages, the expansion of
-- environment references in the settings, the views of the admin service, the keys and the encoding of
-- certificates, the permissions of files as each system has them, the rest of the commands with their
-- user interface, the web interface and logging.
pub mod Base
pub mod Protocol
pub mod Relay
pub mod Agent
pub mod Transfer
pub mod Store
pub mod Admin
pub mod Config
pub mod Certs
pub mod Certmgr
pub mod Tests
