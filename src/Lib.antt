-- ===== src/Lib.antt =====
-- A model of agentry, a platform that runs sandboxes and deployed apps behind a bridge. The program
-- has four kinds of process. The bridge (cmd/bridge, pkg/bridge) accepts tunnels from devices and
-- from clusters, and routes calls of the control plane, of devices and of browsers to the cluster
-- that they name. The provisioner (cmd/provisioner, pkg/provisioner) runs on a cluster and makes
-- sandboxes and deployments. The runtime (cmd/runtime, pkg/handlers, pkg/shell, pkg/jupyter) serves
-- one sandbox. The sidecar authproxy (cmd/authproxy) stands before an app and signs its users in.
-- Modelled are the bridge, the backoff of the tunnels, the sandboxes of the provisioner from their
-- creation to their end, the bounded logs, background commands and projects of the runtime, and the
-- accounts, sessions, throttles and gate of the sidecar.
--
-- Base: Boolean tests, lists, stable sorting, counting, results with their errors, strings as lists of
--   bytes, splitting, slash-separated paths with their canonical form, decimal numerals, maps with
--   string keys, and in Base/Int the int64 of Go with its wrap-around.
-- Shell: pkg/shell. Shell/Ring is ring.go, its Write, Read and Snapshot; the counters of the ring are
--   int64 and wrap, and the theorems hold for logs below 2 ^ 63 bytes. Shell/Background is
--   background.go: the commands are cells of a heap, because the map of the manager and the goroutine
--   that waits for a process hold the same one; Start, waitFor, Interrupt, Forget, gcOnce and Shutdown
--   are functions on the state, and BgStep is the relation of their interleavings. A call that blocks
--   on the semaphore is none.
-- Tunnel: pkg/tunnel. Tunnel/Backoff is backoff.go; durations are nanoseconds, and the scaling of the
--   base as a float64, which rounds above 2 ^ 53 and whose conversion Go leaves to the machine out of
--   range, is an argument.
-- Bridge: pkg/bridge. Identity reads the certificate; State is the state of Broker; Handshake is
--   handleTunnel with its two roles; Sessions are the tables of sessions, where a serve loop is the
--   step before it blocks and the step of its deferred function; Proxy and Endpoints are the calls
--   that go out to a cluster; Revocation is revocation.go; Routes, Deploy and Cookies are
--   deploy_routes.go. Tenancy is the step relation of the bridge and its invariant, Isolation what
--   follows for the calls. The reverse proxy, the tunnel library and JSON are arguments.
-- Provisioner: pkg/provisioner. Backend is the interface of provisioner.go to what runs sandboxes, and
--   Mock the one in memory of mock_backend.go; Sandboxes is handleCreate over any backend, and Names
--   its choice of a free name; Lifecycle are the handlers that read, renew, list and delete; Snapshots
--   are handleSnapshot and handleRestore. Resources, Volumes and Egress are resources.go, volumes.go
--   and egress.go, the checks of a request and what is made from it. Expiry is ttl.go, where an instant
--   is a count of nanoseconds from Go's zero time; Reaper is reaper.go, its goroutines a step relation
--   with the trace of their calls. Gc is gc.go, with Docker an argument. Quiesce is deploy_quiesce.go
--   and Lockfile is lockfile.go, both over the runtime's HTTP interface. A call of the outside takes
--   the world and gives the world after it; Provisioner/Tests has worlds that obey the hypotheses.
--   handleCreate takes Resources, Volumes and Egress for its checks, Names for its collision policy and
--   Expiry for its annotations, which Lifecycle rewrites and Reaper reads.
-- Runtime: pkg/handlers. Projects is the manager of project.go, its breaker and its restarts, and
--   Projects/Dependencies its starts with their locks, by fuel, for which the depth of the dependencies
--   suffices; Sidecar is project_authproxy.go with the parser of cmd/authproxy/exec.go; Guard is the
--   guard of common.go.
-- AuthProxy: cmd/authproxy. Lockout is lockout.go; RateLimit is ratelimit.go, with the whole log of
--   attempts as its specification in RateLimit/Window; Session, Csrf and SameOrigin are session.go,
--   csrf.go and same_origin.go; Password is password.go; Store is store.go and store_security.go, each
--   SQL statement an operation on two tables, with every failure of a statement an argument; Handlers
--   are handlers.go and handlers_reset.go. The record Packages holds HMAC, SHA-256, base64, JSON,
--   bcrypt and net/url, and Signed.Works is what their documentation says of them; AuthProxy/Tests
--   has stand-ins that obey it. The clock, random bytes and outcomes of the database are in World.
--   Proxy is proxy.go, the gate before the app, with the headers as a map; of the reverse proxy of Go's
--   library behind it, the removal of the hop-by-hop headers is written out.
--   postLogin first asks RateLimit, then SameOrigin, then Csrf, then the Store and Lockout, and ends
--   in Session.
--
-- Locks are left out, but for those of Projects/Dependencies: a function that holds a mutex throughout
-- is one step. Start and waitFor of Shell/Background hold none throughout: the slot is taken before the
-- process is spawned, and given back after its end is recorded. Each is taken as one step still, and
-- the invariant is of the states at the boundaries of whole calls. Strings are bytes, and what the program does to letters and white space is that of
-- ASCII. Loops are structural; the
-- numeral printer has one more than the number as fuel, which suffices since each round divides by
-- ten. The lockout loop runs for as many rounds as there are failures over the threshold. The wait for
-- a port looks twenty times, a fresh name is tried eight times and the stamp of a sandbox five times,
-- as in the source; a snapshot is cut with its length as fuel, since each piece takes a byte or more.
--
-- Not modelled: the rest of the tunnel library, terminals and shells, the builds and deployments of the
-- provisioner with its clients of Docker, Kubernetes and HTTP services, the bindings and secrets of a
-- sandbox, the scaffolds of projects, the other handlers of the runtime, Jupyter, the
-- MCP server and the command line, which are mostly calls of the operating system and of services; in
-- the sidecar the OAuth flow, the MongoDB store, templates and configuration.
pub mod Base
pub mod AuthProxy
pub mod Bridge
pub mod Provisioner
pub mod Runtime
pub mod Shell
pub mod Tunnel
