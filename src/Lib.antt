-- ===== src/Lib.antt =====
-- A model of the engine of hypomux, a proxy that spreads connections over the network adapters of a
-- machine, and of what its core promises.
--
-- The program has an engine (engine/, Go), which runs the proxy, and a desktop application
-- (desktop/), which drives it. In the engine a connection to a domain asks the scheduler for an
-- adapter; the scheduler asks the health table for candidates; and the outcome of the attempt comes
-- back to the table, as a failure of the adapter, a failure of the domain on that adapter alone, or
-- a success. Domains are resolved by DNS messages that the engine parses itself. The lifecycle of
-- the engine is a state machine that every client reads.
--
-- Proxy.Adapter: `Adapter` of engine/internal/proxy/config.go.
-- Proxy.Health: engine/internal/proxy/health.go, the table and its methods: `newHealthTable`,
--   `newHealthTableConfigured`, `recordLocalFailure`, `recordSuccess`,
--   `recordComparativeDomainFailure`, `domainQuarantined`, `pruneExpiredDomains`, `normalizeDomain`.
--   A method takes the table and the clock's reading and returns the table that it leaves.
-- Proxy.Candidates: `candidates` and `earliestCooldown` of the same file.
-- Proxy.Scheduler: engine/internal/proxy/scheduler.go, every method. The table, which schedulers
--   may share, stands beside the scheduler's state.
-- Proxy.Registry: engine/internal/proxy/registry.go, `newRegistry`, `beginAddress`, `Attach`,
--   `AttachDirect`, `AddUp`, `AddDown` and `Finish`.
-- Proxy.Config: engine/internal/proxy/config.go: `normalizeConfig` with its loop over the adapters
--   (Adapters) and `normalizeChannels` (Channels), and `adaptersForChannel`.
-- Proxy.Dial: engine/internal/proxy/dial.go, `dialUpstream`, and `isLocalConnectFailure` of
--   health.go. The resolver and the dialling are functions of the adapter.
-- Proxy.Server: engine/internal/proxy/server.go: `New`, `Start`, `startChannelListeners`, `Stop` and
--   `connect`, which put the configuration, the schedulers, the dialling and the registry together.
--   The outcomes of net.Listen are a function of the call's number.
-- Proxy.Udp: engine/internal/proxy/udp.go, `parseSOCKSUDPPacket` and `packSOCKSUDPReply`; the
--   functions of net and strconv on texts are an argument, with what they do on addresses and ports.
-- Runtime: engine/internal/runtime/runtime.go, `New`, `Transition` and `canTransition`. `State` has
--   the six constants that the code declares, not the other texts of Go's string type, which the
--   default case of `canTransition` refuses.
-- Dns.Wire: engine/internal/dns/wire.go, `parseResponse`, `skipName` and `isFakeIPv4`. An index out
--   of the packet is the outcome `panic`; an answer's address is the text of `ip.String()`.
-- Dns.Query: the same file's `normalizeRecordType`, `normalizeDomain` and `buildQuery`; the IDNA
--   package's `ToASCII` and the random bytes of the ID are arguments. Dns.Query.Reader has a reader
--   of queries after RFC 1035, and Dns.Query.Answers a server's records of any type and class.
-- Dns.Config: engine/internal/dns/config.go, `NormalizeConfig`, `NormalizeBinding`, `Endpoints` and
--   `LegacyServers`.
-- Dns.Cache: engine/internal/dns/resolver.go, the look-up of `Resolve`, the entry that `runLookup`
--   adds, `removeExpiredLocked` and `makeCacheRoomLocked`. Dns.Fallback: the same file's
--   `resolveUncached`, over what HTTPS and the legacy servers come to, `recordDoHSuccess`,
--   `recordStrictFailure`, `bindingKey` and `limitText`.
-- Tun.Supervisor: engine/internal/tun/supervisor.go: the code under the supervisor's mutex, one
--   function for each stretch; Tun.Supervisor.Protocol has the calls `Activate` and `Stop` and the
--   goroutine `waitProcess` of every process as a step relation.
-- Golang: the strings, times, IP addresses and error results of Go that these use. Prelude: what
--   all modules share.
-- Examples: runs on concrete inputs.
--
-- Bounds. The counters of uint64 wrap at 2 ^ 64. The scheduler's weights, the ports and other values
-- of the configuration, and the counts of failures in a row are Go's int and are unbounded here: the
-- weights do not reach 2 ^ 63 unless the sum of the configured ones nears it, nor the counts unless
-- failures come that often without a success. The loop over the labels of a DNS name makes at most
-- 129 rounds, as in the code, and running out of them is the code's own error. The parser of an IPv6
-- address makes at most eight rounds of two bytes, which fill the address. A dialling makes at most
-- two rounds, as in the code. The eviction from the DNS cache has as many rounds as there are
-- entries, each of which removes one, and a number has at most one decimal digit more than its value.
-- Every other loop runs over a list or over a count that the packet states.
--
-- A method of the scheduler, the health table, the registry, the cache or the lifecycle holds its
-- mutex while it uses the state, so a call of it is one step. `dialUpstream` and `connect` hold
-- none between their steps, nor does `resolveUncached`: here one dialling, connection or query
-- runs from its start to its end, and those of other goroutines between its steps are left out. Go
-- ranges over a map in no fixed order. The loops that delete expired entries leave the same in any
-- order; the search for the entry to evict takes the first of those that expire together, in the
-- order of the list that stands for the map. Times are nanoseconds since the zero time.
-- `strings.ToLower` and `strings.TrimSpace` are exact on ASCII text.
--
-- Not modelled: `snapshot` of health.go; the resolver's queries in flight, its exchanges and its
-- counters; `CloseAll` and `Snapshot` of registry.go; the reports of server.go and its accepting
-- and relaying of connections; the SOCKS5 and HTTP front ends and the flows of udp.go; the TUN
-- supervisor's files and processes; the API server; and the desktop application. What they do
-- beyond calls of the system and of the network is left for later; the rest is I/O.
pub mod Dns
pub mod Examples
pub mod Golang
pub mod Prelude
pub mod Proxy
pub mod Runtime
pub mod Tun
