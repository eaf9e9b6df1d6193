-- ===== src/Lib.antt =====
-- A model of NullPrivate (an AdGuard Home fork), a DNS server with filtering, DHCP and a web
-- interface, and proofs about it. The parts that are modelled keep state or transform data without
-- I/O:
--
-- - Migrate: internal/configmigrate. `Migrate` (Migrate/Upgrade) decodes the configuration file and
--   runs the migrations from the file's schema version to the target, in the order of the array
--   `upgrades`. Migrate/Early, Middle and Late hold `migrateTo1` to `migrateTo29` (Migrate/Quic a
--   helper of `migrateTo10`), Migrate/Yaml the decoded values and yaml.go's `fieldVal`, `moveVal`
--   and `moveSameVal`. A Go function that changes the map it is given returns the changed map here;
--   a map inside a map, shared by reference in Go, is stored back. A write to a nil map is the
--   outcome `panic`. Migrate/Frame lists the top-level keys that each migration may change.
-- - Dhcp: internal/dhcpsvc. Dhcp/Index is leaseindex.go, which keeps every lease by address and by
--   lowered host name; Dhcp/Lease is interface.go, where an interface keeps its leases by hardware
--   address; Dhcp/Server is the part of server.go that finds the interface of an address and runs
--   the index's operation on it. In Go the maps share pointers to leases that are never changed in
--   place, so that the model keeps the leases themselves.
-- - Dhcpd: internal/dhcpd, the DHCP server that is in use. Dhcpd/BitSet is bitset.go, whose words
--   are natural numbers with the operations on a single bit; Dhcpd/IpRange is iprange.go, where an
--   address is the integer of its 16-byte form; Dhcpd/Pool is the part of v4_unix.go that chooses
--   the next free address (`nextIP`), and adds and removes a lease (`addLease`, `rmLease`,
--   `rmLeaseByIndex`).
-- - Auth: internal/home/authratelimiter.go (Auth/RateLimiter), and
--   internal/aghuser/sessionstorage.go (Auth/Sessions): the sessions in memory, their entries in
--   the database, and the binary form of an entry.
-- - Aghalg: internal/aghalg/sortedmap.go, a map with its keys in order.
-- - Client: internal/client. Client/Persistent is persistent.go (a configured client, its validation
--   and the order of subnets), Client/Index is index.go with the map of each kind of identifier, and
--   Client/Storage the calls of storage.go on it: add, update, remove and find. Client/Runtime is
--   client.go, runtimeindex.go and the part of storage.go that reads ARP, hosts files, DHCP, rDNS and
--   WHOIS. A pointer to a client is the client; a map that names a UID without client, and so a nil
--   client, is kept apart from a missing entry.
-- - Filtering: internal/filtering. Filtering/Rewrites is rewrites.go and `processRewrites`, whose loop
--   over CNAMEs runs on fuel: one more than the entries is enough, since each round meets an answer
--   that it has not met before. Filtering/Rewrites/Edits is rewritehttp.go, Filtering/Check the
--   function `CheckHost`, which tries the rewrites before the checkers. Filtering/Rulelist is
--   rulelist/parser.go, which takes the rules out of the lines of a list; the position in an error is
--   the index in the trimmed line, and writing a rule does not fail.
-- - Dnsforward: internal/dnsforward. Dnsforward/Access is access.go, with `IsBlockedClient` of
--   dnsforward.go and `HandleBefore` of beforerequest.go: what is refused before it is answered. It
--   parses the lists with the parsers that Client/Persistent names.
-- - Querylog: internal/querylog. Querylog/File is qlogfile.go: what the operating system answers, the
--   size of a file and the bytes at a position, is a parameter, a buffer is its byte at each index, and
--   the size of an entry (`maxEntrySize`) is a parameter, so that short files show how the buffer moves;
--   the binary search has its 100 rounds from the code. Querylog/Json reads values out of a line,
--   Querylog/Reader is qlogreader.go, where the files up to the current one and those after it stand for
--   its index. Querylog/Criterion is searchcriterion.go and searchparams.go with the cache of clients,
--   Querylog/Params the parameters of a request (http.go), and Querylog/Search is search.go: the loop of
--   `readEntries` runs on fuel, and one more than the bytes that are left is enough, since every read
--   but the last leaves less. The decoder of a line (decode.go) is a parameter. Querylog/Store is
--   qlog.go and querylogfile.go: the buffer, a ring of the library with its laws as hypotheses, the
--   flush and the rotation; Querylog/Config the configuration and the requests that change it.
-- - Schedule: internal/schedule/schedule.go, the ranges of a week and their validation. Schedule/Codec
--   is the configuration in YAML and JSON, with the fields of the weekdays, and `JSONDuration` of
--   internal/aghhttp/json.go; the codecs of the structures and float64 arithmetic are parameters.
-- - Stats: internal/stats. Stats/Unit is the unit of an hour in unit.go, and `Update` of stats.go,
--   which adds a request to it; its counters are 64 bits wide. Stats/Series adds the units of a time
--   span up, by the hour or by the day.
--
-- The module Prelude passes on the library's names and holds the tests and lemmas on numbers, lists
-- and maps that the parts share. A Go map is an association list (Prelude/Map), whose first entry
-- of a key is the one that is read. Every loop but the one over CNAMEs, the binary search and
-- `readEntries` is structural recursion over the list it ranges over, and needs no fuel. Times and
-- durations are counts of nanoseconds, without the wrap-around of Go's int64 in their sums; products
-- of durations in the migrations wrap at 64 bits. A mutex makes each call of a component one step.
--
-- Not modelled: I/O, logging and the texts of errors; the code of other modules (parsers of YAML,
-- URLs and addresses, `netip`, sorting, bcrypt, bbolt, time zones), which are parameters; the rest of
-- the DNS pipeline, the engine for filter rules and its lists, the upstreams of a client, the rest of the
-- statistics, the answers of the query log, and the HTTP handlers but those of the rewrites and of the
-- query log's configuration.
pub mod Aghalg
pub mod Auth
pub mod Client
pub mod Dhcp
pub mod Dhcpd
pub mod Dnsforward
pub mod Filtering
pub mod Migrate
pub mod Prelude
pub mod Querylog
pub mod Schedule
pub mod Stats
