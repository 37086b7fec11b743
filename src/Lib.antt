-- ===== src/Lib.antt =====
-- VoxelLink Monitor: the monitor of Minecraft servers of this repository.
--
-- The scheduler (internal/monitor) observes every enabled server through a probe
-- (internal/minecraft), directly or through a tunnel (internal/transport), and hands each
-- observation to the repository over PostgreSQL (internal/store), which stores it, settles the
-- status that is shown to the public and opens or resolves incidents, in one transaction. Reports
-- of players degrade a status when their count is an anomaly (internal/crowd). Changes are
-- announced on Discord (internal/discord): at once after a check, and through a queue of
-- notifications after a report. Listings and their members are imported from VoxelLink
-- (internal/integration), and old observations are rolled up and deleted by the retention. Players
-- see the status and report trouble on a page, and owners, who sign in by Discord, set up the
-- monitoring of their servers on a console (internal/web). The schema is brought up to date by
-- migrations that are applied in turn (internal/migrate).
--
-- The files and what they model:
--   Domain              internal/domain/types.go
--   Crowd               internal/crowd/crowd.go, Evaluate
--   Incident            internal/incident/machine.go, the machine of one server
--   Store/Tables        the tables of migrations/*.sql, as lists of rows
--   Store/Session       a session with PostgreSQL: transactions, statements, refused calls
--   Store/Connect       internal/store/postgres.go, Connect
--   Store/Checks        internal/store/postgres.go, the table of checks and the queries on it
--   Store/Signal        internal/store/postgres.go, crowdSignal
--   Store/Record        internal/store/postgres.go, RecordCheck and stateAfter
--   Store/History       the writes of internal/store/postgres.go, one after the other
--   Store/Servers       internal/store/postgres.go, the lists of servers, channels and external ids
--   Store/Notices       internal/store/postgres.go, the queue of notifications
--   Store/Reports       internal/store/postgres.go, RecordUserReport
--   Store/Imports       internal/store/postgres.go, UpsertVoxelLinkServer
--   Store/Retention     internal/store/postgres.go, RunRetention
--   Store/Owner         internal/store/postgres.go, the servers of a member and their settings
--   Store/Snapshots     internal/store/postgres.go, the snapshots, RecentIncidents and CrowdSignal
--   Store/Uptime        internal/store/postgres.go, Uptime24h
--   Worker              internal/monitor/worker.go
--   Worker/Setup        internal/monitor/worker.go, NewWorker, NoopNotifier and sleep
--   Worker/World        the worker over the store, with scripts for the network and for the errors
--                       that the interface Notifier returns
--   Minecraft/Codec     internal/minecraft/java.go, varInt and readVarInt
--   Minecraft/Ping      internal/minecraft/java.go, PingJavaEndpoint
--   Integration/Client  internal/integration/voxellink/client.go
--   Integration/Sync    internal/integration/importer.go and sync.go
--   Web/Request         internal/web/app.go, the requests, the responses and the interfaces
--   Web/Session         internal/web/app.go, signSession and user
--   Web/Login           internal/web/app.go, login, callback, consumeState and discordUserID
--   Web/Report          internal/web/app.go, report, reporterHash and clientAddress
--   Web/Console         internal/web/app.go, home, console, updateServer and importServer
--   Web/Router          internal/web/app.go, Handler
--   Web/Backend         cmd/monitor/main.go, the store as the pages are given it
--   Migrate             internal/migrate/migrate.go, Apply
--   Migrate/Version     internal/migrate/migrate.go, versionOf
--   Discord/Messages    internal/discord/discord.go, the texts that are sent
--   Discord/Notifier    internal/discord/discord.go, StateChanged
--   Discord/Bot         internal/discord/discord.go, handleInteraction
--   Discord/Gateway     internal/discord/discord.go, NewNotifier, NewBot, Run, commands and respond
--   Discord/Backend     cmd/monitor/main.go, the store as the bot is given it
--   Command             cmd/monitor/main.go, the roles
--   Transport           internal/transport/tunnel.go
--   Common              lists, Boolean tests, bits and texts that these share
--   Scenarios           runs on concrete data
-- The operations have the names of the functions in the code, in snake case. A child of one of these
-- files holds proofs about it.
--
-- The database is a record of tables, each a list of rows with the newest insertion first. A
-- session has the committed database, the one that the open transaction sees, and a list that says
-- of each coming call whether it is refused; a theorem on all sessions is one on every way in which
-- calls can fail. Other transactions do not interleave with the one that runs. Instants are
-- microseconds since 2000-01-01 00:00 UTC, the origin by which the SQL bins, and days are those of
-- UTC. What the server of the database makes up, a uuid or now(), is an argument. The average of a
-- baseline, a float64 in the code, is an exact fraction. Counts and sums do not wrap around: a Go
-- int has 64 bits, and the rows of a table are fewer than that. A port is a natural number.
--
-- Loops without a bound in the code run on fuel: varInt on nine rounds, enough for the 63 bits of a
-- Go int that is not negative, and the wait for a tunnel on any number, where a theorem says how
-- many are enough. The three rounds of a check and the five of readVarInt are bounds of the code
-- itself. Reading from a connection is a list of the bytes that arrive before the deadline.
--
-- The encoding of JSON, the parsing of URLs, HTTP, the network and Discord are parameters, as are,
-- for the pages, base64, HMAC and SHA-256, random tokens, the parsing of forms, the reading of a
-- uuid, the order of names in the database, and the time, which a handler reads once. A path
-- reaches the router as net/http has cleaned it, and a response is what it tells the client,
-- without the text of the page. The effect of a migration on the schema is a parameter.
--
-- Of the roles (cmd/monitor), what the pool, Discord, net/url and time.ParseDuration answer, and the
-- value of each variable of the environment, are parameters; a role comes to what it starts, or to
-- the text with which it ends.
--
-- Not modelled are the templates of the pages, and logging.
pub mod Common
pub mod Domain
pub mod Crowd
pub mod Incident
pub mod Store
pub mod Worker
mod Scenarios
pub mod Minecraft
pub mod Integration
pub mod Web
pub mod Migrate
pub mod Transport
pub mod Discord
pub mod Command
