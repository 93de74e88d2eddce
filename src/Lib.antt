-- ===== src/Lib.antt =====
-- nps is a server that gives clients behind a firewall public ports: a client (npc) keeps a
-- connection to the server (nps), which listens for users on the client's tunnels and hosts and
-- hands their connections on. This library models the server's own logic in these parts:
--
--   Rate         lib/rate/rate.go: the token bucket that every client's traffic passes. `NewRate`,
--                `Start`, `Stop`, `Get` and `session` are `new_rate`, `start`, `stop`, `get` and
--                `session`; `run` is a schedule of ticks and looks of `Get` that do not overlap.
--                Racing has what each caller and the session read, and what they then write, as steps.
--   File.Obj     lib/file/obj.go: the records of the database; File.Conns the connection counters,
--                with the test and the count of `GetConn` as steps in Racing, File.Targets
--                `GetRandomTarget`.
--   File.JsonDb  lib/file/file.go: the tables, their files and the id counters.
--   File.Clients, File.Tasks, File.Hosts
--                lib/file/db.go: the operations on the three tables, and the route of a request.
--   File.Listing, File.Paging
--                lib/file/db.go: the pages of clients and hosts, and their counters.
--   Socks        server/proxy/socks5.go: the SOCKS5 handshake, from a task of the database to a
--                connection that is handed on.
--   Proxy        server/proxy/base.go: the checks of flow and connections before one is served.
--   ServerPort   server/tool/utils.go: the ports that the server may open.
--   Bridge       bridge/bridge.go: the table of connected clients, `ping`, `register` and
--                `SendLinkInfo`; CliProcess and TypeDeal are the greeting of a client and what its
--                connection is for; GetConfig with Session and NewTask is `getConfig`, the session in
--                which a client sends its configuration: `config_turn` is one round of its loop.
--   Server       server/server.go: the tasks that run, `AddTask` to `DelTask`, and the messages of the
--                bridge; Booting is the start of the web interface, and Lifecycle has all as steps in any order.
--   Server.Listing
--                server/server.go: `GetTunnel` and `dealClientData`.
--   Net, Wire    lib/conn/conn.go: what a connection gives its reader, cut into chunks, and the messages
--                with a length in front (`SendInfo`, `getInfo`, `GetHealthInfo`).
--   Health       bridge/bridge.go: the messages of a client's health checks.
--   Config       lib/config/config.go: the sections of a client's configuration file.
--   Common       lib/common/util.go (Arrays, Ports, Addr, BlackList) and lib/common/netpackager.go (Udp).
--   Proxy.Deal   server/proxy/base.go `DealClient` with its black lists, server/proxy/tcp.go what a tunnel
--                does with a connection, server/proxy/udp.go the loop that reads datagrams.
--   Proxy.Http   server/proxy/http.go `handleHttp`, from a request to the link, with `auth` and `CheckAuth`.
--   Proxy.P2p    server/proxy/p2p.go: the datagrams of visitors and providers, and the visitors that wait;
--                a visitor looks twenty times for its provider, one look a round.
--   Pmux         lib/pmux: the first bytes of a connection to the shared port say whom it is for
--                (`process`), and `Read` gives them to the one who gets the connection.
--   Client       client/control.go: the greeting of `NewConn`; Client.Checks is one round of the health
--                checks of client/health.go.
--   Web          web/controllers: Request is a form, Access the check in front of every request
--                (`Prepare`, `CheckUserAuth`), Tunnels, Hosts and Clients the requests that change the
--                database, and Login the login with its failures.
--   SyncMap, Strconv, Prelude
--                what the code uses of Go: `sync.Map`, `strconv.Atoi`, integers that wrap around,
--                slices and strings. A string is the list of its bytes.
--
-- The bridge reads the clients' messages with Wire, and sends the tasks that a client brings, and the
-- ids of the clients that are gone, to Server, which works on the tables of File and on its run list.
-- The database's tables hold the clients, tunnels and hosts; adding one writes the table to its
-- file, and a client that is added or loaded gets a bucket of its own. The SOCKS5 server reads the
-- accounts of its task and of the task's client. The web interface works on the same database, on the
-- run list and on the bridge, for an administrator or for the user of one client. Client and
-- Bridge.CliProcess are the two ends of one connection.
--
-- State is passed explicitly: an operation takes the database (or the object that it changes) and
-- returns the new one. A mutex makes an operation one step; `GetConn` and
-- the bucket take none, and their reads and writes are steps of their own. Errors are `none`, or a case of a type of
-- results. The integers of Go are mathematical ones with `wrap32` and `wrap64` written where the
-- source adds or subtracts. Every loop is structural recursion; those that may not end in Go are
-- the searches for a free key in `NewClient` and for a free port in `GenerateServerPort`, which take the
-- list of what is drawn and end without a result only when that list does, and the wait of `Get`, of
-- which one look is one step. `AddTask` calls itself through `NewMode` and `InitFromCsv` and runs on fuel:
-- two nested calls are enough but for the tasks of Server.Starting.Loop. A session of `getConfig`
-- takes four bytes at least in each round but the last, and one round more than there are bytes is
-- enough.
--
-- Parameters stand for package `net`'s texts of addresses (IpText), encoding/json (Codec, with what is
-- relied on in Reads; Outside has what it leaves in a value that a message is read into), MD5,
-- base64, the random keys, and what the operating system answers about ports and closing sockets (Env). A message
-- that brings a task is read with its target set, and a client with its configuration. A form, a session
-- and the settings of the web interface are values, whether a listener of the shared port takes a
-- connection before the timer of the `select` is an argument of `process`, its clock and its random keys arguments, and a page
-- is one answer. `process` reads the lines in front of a Host line on fuel: each takes one, and more than
-- there are lines is enough. Not modelled: the sockets and goroutines themselves, failing writes, the
-- dialling of the client, its tunnels and its P2P, the pages and lists of the web interface, what the HTTP
-- proxies do after the first request and their transport, and lib/nps_mux, lib/cache and the TLS parser of
-- lib/crypt, which are copies of other projects' libraries.
--
-- Tests holds the theorems at concrete inputs.
pub mod Net
pub mod Pmux
pub mod Prelude
pub mod Bridge
pub mod Client
pub mod Common
pub mod Config
pub mod File
pub mod Health
pub mod Proxy
pub mod Rate
pub mod Server
pub mod ServerPort
pub mod Socks
pub mod Strconv
pub mod SyncMap
pub mod Tests
pub mod Web
pub mod Wire
