-- ===== src/Lib.antt =====
-- FerroVela, a local HTTP proxy for macOS that authenticates to an upstream proxy: the development
-- beside crates/ferrovela-lib and crates/ferrovela-ui.
--
-- A client's CONNECT request reaches `ConnectResponder::serve` (Proxy.connect_respond), which asks
-- `resolve_proxy` (Route.resolve_proxy) for a proxy and refuses private targets that would go direct
-- (Ssrf.is_private_target). `ConnectHandler::serve` (Proxy.Handlers.connect_handle) then connects to
-- the target, or to the proxy, through which `perform_authenticated_connect` (Tunnel) opens a tunnel
-- with the tokens of an authentication session (Auth). Other requests go through `plain_http_handler`,
-- which forwards one request and reads one response. `resolve_proxy` may ask a PAC script: the engine
-- (Pac) hands each question to one of its worker threads, which runs the script with a deadline. A
-- window edits the configuration (Ui), which is kept in the preferences of macOS (Config), and starts
-- and stops the service, which is a launch agent (Launchd). The window is one instance for a user: who
-- starts it again shows it through its socket.
--
-- The files, by the code that they model, with paths from crates/ferrovela-lib/src unless they begin with
-- crates:
--   Prelude      shared names, Boolean tests and lists over the native numbers
--   Text         Rust's `str`: scalar values, byte lengths, slices, splitting, numbers, UTF-8
--   Net          the address parser of `std::net` (crates/ferrovela-lib/src/proxy/ssrf.rs calls it)
--   Ssrf         proxy/ssrf.rs; Blocks and Target hold the theorems on addresses and on targets
--   Config       config.rs: records, Exceptions (`ExceptionsConfig`), Prefs (`load_config`,
--                `save_config`); Matching, RoundTrip and Managed hold the theorems
--   Effect       how a call ends: a value, an error, a panic, a read that waits for ever
--   Socket       a TCP stream as explicit state: the pieces to come, the writes that succeed, the
--                bytes that were sent
--   Http         proxy/http_utils.rs; Search is an instance of the laws of `memmem::find`
--   Auth         auth/: authenticators, sessions, `create_authenticator`; Sessions and Schemes hold the
--                theorems
--   Tunnel       proxy/auth_tunnel.rs; Headers, Rounds, Connect, Ntlm and Drain hold the theorems
--   Route        `resolve_proxy`, `proxy_addr_from_url`, `normalize_proxy_addr`; Resolve the theorems
--   Proxy        proxy/mod.rs: requests and the CONNECT responder; Format (the wire format), Handlers
--                (`ConnectHandler::serve`, `plain_http_handler`), Create (`Proxy::new`),
--                Run (`Proxy::run`); Guard, Refusal, Wire and Credentials hold the theorems
--   Pac          pac.rs: the wildcard match and the helper functions of a script; Loading (`new` and
--                what it reads), Worker (the threads and their channels), Pool (`find_proxy`, main.rs of
--                crates/ferrovela, and the theorems on them); Pattern is what a wildcard stands for and
--                PlainGlob a matcher that keeps the laws of the crate glob; Glob, Subnet, Names, Loads,
--                Deadline, Queue, Answers, Turns, Progress and Routing hold the theorems
--   Launchd      launchd.rs: the plist and the paths; Control (`start`, `stop` and their steps); Steps,
--                Registration, Looks, Phases, Stops and Escape hold the theorems
--   Logger       logger.rs: Clock (timestamps), Files (rotation and `log`); Gregorian is the calendar by
--                its own counts; Loops, Calendar and Rotation hold the theorems
--   Ui           crates/ferrovela-ui/src/ui: model.rs; view.rs (Widgets, View); auth.rs (Prompt); and of
--                controller.rs Forms (validators and `build_config`), Startup (`new_args`), Update
--                (`update`), Windows (the messages on windows and logs) and Show (the socket, also in
--                main.rs of crates/ferrovela-ui, and the subscriptions), with Desktop for what they ask
--                of the system; FormSpec is what a form stands for; Saves, Kept, Plain, Lock, Locked,
--                Session, Ports, Hosts, Opening, Service (with Launchd behind the buttons), Closing and
--                Shown hold the theorems
--
-- State and effects. A session is a value that `step` returns anew. A stream is a record that every read
-- and write returns anew; a statement about a stream is for all that a peer may send, in pieces of any
-- size. A slice of a text at a byte offset that is no boundary of a character, or is past its end,
-- panics: `Outcome` and `Io` have a constructor for this, and for a read that is never answered. The
-- window's editor is a record, and `update` returns it anew with the list of what it does outside, such
-- as a save or a stop of the service, and what a start of the service gives may depend on the stop
-- before it. A write to the log may fail behind some of its bytes. A worker thread of the PAC engine is
-- a record of its channel, of those that wait to send and of the replies that were given; what other
-- threads do between two of its steps is a list of events, and a theorem about it is for every list. A
-- script may answer a request by all those that its thread has answered before, since a thread keeps one
-- JavaScript context. The calls of launchctl are answered by a function of all that was done before. The
-- logger's handle is the number of the file that it stands on, since a rename takes an open file along.
-- `async` functions are run to their end; outside of the PAC engine no two tasks share state that
-- changes.
--
-- Bounds and fuel. A port and a status are numbers that `parse_uint` bounds by 2^16 - 1, a length of a
-- body one bounded by 2^64 - 1; a `u8` of a date is taken modulo 2^8. The loop that collects headers
-- takes one unit of fuel for a read of at least one byte and stops above 64 KiB, so that 64 KiB and two
-- units of fuel are enough. The loop over the years takes one unit for a year, which has a day at least,
-- so that one unit more than there are days is enough; the digits of a number are printed with one unit
-- more than the number. The challenge loop has four rounds, as the code's has. A call of a script takes
-- one unit for each poll; the clock passes the deadline of five seconds after some number of polls, and
-- this number and one is enough. `start` looks ten times for a process, as the code does. Character data
-- of the plist is read back with as much fuel as it has characters. The stream of the window's socket is
-- pulled once more than there are connections. Every other recursion is on the structure of a list.
--
-- Parameters. What is not part of the repository is an argument: `Memmem` (the crate memchr, with the
-- laws of a first occurrence), `Services` (base64, url, the keychain, ntlmclient, GSS-API), `Pac` (the
-- answer of a PAC script), `Preferences` (CFPreferences, with its laws), `Connect` (TCP) and
-- `UpgradeServer` (rama's HTTP server, with the laws of its upgrade layer); for the PAC engine
-- `GlobCrate` (the crate glob, with the laws of a match), `Resolver` (DNS), the files and the HTTP
-- client that a script is read from, and the polls of the JavaScript engine of a call; for the launch
-- agent launchctl and the file system; for the window `Desktop` (the system, the keychain, the service),
-- `Security` (the sheet that asks for the administrator) and Unicode's `to_lowercase`. The parts of a
-- request that the crate rama parses are fields of a record.
--
-- Not modelled: log lines, rama's accept loop and its parser, `set_nodelay`, the copying of bytes of an
-- open tunnel, the JavaScript engine, running out of memory, the start of iced with the titles of its
-- windows, and of the widgets their sizes, spaces, boxes and icons.
pub mod Prelude
pub mod Text
pub mod Net
pub mod Ssrf
pub mod Config
pub mod Effect
pub mod Socket
pub mod Http
pub mod Auth
pub mod Tunnel
pub mod Route
pub mod Proxy
pub mod Logger
pub mod Ui
pub mod Pac
pub mod Launchd
