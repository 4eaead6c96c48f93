-- ===== src/Lib.antt =====
-- pufferd, the daemon of PufferPanel that runs game servers, as a model of its Go code.
--
-- The parts and how they interact. A server (programs/program.go) is started, stopped, installed and
-- destroyed through its environment, after operations that its definition lists
-- (programs/operations); the set of servers (programs/loader.go) is loaded from a folder of
-- definitions. When a server's process exits, its callback may put it on the start queue. Clients
-- reach a server by the web interface (routing/server), behind a guard (httphandlers/oauth2.go), by a
-- web socket (routing/server/websocket.go), or by SFTP (sftp/requestprefix.go), where they see the
-- server's folder as their root. The daemon keeps a token for its authorization server (oauth2).
--
-- The files. World is the state that outlives a call and the monad of Go functions: a function takes
-- the state and ends in a value or in a panic. What the operating system, an environment or a remote
-- server answers is an arbitrary function of the calls before it, `Outside`; so are the functions of
-- third-party packages (apufferi, viper, cast, JSON). World/Keeps has the rules by which a run keeps an
-- invariant, World/Runs those that follow a run. A pointer to a program is an index into a heap.
--   Common, Types, Text, FilePath: shared names, the shared data (errors.go, messages, httpmodels.go),
--     and the functions of Go's strings and path/filepath that the code calls.
--   A text that is compared with a keyword of small ASCII letters is lowered as far as it can equal one.
--   Operations, Operations/Run, Operations/Minecraft, Operations/Downloads, Operations/Modules:
--     programs/operations, environments/download.go.
--   Program, Program/Lifecycle, Program/Files: the methods of a program, the rest is proved of them.
--   Programs, Programs/Exit: programs/loader.go, the start queue and `afterExit`; Programs/Edited has the edit of
--     a server, with a nil map of variables told apart from an empty one, and Programs/Registry has the
--     requests to the loader as steps of a finite map.
--   Sftp, Sockets: sftp/requestprefix.go, utils/websockettracker.go.
--   Sftp/Server, Sftp/Connect: sftp/server.go, whose channels and requests are given, and a connection from
--     its login on.
--   Routing/Socket, Routing/Handlers, Routing/Routes: routing/server/websocket.go, the handlers and the table
--     of routes of routing/server/server.go.
--   Auth, Auth/Login: httphandlers/oauth2.go, authorization.go, oauth2.
--   Environments/Base: environments/envs/environment.go.
--   Environments, Environments/Standard, Environments/Tty: environments/impl/standard and
--     environments/impl/tty, with the processes of the system as part of the state; Environments/Steps
--     has the calls of their functions and the ends of processes as steps of one environment.
--   Environments/Docker, Environments/Docker/Container: environments/impl/docker, over an engine whose
--     answers are arbitrary. Environments/Loader: environments/environmentloader.go,
--     the factories of environments/impl and cache/cache.go.
--   Environments/Lxd: environments/impl/lxd, which environments/environmentloader_linux.go does not register.
--   Commands: cmd/shutdown.go, cmd/reload.go.
--   Migrate, Migrate/Convert: cmd/migrate.go, over a file system whose calls may fail.
--   Daemon, Daemon/Services: entry/entry.go, shutdown/shutdown.go. Daemon/Events puts the parts together: what
--     happens to the servers of a daemon that runs is a sequence of requests, goroutines, ticks and exits;
--     Daemon/Running starts it.
--   Tests: the theorems at concrete inputs.
-- A function keeps its source's name, in snake case.
--
-- Bounds and fuel. The loop over the listeners of a console runs on fuel of one more than the
-- listeners: each round either drops a listener or passes one. Natural numbers stand for counters, sizes
-- and times, which the code never makes negative. Go's maps are lists in the order of iteration.
--
-- Not modelled: the protocols of SFTP and of web sockets, and the router, which are libraries; the commands
-- (cmd) but the migration and those that signal the daemon, which are glue over a command-line library;
-- configuration and generated documentation; what the operations of modules do: a definition's operations are
-- made by the built-in factories. Locks are not modelled: a function runs alone, and a goroutine is
-- a run of its own, or, in an environment, a step between two others. Logging is left out.
pub mod Common
pub mod Types
pub mod Text
pub mod FilePath
pub mod World
pub mod Operations
pub mod Program
pub mod Programs
pub mod Sftp
pub mod Sockets
pub mod Routing
pub mod Auth
pub mod Daemon
pub mod Environments
pub mod Commands
pub mod Migrate
pub mod Tests
