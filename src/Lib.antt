-- ===== src/Lib.antt =====
-- The gdut-net client: a service that keeps a wired PPPoE session up, takes over by campus WLAN
-- while the wired side is out, and reports its state to a tray over IPC.
--
-- The parts and their files. `Supervisor` (src/supervisor.rs) is the reducer in which all decisions
-- meet: an event, with the time of day, gives the next state, the effects to carry out, perhaps a
-- snapshot for the clients and the time of the next wake. Supervisor/Types has its events and
-- effects, Supervisor/State its record with `new` and `compose`, Supervisor/Wired and
-- Supervisor/Radio the handlers (`handle_wake`, `handle_link_sampled`, `handle_wireless_sampled`
-- and so on, under the names of the source), Supervisor/Reducer the function `on`, and
-- Supervisor/Notification the toasts of src/supervisor/notification.rs. The reducer owns a `Brain`
-- (Wireless/Brain, for src/wireless/mod.rs), which decides on the WLAN, and reads portal replies by
-- Wireless/Portal (src/wireless/portal.rs); the routes that its effects acquire and release are the
-- ledger of Wireless/Egress (src/wireless/egress.rs), whose `EgressOps` the guard of
-- Wireless/Routes (src/wireless/routes.rs) is. It is told of the wired session by the steps of a
-- `Watchdog` (Watchdog, for src/watchdog.rs), which dials and probes, waits by Backoff
-- (src/backoff.rs) and judges probes by Probe (src/probe.rs and `is_auth_redirect` of src/http.rs),
-- whose replies Http/Transport reads (src/http.rs), and Ras (src/ras.rs) is what dials. Config
-- (src/config.rs) validates the configuration with Http (`parse_url` of src/http.rs) and Ipv4.
-- Protocol has the snapshot types of src/ipc/protocol.rs, Protocol/Frame its frame decoder and
-- Protocol/EventLog its event ring.
--
-- `Runtime` (src/runtime.rs) carries the reducer's decisions out. Runtime/Shell has the executor:
-- `exec_main` for one effect and `drain` for the queue of events and their results; Runtime/Loop
-- the main loop, from `assemble` by the biased `select` to the handover of a stop; Runtime/Worker
-- the serial executor of the wireless lane, over Wireless/Egress and the login of
-- Wireless/Portal/Login; Runtime/Dialer and Runtime/Prober what the watchdog dials and probes with.
-- Adapter (src/adapter.rs) chooses the network adapters. Heartbeat/Spec and Heartbeat/Session are
-- the packets and the session loop of src/heartbeat. Ipc/Commands is the mailbox of
-- src/ipc/commands.rs and Ipc/Session a client's connection, of src/ipc/session.rs. Status
-- (src/status.rs) and HomeMode (src/home_mode.rs) are what the tray decides by, SetupArgs
-- (src/setup_args.rs) is the command line of the installer, Setup/Transaction its `run_install`
-- (src/setup/transaction.rs) and Setup/FileBackup the snapshots and replacements of files
-- (src/setup/file_backup.rs), by which Setup/Transaction/Backed backs the installation up, and
-- Setup/Work the other workflows (src/setup/work.rs); Payload (src/payload.rs) is the container
-- that it unpacks. Service/Control, Service/Install (over Service/Request) and Service/Uninstall are the control of the
-- Windows service, its installation with a backup of Setup/FileBackup and the rollback of
-- Setup/Transaction, and its removal (src/service.rs); Crypto (src/crypto.rs) protects the password
-- of the configuration. Wireless/Address has the address conversions of src/wireless/mod.rs and
-- Cmdline the first token of a command line (src/cmdline.rs). The modules below these hold the
-- proofs; Base holds what they share; Tests the concrete inputs.
--
-- How code becomes definitions. A method on `&mut self` is a function from the state to the state;
-- a handler returns the effects that it pushes, in order. The clock is read once for an event, so a
-- reaction takes the two readings, monotonic milliseconds and wall seconds. A long match or loop
-- body is a helper of its own, named for what it does. Durations are nanoseconds. Arithmetic on
-- u64, u32 and u8 wraps or saturates as the release build does; the panic of an overflowing
-- addition of Durations is not modelled. The session start of the watchdog is kept in UNIX seconds.
-- Bytes, and texts that are parsed, are lists of numbers. A `match` that falls through writes its
-- last case.
--
-- What is outside. The dialer, the prober and the system clock are the parameter `Devices` of the
-- watchdog, serde_json is the parameter `Json` of the portal, the routing calls are the parameter
-- `EgressOps` of the egress; a theorem names what it asks of them. `encode_frame` takes the
-- serialized message. The echo and the HTTP reply of a probe are inputs. `ras::dial` and the like
-- are the parameter `Ras` of the dialer, and the RAS library that of src/ras.rs itself, `RasApi`;
-- the connection of an HTTP request is `Net`, for `get_async` with tokio's `Sockets`,
-- GetAdaptersAddresses is the argument `gaa`, the socket of the heartbeat `Udp`, its digests
-- `Digests`, the requests of the login `Http`, and the other calls of the shell and of the
-- worker are `Host` and `Radio`, the IP Helper library `IpHelper`, the named pipe of a client
-- `Pipe`, the calls and backups of an installation `Machine`, the file system with its paths
-- `FileSystem`, the service control manager `Scm`, the other calls of the service's installation
-- and removal `System` and `Cleanup`, DPAPI with the registry's entropy `Vault`, UTF-8 and
-- SHA-256 of the payload `Coding`. All act on a state of the world that the model passes on; an
-- await that can be cancelled takes its whole effect and loses its result.
-- Threads meet in the mailbox alone, whose steps are interleaved in every order. Logging, serde
-- attributes, TOML and the log section of the configuration are left out. Not modelled are the
-- Windows calls themselves (service, RAS, WLAN, registry, DPAPI), the heartbeat's task, the IPC
-- server, the console dialogues and the main function of the service, the backup of the registry,
-- and the windows of the setup and the tray.
--
-- Loops are structural recursion on lists or on digits, except those that run on fuel. The drain of
-- the shell has five rounds for each event of its queue, since an event is worth at most five and
-- each result less than the event that led to it. The sliced sleep of the heartbeat has a slice
-- more than the time has of them. The loops that end only on a stop, of the heartbeat and of the
-- runtime, run for the rounds or the turns that they are given, and a client waits for a snapshot
-- for as many reads of its pipe. The waits for the service to stop have two rounds more than the
-- time has of polls, which is enough where a sleep takes its time. The reading of a reply has a
-- round for each byte of its limit, of which each round takes at least one. The search for the free
-- name of a staged file has the tries that it is given, and its end is an outcome of its own.
pub mod Base
pub mod Cmdline
pub mod Crypto
pub mod Ras
pub mod Protocol
pub mod Backoff
pub mod Probe
pub mod Watchdog
pub mod Wireless
pub mod Ipv4
pub mod Http
pub mod Config
pub mod Adapter
pub mod Supervisor
pub mod Heartbeat
pub mod Ipc
pub mod Runtime
pub mod Payload
pub mod Service
pub mod SetupArgs
pub mod Setup
pub mod Status
pub mod HomeMode
pub mod Tests
