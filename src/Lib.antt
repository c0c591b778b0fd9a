-- ===== src/Lib.antt =====
-- parasor: the server keeps terminal sessions (PTYs), in its own process or in a daemon, and browsers and
-- phones attach to them over WebSockets. This library models the parts that carry that traffic and
-- decide who may use a session. All paths start at packages/.
--
-- Base: lists, bytes and big-endian numbers, association maps in place of JavaScript's `Map`, and Boolean
-- tests. A byte is a number, and a field of w bytes is written and read with its wrap-around.
--
-- HostProtocol: server/src/pty/host-protocol/frames.ts, the frames between server and daemon.
-- `HostProtocol.Frame` has `encodeFrame` with its range checks, `HostProtocol.Parser` the class
-- `FrameParser` (its list of chunks, `materialize`, `takeOne`, and the loop of `push`),
-- `HostProtocol.Stream` the stream payloads. A thrown `FrameError` is a value, and so is a read out of
-- bounds. The loop of `push` runs on fuel, one more than the bytes buffered: each round that goes on takes
-- a frame of at least 21 bytes out. `out_of_fuel` is the answer where the fuel would not be enough.
--
-- TerminalProtocol: shared/src/terminal.ts, the binary frames between server and browser.
--
-- Scrollback: server/src/pty/scrollback-log.ts. `Scrollback` has the chunk rings that serve a client which
-- reconnects, `Scrollback.Represents` relates a ring to the history of all chunks of a generation,
-- `Scrollback.Disk` has the buffered file with its rotation; which calls of the file system fail is an argument.
-- The constructor's options are fields, and text is its bytes.
--
-- Presence: server/src/pty/terminal-presence-manager.ts, who drives a session and how large its PTY is.
-- `Presence` and `Presence.Session` have the methods on one session, `Presence.Calls` the methods as calls
-- and the callback of the soft-leave timer as one more, `Presence.Manager` the map of sessions and `Presence.Courses` courses of requests. The time
-- is an argument, and what `onEffects` is called with is a result.
--
-- RequestCorrelator: server/src/pty/request-correlator.ts, the requests to the daemon that wait for an
-- answer, over the frames of `HostProtocol`. What happens to the promises is a log of settlements.
--
-- PairingToken: server/src/auth/pairing-token.ts. The hash of a token is a parameter, and the random token
-- and the time are arguments.
--
-- TerminalRelay: server/src/ws/terminal-flow.ts, the backpressure of one socket; from
-- server/src/ws/terminal.ts the generation of input (with server/src/pty/session-policy.ts), the
-- messages that ask the presence manager, and in `TerminalRelay.Messages` the handlers of binary frames and
-- JSON commands with the count of malformed frames. The decoding of UTF-8 is an argument.
--
-- InProcessHost: server/src/pty/in-process-host.ts, the class `InProcessPtyHost`, with `Session` and
-- `SessionRecord` of shared/src/state.ts. `InProcessHost.Lifecycle` has the creation, the spawn, the exit,
-- the restart, the shutdown and the removal of sessions, `InProcessHost.Clients` the attaches and their
-- replays, `InProcessHost.Output` the batches of output, `InProcessHost.Input` the input and the other
-- operations, `InProcessHost.Bootstrap` the first input, `InProcessHost.Steps` all of these as events of
-- one machine. The host is one record with the map of sessions, the saved sessions and records, and the
-- log of `Scrollback`; the objects that `dispose` removed are kept for the handlers that still hold them.
-- The process that `pty.spawn` gives or does not give, the time, the resolved command, and the text that
-- `buildFullReplay` makes are arguments; a call of a PTY or of a listener is an effect. An attach is one step, as if
-- nothing else happened while its replay is awaited.
--
-- TerminalAttach: server/src/ws/terminal-attach.ts, what a socket sends of the host's answer to an attach,
-- and the cleanup of server/src/ws/terminal.ts.
--
-- ConnectionLifecycle: server/src/pty/connection-lifecycle.ts, the handshake with the daemon. A promise
-- takes its first settlement.
--
-- EventBus: server/src/ws/events.ts, the class `EventBus`. A course of calls is a list of events, and how each send
-- of a broadcast ends is an argument of it. An `addClient` is a step
-- of a call that has got the lock, and its send may throw.
--
-- EventStore: web/src/hooks/event-reducers.ts and the event socket of web/src/hooks/useEventSocket.ts, the store that a page
-- builds from the event bus. `EventStore.Changes` and `EventStore.Reducers` have `applyEvent` and `applySnapshot`, `EventStore.Socket` the
-- frames, the buffer before the snapshot, the check of the numbers and the reconnections; `EventStore.Delivery` joins
-- it to `EventBus`, with the parsing of JSON as a parameter. A value that no reducer looks into is its JSON text.
--
-- OutputPipeline: web/src/features/panes/terminal/terminal-output-pipeline.ts, from the socket to the terminal of a page: the
-- batch of a frame, the replays, and the pauses while the terminal lags. The terminal's callbacks are events,
-- and what is said of its text is said of the calls of `write` and `reset`, not of when xterm parses them.
--
-- ReplayCache: web/src/lib/terminal-replay-cache.ts, the screens that a page keeps. The loop of evictions runs on fuel, as
-- many rounds as there are entries: each round takes one out.
--
-- Osc7Parser: server/src/pty/osc7-parser.ts, the working directories that a shell reports in its output. The loop
-- runs on fuel, one more than the length of the text: each round takes a prefix of four code units out.
-- `decodeURIComponent` and `resolve` are a parameter.
--
-- Keepalive: server/src/ws/keepalive.ts, the pings of a socket.
--
-- SessionPolicy: the rest of server/src/pty/session-policy.ts that is modelled, the end reasons of sessions,
-- their exit codes and signals, and whether they may be resumed.
--
-- PaneModel: shared/src/pane-model.ts, the panes of a worktree.
--
-- Not modelled: the headless snapshots of a terminal's screen, the PTY host that speaks to the daemon, the
-- daemon itself, the detection of agents, the workspace state, the file and git services, the command line
-- and the user interface; and what comes from Node and packages (sockets, processes, files, timers), which
-- the models take as arguments or events.
pub mod Base
pub mod HostProtocol
pub mod TerminalProtocol
pub mod Scrollback
pub mod Presence
pub mod RequestCorrelator
pub mod PairingToken
pub mod TerminalRelay
pub mod PaneModel
pub mod SessionPolicy
pub mod Keepalive
pub mod InProcessHost
pub mod TerminalAttach
pub mod ConnectionLifecycle
pub mod Osc7Parser
pub mod EventBus
pub mod ReplayCache
pub mod EventStore
pub mod OutputPipeline
