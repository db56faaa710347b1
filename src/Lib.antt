-- ===== src/Lib.antt =====
-- Verification of the Discord bot's core: the stream job manager (internal/jobs), which keeps the
-- one running voice job, and what stands around it: the HTTP handlers that start and stop the job
-- and announce a live stream (internal/httpapi), the client of the Control Panel
-- (internal/control), the forwarding of received audio (internal/discord, internal/audioforward),
-- and the watchdog of Discord's voice encryption (internal/davewatch).
--
-- The manager takes events of the Discord client and calls of the Control Panel. It keeps the job
-- with its participants and speakers, publishes them to the Worker, tries failed publishes again
-- from a bounded queue, stops the stream when its channel stays empty, rejoins the channel when
-- the connection is lost, and sends each notification once. Every operation is one or more critical
-- sections under one mutex. The handlers check a request and call the manager. While a job runs,
-- the voice loop turns packets into batches, which a queue per target hands to the encoder and to
-- the captions.
--
-- Files and what they model (paths from the repository's root):
--   Base        lists, texts, strings.TrimSpace, Go maps with text keys, Boolean tests
--   Types       the exchanged data: internal/discord/client.go, internal/discord/events.go
--   Retry       the queue of failed publishes: internal/jobs/event_retry.go, lines 13 to 287.
--               Retry/Schedule is its delivery goroutine as a step system over any interleaving
--   Jobs        the manager's state: internal/jobs/manager.go
--   Jobs/Roster      participants and speakers: internal/jobs/participants.go, active_speakers.go
--   Jobs/Sync        snapshots that the bot reads itself: internal/jobs/participants.go
--   Jobs/Delivery    publishing: internal/jobs/event_retry.go from line 289, worker_reporting.go
--   Jobs/AutoStop    the empty-channel policy: internal/jobs/auto_stop.go, auto_stop_rejoin.go
--   Jobs/AutoStart   starts when somebody joins: internal/jobs/auto_start.go and
--               auto_start_capacity.go
--   Jobs/Lifecycle   Start, Stop, connects and rejoins: internal/jobs/manager.go, reconnect.go
--   Jobs/Reconnect   the policy and its delays: internal/jobs/reconnect.go
--   Jobs/Defaults    configured channels: internal/jobs/voice_defaults.go, runtime_gateway.go
--   Jobs/Notify      YouTube notifications: internal/jobs/notification.go. Jobs/Notify/Schedule is
--               any number of calls at once, by their critical sections
--   Http/StartJob    the start request: internal/httpapi/start_job_request.go
--   Http/Token       the check of a service's token: internal/httpapi/server.go
--   Http/Server      assignments and handlers: internal/httpapi/server.go
--   Http/Youtube     the notification handler: internal/httpapi/youtube_live.go
--   Http/Identity    the updater's identity: internal/httpapi/updater_identity.go
--   Control     configuration checks and errors: internal/control/client.go
--   Control/Requests the stop request and its answers: internal/control/client.go
--   Forward/Queue    batches to one target: internal/audioforward/queue.go
--   Forward/Client   the delivery of a batch: internal/audioforward/client.go
--   Forward/Voice    counters and speakers of the connection: internal/discord/audio_forward.go,
--               audio_speakers.go and voice.go. Forward/Voice/Loop is the receive loop
--   Watchdog    internal/davewatch/watchdog.go
--   Tests       concrete runs, and the theorems applied to them
--
-- How the code is read. A definition has the name of its Go function in snake case. Times and
-- durations are numbers of nanoseconds, 0 for Go's zero time; time.Now() is an argument. 64-bit
-- counters of the manager wrap (next64). A Go map is an association list in any order. A context,
-- or an object that is compared by its address, is a number. Where a handler lets go of the lock,
-- what other goroutines do meanwhile is an argument, any function on the state; so are the answers
-- of the Discord client, the Worker and the Control Panel. A handler returns the calls that it
-- makes after its last critical section. A round of the voice loop is read with nothing else
-- between its sections. The JSON decoder, url.Parse, url.QueryEscape and SHA-256 are parameters.
-- The rejoin loop and the attempts of a delivery run on the number of their
-- attempts, the second loop of the pruning of receipts on the number of receipts, of which each
-- round takes one out; no other loop needs fuel.
--
-- Not modelled: log lines, timers, the Discord library and gateway, the sending of HTTP requests
-- and the routing, headers and read-only handlers of the server, registration and heartbeats, the
-- Worker's client (internal/worker), the texts of forwarding errors, the goroutine that requests an
-- automatic start with its delays, the reconciliation after a rejoin, the delays of the periodic
-- participant snapshots, status and the main program. third_party/discordgo is another project's
-- library.
mod Base
pub mod Types
pub mod Retry
pub mod Jobs
pub mod Watchdog
mod Tests
pub mod Control
pub mod Http
pub mod Forward
