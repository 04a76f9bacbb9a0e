-- ===== src/Lib.antt =====
-- onyxchat: the server of server/onyxchat-server, a chat with end-to-end encryption, and the service of
-- server/notification-service that notifies its users, as far as their own logic goes: the store on
-- PostgreSQL, the WebSocket hub and its connections, HTTP handlers on top of them, and what several
-- servers and the service share through Redis.
--
-- Base (Base.antt and below) passes on the names that all modules share: the native numbers, the
-- Boolean tests, lists measured by those numbers, and the integers of a request. Text models what the
-- server uses of Go's strings, strconv and fmt. Sql models SELECT, UPDATE, DELETE, EXISTS and ORDER BY
-- on a table as a list of rows, with their laws.
--
-- Redis is an interface: the methods of go-redis that the code calls, each of which may fail, and laws on
-- what those that succeed make of a key. Clients take the interface and its laws as parameters;
-- Tests/Memory is an instance.
--
-- Store models internal/store, all paths being those of server/onyxchat-server up to Notifier.
-- * Store/Db is the tables of internal/store/migrations.
-- * Store/Session is the database driver: a call may fail wherever it is made, by the function `fails`
--   of the number of the call, and a transaction restores the tables on each way out but a commit.
-- * Store/Messages is message.go and message_store.go, Store/Users is user_store.go, Store/Contacts
--   and Store/Account are contact_store.go, and Store/Invites is admin_invite_store.go; a method's name
--   is the source's in snake case. Their child modules hold what the methods promise, each named for
--   what it is about. Store/Users/Codes is about all of them that change the table of codes.
--
-- Hub models the hub of internal/http/ws.go: Hub/Client is a client's bounded queue and its end, Hub is
-- the register of clients by user and what is sent to whom, Hub/Membership and Hub/Delivery hold the
-- results. A client is a number in place of its address. Each call holds the hub's lock or works on a
-- copy of the targets, and is one step; Hub/Client also takes enqueueDropSlow apart into its test and
-- its send.
--
-- Http models internal/http: Http is the request's user, the reply and the server's state (the session
-- of the store, the hub and the events to be published), Http/Messages is message_handlers.go,
-- Http/Contacts account_contact_handlers.go, Http/Keys key_handlers.go, Http/Auth jwt.go,
-- middleware.go, password_handlers.go and internal_handlers.go, and Http/Admin admin_handlers.go. A
-- handler calls the store's methods on the session and the hub's on the hub, in the code's order.
-- Http/Sending, Http/Arrival, Http/Deletion, Http/Access, Http/Password and Http/Identity hold the
-- results. A handler publishes to Redis, and the subscriber of every server reads it back: `published` is
-- what was handed to Redis, and `message_subscriber` is one turn of the subscriber's loop. Whether the
-- answer of a send can be written is an argument, `written`, since the handler returns before it publishes
-- where it cannot; no other handler does anything after its answer that depends on that.
--
-- Http/Limits is ratelimit.go and client_ip.go, and Http/Gate adds Redis and the limiters to the server's
-- state, with middleware_login_ratelimit.go and middleware_user_ratelimit.go. On it stand Http/Sessions,
-- which is auth_handlers.go, refresh_token.go and Generate of jwt.go, and Http/Tickets, which is
-- ws_ticket.go and ws_auth_middleware.go. Http/Presence is presence.go: connections are counted in Redis
-- under a key for each user, and who comes and goes is published. Http/Socket is NewUpgrader,
-- WebSocketHandler and readPump of ws.go, over the server and the presence store: opening a connection
-- registers its client, counts it and fills its queue, and readPump forwards typing and cleans up;
-- Http/Socket/Writer is writePump, on one client with what the other goroutines do to it as steps.
-- Http/Cors is middleware_cors.go and the probes of health_handlers.go and auth_handlers.go. Their child
-- modules hold the results.
--
-- Notifier models internal/notifier of server/notification-service: service.go, pushclient.go and
-- delivery.go. The service learns from the server's counters in Redis whether a recipient is connected,
-- and asks the server's internal route for a push token: Notifier/Handling puts both sides together.
-- Notifier/Retry is about the retries, for any backend.
--
-- Http/Sentry is sentry.go: a logger of zap is what its entries make the Sentry library do, and zap's tee
-- is a parameter with its law. Http/Writer is the writer of net/http as an interface with laws, statusWriter
-- around it, and respond.go; a handler is there what it does to its writer, call after call, until it
-- returns or panics. Http/Observability is observability_middleware.go on top of both. Http/Router is the
-- table of routes of router.go with the middlewares around each handler; Http/Router/Admission is about the
-- middlewares and Http/Router/Guards about the table.
--
-- Subscription is the loops around message_subscriber, presence_subscriber and the handling of an event,
-- with the loops of both programs that start them again.
--
-- Start models how the programs start: Start/Database is db.go, schema.go and internal/http/tracing.go,
-- Start/Server is cmd/server/main.go up to NewRouter, Start/Notifier is cmd/notifier/main.go of
-- server/notification-service. What the environment, AWS, the database, Redis and the libraries answer is
-- a record, and a start is a chain of steps that log and may end the program. Start/Config, Start/Secret,
-- Start/Origins and Start/Notifier/Agreement hold the results.
--
-- Tests holds a small store, hub and Redis, with the results at work on them.
--
-- Bounds. A text's length is counted in bytes, as Go does. Row ids are natural numbers below the
-- sequence of their table; an id in a request is an int64 with its range errors written out in Text.
-- The in-place reversal of a page runs on as much fuel as the page has messages, and is shown to
-- reverse it. A client that pages through a conversation runs on fuel, and is shown to end with more
-- fuel than there are messages.
--
-- The retries of a delivery count down the attempts that are left after the current one, from
-- maxAttempts - 1. The subscription loops run on the list of what arrives in each turn, and the loops that
-- restart them on the list of turns. The loop of readPump runs on the list of what arrives, after which
-- the connection fails, and the loop of writePump on the list of what happens. A limiter's answer to a
-- connection is given with what arrives, since the user's other connections share it.
--
-- Not modelled. JSON, HTTP and Redis deliver decoded values; bcrypt, base64, signing and parsing of JWT,
-- case folding, the database's order of texts, rate.Limiter and random numbers are parameters of the
-- definitions that use them. Outside Http/Observability metrics, logs and traces are left out, and headers
-- other than those of CORS; metrics.go and the registration of metrics only measure. The gaps that a
-- refused insertion leaves in a sequence are left out, since no code reads them. Concurrency between two
-- statements of one method is left out, except where a result takes the tables between two calls as they
-- are left. The expiry of a key in Redis between two calls is left out. Which route a path takes,
-- MaxBodyBytes, listening and the shutdown on a signal are not modelled: they hand values of libraries to
-- what is.

pub mod Base
pub mod Text
pub mod Sql
pub mod Redis
pub mod Store
pub mod Hub
pub mod Http
pub mod Notifier
pub mod Subscription
pub mod Start
pub mod Tests
