-- ===== src/Lib.antt =====
-- The backend of a calling service: a relay for WebRTC signaling, an inbox that pushes events to
-- users, rooms and invitations, accounts and sessions, and the HTTP layer in front of them.
--
-- Parts and files
--   Signaling/Protocol   internal/signaling/protocol.go: message types, parseInbound
--   Signaling/RateLimit  internal/signaling/ratelimit.go: tokenBucket, in billionths of a token
--   Signaling/Hub        internal/signaling/hub.go: Hub.join, leave, announce, deliver, closeAll
--   Signaling/Server     internal/signaling/hub.go: Hub.Run, and add, drop and publish around it
--   Signaling/Client     internal/signaling/client.go: Handler.ServeHTTP, readPump, writePump, pings
--   Inbox/Hub            internal/inbox/hub.go: Deliver, add, remove, Shutdown
--   Inbox/Server         the calls that reach the inbox hub, one after the other; its child
--                        Mailboxes says what the hub is for, with no maps and no order
--   Inbox/Connection     internal/inbox/conn.go: Handler.ServeHTTP, readPump, writePump
--   Auth/Sessions        internal/auth/sessions.go: SessionStore, over Redis (Auth/Redis); sequences of
--                        its calls, as concurrent requests make them, are in its Absence
--   Auth/RateLimiter     internal/auth/ratelimit.go: Allow, Reset, and the script they run
--   Auth/Password        internal/auth/password.go and commonpasswords.go: the policy, the hashes
--   Auth/Users           internal/auth/store.go: UserStore
--   Auth/Service         internal/auth/service.go: Register, Login
--   Auth/Service/Work    internal/auth/service.go, password.go: the keys that a login derives
--   Auth/Service/Account internal/auth/service.go: Logout, LogoutAll, ChangePassword
--   Auth/Handlers        internal/auth/handlers.go: the replies of the endpoints for accounts
--   Auth/Cookies         internal/auth/middleware.go: SetCookie, RefreshCookie, ClearCookie
--   Auth/Middleware      internal/auth/middleware.go: tokenFrom, identify, Require, AuthenticateWS
--   Invites              internal/invites/handlers.go: the handler, which rings users by the inbox
--   Rooms/Service        internal/rooms/service.go: Create, BySlug, Delete, List, generateSlug
--   Rooms/Store          internal/rooms/store.go, which is the service's table
--   Rooms/Handlers       internal/rooms/handlers.go: the replies of the endpoints for rooms
--   Turn                 internal/turn/handlers.go: the credentials for the media relay
--   Migrations           internal/database/migrate.go: Migrate
--   Gateway              cmd/server/main.go: the chain of handlers, with every package's Routes
--   Gateway/Sockets      cmd/server/main.go: the two websocket endpoints, down to the handshakes
--   Process              cmd/server/main.go: main, run, connectRedis, the health checks; and
--                        internal/database/postgres.go: Connect
--   Http/Origin          internal/httpx/origin.go: OriginPolicy, CSRF
--   Http/Respond         internal/httpx/respond.go: JSON, Error, Recover, SecurityHeaders
--   Http/ClientIp        internal/httpx/respond.go: ClientIP
--   Config               internal/config/config.go: Load
--   Prelude              numbers, texts, maps, channels, outcomes, and the groups of connections
--
-- Correspondence. A connection is a number and its struct is what the environment gives for it; the
-- buffered channel of each is held in the hub, with what was queued and whether it was closed. A
-- send on a closed channel and a second close are the outcome `panic`. The goroutine that owns the
-- signaling hub makes each request one step, and so does the mutex of the inbox hub; a request
-- sequence is a list of steps. The order in which Go ranges over a map is a parameter, and may be
-- another one each time. A process is the list of what it opens, uses and closes, with the deferred
-- releases as a stack, and each outside answer is a field of the world it runs in. A handler of
-- net/http takes a response as it stands to the response that it leaves, and says whether it
-- panicked. json.Marshal, json.Unmarshal, the socket and the clock are parameters,
-- too. A text is the list of its code points.
-- A request over Redis and Postgres is its calls in a row; the calls of other requests in between are told
-- as sequences of calls of the session store (Auth/Sessions/Absence).
--
-- Fuel. `leave` evicts the clients whose buffers are full, and each eviction may set off more; its
-- fuel bounds the depth, and a fuel above the number of members of the room is enough, since each
-- eviction takes a member out. The outcome `stuck` says that the fuel ran out.
--
-- Outside code. Redis is a record of its commands with laws: what a read gives, and what strings
-- stand under the keys after a pipeline; the counters of the limiter and the statements that
-- Postgres answers are records of the same kind. A transaction works on a copy of the state, and a
-- commit that reports an error may have taken effect or not. The lock of the migrations may be granted
-- after others have recorded the first of the pending files. Any call may fail, and what the laws say
-- holds only for calls that report success. Argon2, HMAC, SHA-256, random bytes, case folding,
-- url.Parse and mail.ParseAddress are parameters, too. A step that changes such a state gives a
-- result and the state that it leaves, also where it fails. Random bytes come by the number of the
-- call, or with the request, which also says whether a slot for hashing came free. The retries of
-- Rooms.Create are the five of the source.
--
-- The numbers in a stored password hash are printed and scanned as fmt does it for this format, and
-- the base64 is the strict one without padding.
--
-- Not modelled: the write deadlines of sockets, logging, the texts of error messages, how long a call
-- takes but for the keys that a login derives, the panic of argon2 on a hash with no iterations or lanes, the SQL text and the
-- migrations' contents, the construction of the parts in cmd/server/main.go, and the bytes of a token
-- (newToken, hashToken), which is fresh where it is drawn. The body of a request is decoded by a
-- parameter of its handler (DecodeJSON).
pub mod Prelude
pub mod Signaling
pub mod Inbox
pub mod Config
pub mod Auth
pub mod Http
pub mod Rooms
pub mod Invites
pub mod Migrations
pub mod Process
pub mod Turn
pub mod Gateway
mod Tests
