-- ===== src/Lib.antt =====
-- Verification library of sms-server: a server that sends and receives SMS through a modem.
--
-- The program's parts and how they interact. The serial port's bytes reach the worker
-- (src/modem/worker.rs), whose line buffer (src/modem/buffer.rs) cuts them into lines and prompts.
-- The state machine (src/modem/state_machine.rs) pairs them with the command that is active
-- (src/modem/commands.rs), with the help of the handlers (src/modem/handlers.rs) and the parsers
-- (src/modem/parsers.rs); unsolicited messages go out on a channel of their own. Callers queue
-- commands with the sender (src/modem/sender.rs) and wait for the one response. The SMS manager
-- and receiver (src/sms/mod.rs) stand between that and the database (src/sms/database.rs): they
-- send, store and announce messages, whose text is stored encrypted (src/sms/encryption.rs), and
-- put the parts of concatenated messages together (src/sms/multipart.rs). What happens is
-- announced as an event (src/events.rs) to the webhooks (src/webhooks.rs) and to the websocket's
-- connections (src/http/websocket.rs). The HTTP server (src/http/mod.rs) sends and reads messages
-- and asks the modem on behalf of its clients (src/http/routes.rs, src/http/types.rs). The
-- configuration (src/config.rs) is checked as it is read, and the application (src/app.rs) joins
-- all of these: it hands what comes from the modem to the receiver.
--
-- Which file models which part:
--   Base, Text      shared notation, lists, results; Rust's strings as lists of code points, with
--                   UTF-8 and the number parsers of the standard library
--   Modem/Types     the modem's data types; `Crates` holds the functions of the crates hex,
--                   sms-pdu and sms-types that the modem calls
--   Modem/Buffer    LineBuffer: process_data with its indices; Automaton is the line protocol
--                   without them; Rounds, Refinement, Bounds, Chunks and Framing are about both
--   Modem/Commands  OutgoingCommand and CommandState; `Act`, a result with what was sent
--   Modem/Parsers   parse_cmgs_result and the other parsers
--   Modem/Handlers  ModemEventHandlers; Handlers/Responses has its decoding part
--   Modem/StateMachine  ModemStateMachine, one function per method, each into `Step`: the new
--                   state, what was sent, and the result
--   Modem/Worker    ModemWorker::run, one `Arm` per branch of its select; Worker/Startup has the
--                   initialization of the modem and initialize_and_run
--   Modem/Sender    ModemSender
--   Modem/Manager   ModemManager: how the worker and the senders are put together
--   Sms/Types       the message types of the crate sms-types, and the actions on the database
--   Sms/Multipart   SMSMultipartMessages
--   Sms/Manager     SMSManager::send_sms
--   Sms/Receiver    SMSReceiver
--   Sms/Encryption  SMSEncryption, over an authenticated cipher and an encoder given by their laws
--   Sms/Database    SMSDatabase: Schema has its tables, Queries the statements that read; Database
--                   itself has the statements that write, and every method
--   Sms/Service     the manager and the receiver run against the database of Sms/Database
--   Events          Event and its tags, and EventBroadcaster, in Events/Broadcaster
--   Http/WebSocket  WebSocketManager; WebSocket/Session has the two tasks of a connection, and
--                   Http/Query its selection of events
--   Http/Types, Http/ModemRoutes, Http/SendRoute, Http/DbRoutes  the requests and the routes, those
--                   that ask the modem, that send, and that read the database
--   Http/Auth, Http/App  the bearer token's check, and the routes under it
--   Webhooks        WebhookWorker; Dispatch has the requests an event causes, Certificates the
--                   reading of a certificate and the worker's creation, which may panic
--   Config          the checks of the configuration's values, and its defaults
--   App             the loop that hands what comes from the modem to the receiver
-- A module's children named for what they prove hold its theorems; Tests has tests and instances.
--
-- How stateful code is modelled. A method on `&mut self` is a function from the state to the new
-- state and what was sent, in order. Channels, the clock and the queue are given with each step
-- (`Env`, `Arm`, `Exchange`, `Surroundings`), so that a theorem over any sequence of steps covers
-- any interleaving. Errors are values that hold their text. Logging is left out. A duration or an
-- instant is a number of nanoseconds.
--
-- Bounds and fuel. The loops of `process_data` run on the length of the buffer as fuel, which is
-- enough since each round raises the index: the refinement by the automaton, which needs no fuel,
-- covers every input. The command sequence wraps at 2^32. The loop of `add_connection`, which draws
-- identifiers until one is free, runs on the number of the connections and one more as fuel: among
-- as many different identifiers one is free. Lengths and counters of type usize are natural numbers:
-- they count bytes in memory.
--
-- What is not modelled. In the worker's loop a reconnection stands for the given outcome of its
-- connection test and its initialization, without their writes. The GPIO pin and the serial port,
-- the serving of HTTP, TLS and JSON by the crates, the
-- client that performs a webhook's request, the reading of TOML, the command line, the logging and
-- the error reports, the description of the routes as OpenAPI, and the example client are not
-- modelled. In the database, the order of rows whose keys are equal and the reading of a null are
-- parameters; identifiers are natural numbers. The voltage of a battery response is kept in
-- millivolts, without its division in floating point.
mod Base
pub mod Text
pub mod Modem
pub mod Sms
pub mod Events
pub mod Http
pub mod Webhooks
pub mod Config
pub mod App
