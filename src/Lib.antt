-- ===== src/Lib.antt =====
-- rockx-dkg-cli: the messenger service, its client, the operators' nodes, and the command line
-- tool.
--
-- The program lets operators generate a validator key together. The messenger (cmd/messenger and
-- internal/messenger) passes the protocol's messages on between the operators' nodes and keeps the
-- results. The tool (cmd/cli and internal/cli) opens a topic at the messenger, sends the first
-- message to each node, and later reads the results and writes them as files. The nodes speak to
-- the messenger through a client (internal/messenger/client.go).
--
-- Prelude holds the shared names: Boolean tests, lists, byte strings, Go's maps as association
-- lists in the order that a `range` meets them, and heaps for the objects behind pointers. Go has
-- the functions of Go's standard library that the source calls: strconv, encoding/hex,
-- encoding/base64 and strings. Dkg has the types of ssv-spec that the source takes apart.
--
-- Workers is internal/workers/workers.go. Messenger is internal/messenger: State has the data of
-- messenger.go and errors.go, Publish the handlers of dkg_network_handlers.go, Topics those of
-- topic_handlers.go, Register is register_node.go, Incoming is ProcessIncomingMessageWorker, and
-- Outgoing one round of ProcessOutgoingMessageWorker. A handler takes the state and gives the new
-- state and the reply. System puts them together as cmd/messenger/main.go does: a step is a
-- handler, a job that starts, or one move of a worker, in any order. Invariant and Contract have
-- the proofs, System.Started those on the jobs of the workers, and System.Arrival those on a
-- message on its way to a subscriber.
--
-- Net has programs that make HTTP requests: they run in a world, a function from the requests that
-- were made and the next one to its answer, and give a result and all requests. Net.Plan is the
-- reference for programs that post one request after the other. Client is
-- internal/messenger/client.go. Cli is internal/cli: Operators reads the operator flags, Keygen is
-- handle_keygen.go, Resharing is handle_resharing.go, Keysign is handle_keysign.go, Results is
-- dkg_result.go with DKGResultByRequestID of server.go, KeyShares is keyshares.go, and Data is
-- handle_get_data.go, handle_get_keyshares.go, whose whole run Cli.Data.Shares follows, and
-- handle_get_deposit_data.go; Commands is the tables of server.go, and what the actions read of
-- the command line.
--
-- Registry is the registry request of internal/storage/fetch_operator.go, Registry.Fetch the way
-- from its answer to an operator, and Registry.HardCoded the table of
-- internal/storage/storage_utils.go. Storage is internal/storage/storage.go: operators, which are
-- fetched once and kept, and in Storage.Keygen the outputs of key generations. Node is
-- internal/node/server.go and internal/keymanager/keymanager.go, Node.Params is
-- cmd/node/app_params.go, and Node.Start is cmd/node/main.go: it reads the parameters, finds its
-- own operator through the storage, registers through the client, and serves; Node.Routes has the
-- routes that it serves. Messenger.Contract.Joins follows a registration at the messenger,
-- Messenger.Contract.Requests a topic that the tool has asked for, and Delivery a message from a
-- subscriber's worker to the route and the handler of its node.
--
-- Web has what is used of net/http and gin, and Service is the routes of cmd/messenger/main.go
-- with internal/ping/ping.go: a world in which a client's requests are served by the messenger's
-- handlers. There Service.Joining runs a node's start, Service.Asking the tool's `keygen`,
-- Service.Broadcast a node's message, and Service.Results a node's results on their way to the
-- tool.
--
-- Logger is internal/logger/logger.go, and Verify is cmd/verify/main.go, which Verify.Deposit runs
-- on the file that Cli.Data makes.
--
-- Bounds: a channel of messages holds 50, the channel of jobs 10, a retry count stops at 10, a
-- node registers with 3 tries and a signature is asked for 4 times, as in the source. A loop is
-- structural recursion on a list or on the tries that are left, so nothing runs out of fuel. The
-- workers' endless loops are steps, and Messenger.System.Rest weighs what is left for them to do.
-- Identifiers keep Go's conversions between int, uint64, uint32 and uint16 written out.
--
-- Parameters: net/http and gin, urfave/cli, the decoders and encoders of ssv-spec, the JSON of
-- bodies, the retry key (a digest of a message), logrus, the random request identifier, the
-- environment's variables, the Ethereum libraries, the registry's JSON, the private keys of the
-- table of operators, the key-value store, the BLS and RSA libraries, and the order of each
-- `range`. The laws that are assumed of the store, of the codecs, and of URLs and routes are
-- hypotheses of the theorems that use them.
--
-- Not modelled: what happens after a panic of a worker, which ends the service (the receipt of a
-- message has the absence of one for a premise, and a state before a panic is not one of rest); a
-- handler is one step, although the source's maps are shared without a lock; the incoming worker
-- takes its snapshot of a topic's subscribers in one step; pauses, timeouts, the texts of logs,
-- metrics, the contents of the pages for metrics and version, texts of wrapped errors, the time in
-- a keyshares file, and the writing of files.
pub mod Prelude
pub mod Go
pub mod Dkg
pub mod Workers
pub mod Logger
pub mod Messenger
pub mod Net
pub mod Registry
pub mod Storage
pub mod Node
pub mod Client
pub mod Cli
pub mod Verify
pub mod Web
pub mod Service
pub mod Delivery
