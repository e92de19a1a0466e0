-- ===== src/Lib.antt =====
-- lumescope: an indexer of the Lumera chain. A background runner copies the chain's supernodes,
-- validators and actions into PostgreSQL, probes the supernodes, and enriches the actions with
-- their transactions; an HTTP API reads the database.
--
-- Parts, and the files that model them:
--   internal/lumera/client.go     Lumera/Coin (parseCoinString, PriceField.UnmarshalJSON),
--                                 Lumera/Transfer (parseTransferEvent, extractTransferFlow),
--                                 Lumera/Tx (GetActionModuleAccount, GetActionTransactions,
--                                 parseTxResult, extractTxSigner), Lumera/Listings (NewClient,
--                                 doJSON, GetValidators, GetSupernodes, GetActions,
--                                 searchTxsByEvent)
--   internal/db/db.go             Db/Types (the structs), Db/Actions, Db/Transactions,
--                                 Db/Supernodes and Db/Supernodes/Filter (one function per
--                                 statement), Db/Stats and its children (the statements that
--                                 group, count and sum), Db/Keyset (ORDER BY and LIMIT), Db/Sql
--                                 (NULL)
--   internal/background/scheduler.go
--                                 Background/Feed and Background/Sync (syncValidators,
--                                 syncSupernodes, syncActions, extractMimeType; over the requests
--                                 in Background/Sync/Requests),
--                                 Background/Enricher (runActionTxEnricher), Background/Heights
--                                 (latestState, latestIPAddress), Background/Hosts (isValidHost),
--                                 Background/Probe (probeSupernodes, fetchStatus),
--                                 Background/Trigger (TriggerSyncAndProbe), Background/Loops
--                                 (the loops of Start, drainTicker), Background/System (the
--                                 writes of all passes)
--   internal/handlers             Handlers/Actions (ListActions, GetAction), Handlers/Supernodes
--                                 (ListSupernodesMetrics, GetSupernodeMetrics,
--                                 ListUnavailableSupernodes, TriggerSupernodeSync),
--                                 Handlers/Stats (GetActionStats, GetSupernodeStats,
--                                 GetSupernodeActionStats, GetPaymentInfo), Handlers/Version
--                                 (VersionMatrix), Handlers/Health (Healthz, Readyz)
--   internal/server/router.go     Server/Mux (http.ServeMux), Server/Router (the patterns of
--                                 NewRouter and their functions), Server/Cors (withCORS),
--                                 Server/Stack (the functions around the mux)
--   internal/util/httpjson.go     HttpJson (WriteJSON, WriteJSONError)
--   internal/config/config.go     Config (Load and its helpers)
--   Strconv, Prelude              Go's strconv and strings, and what the modules share
--   Tests                         concrete inputs
--
-- The parts meet in the tables: the syncs, the probes and the enricher write them, the handlers read
-- them. The router calls the handlers by the path that they then parse again, and its headers for
-- origins rest on what the configuration lists.
--
-- State. A table is the list of its rows; a statement is a function from the table to the table or
-- to its answer. UNIQUE keys are invariants that the upserts keep. A condition on a column that may
-- be NULL has three values. The order of texts is the database's collation, which is a parameter.
-- Rows that are equal in the columns of an ORDER BY come in the table's order, which SQL leaves
-- open. The client's state is its cached module account; the runner's are the monikers, and the flag
-- and goroutines of the manual trigger, which take steps in any order.
--
-- What the program calls and does not contain is a parameter: the transport of HTTP, the dialling
-- of ports, encoding/json, encoding/base64, url.Values.Encode, SHA-256, time.Parse and
-- time.ParseDuration, net.ParseIP and net.SplitHostPort, the MIME tables, PostgreSQL's casts and its
-- sums of floats and numerics, the clock, and which queries and writes fail.
--
-- Numbers. A float64 is its bit pattern. An int64 is a signed integer; where the code multiplies or
-- converts, the wrap-around is written out (the size of an action, the port, the enricher's next
-- id, the sums over storage volumes, the numbers of a status). The loops over pages and batches
-- take fuel: for the enricher one more than the actions it has to work through is enough, for a
-- sync the number of requests up to the last page or the first failure.
--
-- Not modelled: the lengths of the intervals, the schema and the connection, the statements for
-- tables of older versions, the decoder of metadata, start-up and shut-down, the limit of time
-- around the router, and a panic behind the first bytes of a reply: they are I/O and libraries, or
-- glue between the modelled parts.
pub mod Prelude
pub mod Strconv
pub mod Db
pub mod Lumera
pub mod Background
pub mod Handlers
pub mod Server
pub mod Config
pub mod HttpJson
pub mod Tests
