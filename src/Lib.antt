-- ===== src/Lib.antt =====
-- A Go client library for a blockchain platform whose smart contracts ("phyla") run behind a JSON-RPC
-- gateway. A program makes a client, calls methods of its phylum through it with a list of configs, and
-- reads the response. On top of that stand helpers for private data, for phylum versions, for batch
-- requests and for a typed client of one phylum; a plugin connection serves an in-process ledger.
--
-- Parts, and where they are modelled:
--   internal/types/types.go          Types.Options (RequestOptions, Config, ApplyConfigs),
--                                    Types.Response (responses, UnmarshalProto), Types.Chain (blocks),
--                                    Types (the interface ShiroClient)
--   shiroclient/configs.go           Configs (the With functions)
--   x/rpc/rpc.go                     Rpc.Codes
--   internal/rpc/shiroclient.go      Rpc.Transport (doRequest), Rpc.Request (what a request carries),
--                                    Rpc.Reply (the decoding in reqres, IsTimeoutError), Rpc.Numbers
--                                    (convertToUint64), Rpc.Blocks (the decoding in QueryBlock),
--                                    Rpc.Client (reqres and the six methods), Rpc.Interface (NewRPC)
--   internal/rpc/health.go           Rpc.Health, with HealthCheck and its URL
--   x/plugin/plugin.go, args.go      Plugin.Substrate (data), Plugin.Rpc (PluginRPC and
--                                    PluginRPCServer), Plugin.Connection (the plugin process),
--                                    Plugin.Trace (processes started and killed), Plugin.Refinement,
--                                    Plugin.Args
--   internal/mock/shiroclient.go     Mock (mockShiroClient), Mock.Start (NewMock), with Mock.Laws and
--                                    Mock.Served for what they do, Mock.Launches and Mock.Lifecycle
--                                    for the processes
--   shiroclient/mock/option.go, internal/mockint/mockint.go
--                                    Mock.Options
--   shiroclient/shiroclient.go       Shiroclient (functions that pass on to the others)
--   shiroclient/update/update.go     Update
--   shiroclient/private/private.go   Private.Message (types and JSON), Private.Seed (seeds, configs),
--                                    Private.Encode (Encode, Decode), Private.Subject (Export, Purge,
--                                    ProfileToDSID), Private.Wrap (WrapCall)
--   shiroclient/phylum/phylum.go     Phylum (sdkCall, Call, New), Phylum.Joins (joinConfig),
--                                    Phylum.Mock (NewMock, NewMockFrom, MockSnapshot, GetHealthCheck)
--   shiroclient/batch/batch.go       Batch.Driver, Batch.Tick (with Trace, a client and a callback
--                                    that leave a trace), Batch.Ticker
-- Prelude, Errors, Exec and Json hold what these share: Go's errors and panics as values, code that
-- changes a state, the values of encoding/json. Modules named Laws, and those named for what they prove,
-- hold the theorems; Tests holds concrete runs.
--
-- How the parts meet: Update, Private, Phylum and Batch call a client only through the interface
-- ShiroClient, a record over a state of its own, so their theorems hold of every client, and
-- Rpc.Interface makes the RPC client one, and Mock the mock client. What the code asks of its
-- environment is a parameter: the record Platform (codecs, HTTP, random IDs, URLs), Host (go-plugin and
-- the plugin processes) with Machine (readers, writers, environment variables, time), or a Codec or Dst
-- for the types of one package. The state of the RPC client is a Session: the world of the platform, and
-- the events that others see. The state of a mock client is that of its host; Plugin.Trace adds a trace
-- of the processes that are started and killed, so theorems about them hold of every host.
--
-- Representation: []byte is a list of numbers and a Go map a list of entries with at most one for each
-- key; nil and empty slices are one value; a nil pointer is `none`; a parameter value is what
-- json.Marshal makes of it, which may be an error. A uint64 is a natural number with its limit written
-- out; a float64 is a sign, a mantissa and a power of two. A panic is a result of its own.
--
-- Bounds: every loop is recursion on its list. float_of_uint64 shifts at most 11 times, enough to bring
-- 64 bits to 53; the decimal printing of n has n + 1 rounds, more than it has digits. The tasks of a
-- tick run by an explicit schedule, a list of task indices; a step is one callback or one call. Tick
-- returns when the counter of its WaitGroup is zero, and two steps for each task are enough for that.
--
-- Not modelled: log entries, the tracer's spans, time.Ticker, and memory shared between calls (the
-- array behind the base configs). log.Fatal ends the process; it is a panic here.
pub mod Prelude
pub mod Errors
pub mod Exec
pub mod Json
pub mod Types
pub mod Platform
pub mod Rpc
pub mod Mock
pub mod Shiroclient
pub mod Plugin
pub mod Update
pub mod Private
pub mod Phylum
pub mod Configs
pub mod Batch
pub mod Tests
