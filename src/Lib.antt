-- ===== src/Lib.antt =====
-- Mesher, a service mesh sidecar: a verification library for its core logic in Go.
--
-- The dubbo proxy reads frames from a connection, decodes them, hands the calls on and answers with
-- frames; its parts are modelled bottom-up.
--
-- - Prelude: Go's panics as a result type (Go), strings as lists of bytes and maps as association
--   lists (Text), two's complement patterns and integers (Int), lists over the native numbers.
-- - Wire: protocol/dubbo/utils/bytes.go (Bytes) and buffer.go (WriteBuffer, ReadBuffer). The library
--   gohessian is a parameter (Hessian): an encoder is any finite program of calls of `io.Writer`, a
--   decoder any finite program of calls of `io.Reader`. An `interface{}` is a value of Wire.Object.
-- - Message: protocol/dubbo/dubbo/request.go and respond.go. Getters and setters are the fields.
-- - TypeUtil: the type descriptors of protocol/dubbo/utils/typeutil.go, with the matches of the
--   regular expression as a parameter, and its conversions between values and texts (Values), with
--   encoding/json and net/url as parameters.
-- - Codec: protocol/dubbo/dubbo/codec.go, the encoders (Encode), the decoders (Decode), frames byte by
--   byte (Frame, Body), which values of a body are read (Reads, Broken), and what one end reads of what the other sent (RoundTrip, Transport).
-- - Queue: protocol/dubbo/utils/msgqueue.go as a step relation; between a connection's readers and its
--   sending loop. The limit of 65535 messages is a parameter of the runs. Spec is the contract of a
--   queue, Invariant its bounds, Stuck what a closed queue does.
-- - Client: protocol/dubbo/client/dubbo_client.go as a step relation: the calls that wait on one
--   connection, the answers and the closing, with the mutex and the unbuffered channels. Correlation,
--   Blocked and Reopened say which call gets which answer, and when none comes. Manager is the cache of
--   clients by address, with protocol/dubbo/client/chassis/dubbo_chassis_client.go, which calls it.
-- - Conn: protocol/dubbo/server/dubbo_conn.go and protocol/dubbo/client/client_conn.go: the receive
--   loops, on the segments that a connection gives, and HandleMsg with the proxy as a parameter. The
--   loops run on fuel; Fuel says how much is enough (more than the segments and the bytes that come), and
--   Delivery joins the encoder of requests to the loop that receives them. Send has the send loops, on the
--   messages that the queue gives, and joins them to the receive loops of the other side.
-- - Routines: protocol/dubbo/utils/thrmgr.go, the groups of goroutines, as a step relation over spawns,
--   ends of tasks, Done and Wait; and their use in DubboClient.Close.
-- - Server: protocol/dubbo/server/server.go, the connections by number and the stop of the server.
-- - SimpleRegistry: protocol/dubbo/simpleRegistry/simple_registry_server.go, the loop that answers a
--   connection, on fuel: more than the reads that come.
-- - Metrics: pkg/metrics, what is recorded for a status, as calls of the Prometheus library.
--   Labels that do not match the names of a collector panic, as its documentation says.
--
-- The parts around it choose where a call goes.
--
-- - Ports: pkg/ports/protocol.go and handler/port_rewrite.go.
-- - Resolver: resolver/destination.go, resolver/authority/destination.go and resolver/source.go, with
--   the URL parser of net/url and the address index of go-chassis as parameters.
-- - Cmd: GeneratePortsMap of cmd/cmd.go, and the three functions SetLocalServiceAddress.
-- - Policy: util/compare.go.
-- - Egress: pkg/egress/egress.go and egress_config.go, and the store of pkg/egress/archaius
--   (Archaius). A pattern of a rule is matched by a parameter that stands for `regexp.MatchString`; the
--   fixed patterns of labels are written out. Store follows the rule maps that can be in force. Pilot is
--   pkg/egress/pilot with control/istio/transfer.go: the rules from the clusters, the events about them
--   and the cache of the control panel.
-- - Health: health/health.go and l7check.go, with the HTTP client, the dialer, the registry and the
--   matching of configured patterns as parameters. A ticker is the list of what its checks returned.
-- - Istio: pkg/infras/istio/xds.go (the names of clusters, the labels of a subset, the endpoints by
--   tags), plugins/registry/istiov2/cache.go (the cache of instances) and registry.go (Registry, Lookups),
--   on what the pilot answers, which is a parameter. Xds has the calls CDS, EDS, LDS and RDS themselves,
--   with what a stream makes of a request as a parameter.
-- - Schema: protocol/dubbo/schema/schema.go, the contracts of services: the conversion of a contract, and
--   the methods for an operation and for a URL (Lookup, LongestPrefix, AnyOrder, ByName, Operations); and
--   the caches of schema.go with the jobs of cache.go that refresh them, as a step relation (Cache, Calls,
--   Due, Provided, Refreshed). go-cache is an interface with the law of a map, and a time is a number. A
--   lookup's setting of an entry and its adding of the job are two steps.
-- - Proxy: protocol/http/reverse_proxy.go (Http), protocol/grpc/reverse_proxy.go (Grpc) and
--   protocol/dubbo/proxy/dubbo_proxy_ouput.go and rest2dubbo.go (Dubbo; FromRest has the conversions from
--   REST to dubbo), the handlers of each protocol. A writer of net/http
--   is a record of what was sent, of which WriteHeader panics at a code outside 100 to 999 and Write drops a
--   body that the code does not allow; a handler chain of go-chassis is a function from the invocation to the
--   invocation that it leaves and the response that it gives to the callback; the resolvers, the egress
--   rules and the contracts are fields of the environment, as the modules above have them.
-- - Examples: tests, and the theorems at concrete values.
--
-- Loops over lists are structural; only the loops that read a connection use fuel. A run of a step relation has any
-- length and any interleaving. Maps are walked in the order of the association list, so a theorem for
-- all lists holds for every order in which Go ranges over a map.
--
-- Not modelled: sockets, servers, timers as time, logging, reading of configuration files, what only
-- calls go-chassis, gRPC, Kubernetes or Istio.
pub mod Prelude
pub mod Wire
pub mod Message
pub mod TypeUtil
pub mod Codec
pub mod Queue
pub mod Client
pub mod Conn
pub mod Ports
pub mod Resolver
pub mod Cmd
pub mod Policy
pub mod Egress
pub mod Health
pub mod Routines
pub mod SimpleRegistry
pub mod Server
pub mod Metrics
pub mod Istio
pub mod Schema
pub mod Proxy
pub mod Examples
