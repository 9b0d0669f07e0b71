-- ===== src/Lib.antt =====
-- OCPP simulator: charge points speak OCPP-J over WebSockets to the gateway (apps/ocpp-gateway),
--   which forwards their frames to MQTT topics; the message processor (apps/message-processor)
--   answers them, with ocpp-core (apps/ocpp-core) deciding authorisation and transactions and
--   sending the commands of the central system. The services share packages/ocpp-protocol and
--   packages/ocpp-schemas.
--
-- Base: lists, integers, texts, and association lists for Go's maps. Result: Go's errors as
--   values, with the chain of early returns. Json: JSON values, byte slices and encoding/json's
--   Unmarshal into the types that the services decode, `null` and case folding of keys included.
-- Message, Codec: packages/ocpp-protocol/pkg/message and pkg/codec, the envelope with Encode,
--   Decode, BuildCall, BuildResult and BuildError. Codec/Shape is about the accepted frames,
--   Codec/RoundTrip about both directions together.
-- Protocol: packages/ocpp-protocol/pkg/protocol, pkg/v16 and pkg/v201: the interface of a
--   version as a record, its two implementations, and the Factory. V16 has the CALLs of a charge
--   point, V16/Requests and V16/Responses the payloads that it parses and answers.
-- Topic: the topics `ocpp/{id}/in` and `ocpp/{id}/out` and the parsers of ids in
--   apps/ocpp-gateway/internal/gateway (InTopic, OutTopic, extractChargePointID),
--   apps/message-processor/internal/processor/processor.go and
--   apps/ocpp-core/internal/canonlog/service.go.
-- Mqtt: the wrapper of the MQTT client that stands, alike, in
--   apps/ocpp-gateway/internal/gateway/paho_broker.go,
--   apps/message-processor/internal/processor/paho_broker.go and
--   apps/ocpp-core/internal/broker/paho.go. Processor/Broker and Core/Broker are those of the
--   two services, with the errors of each. The third-party client is the record of what it is
--   asked, and what its tokens report is an argument. Mqtt/Routes is about what a client that
--   was asked so calls for a topic, Mqtt/Links about any history of a wrapper, in which its link
--   is lost and comes up by itself at any moment (SetAutoReconnect, SetConnectRetry).
-- PendingCalls: packages/ocpp-protocol/pkg/pendingcalls, the registry of the CALLs that wait for
--   an answer; PendingCalls/History runs any sequence of its operations.
-- Schemas: packages/ocpp-schemas/validator.go with its cache. The embedded files and the JSON
--   Schema compiler are a parameter.
-- Processor: apps/message-processor/internal/processor. Handler is handler.go, with the state of
--   ocpp-core, the publications and the audit events passed along; CoreClient is core_client.go,
--   and Subscription processor.go, its callback and, in Subscription/Lifecycle, New, Start and
--   Stop. The client runs callbacks in goroutines of their own (SetOrderMatters(false)):
--   callbacks that run side by side are listed in the order in which they publish, each with the
--   state in which it finds ocpp-core. What the broker answers is a parameter, so is ocpp-core.
-- Core: apps/ocpp-core. A sequence of deliveries to the canonical log stands in the order of
--   their INSERTs. Transactions is internal/transaction/service.go over the rows of
--   internal/db/transaction_repo.go (Store, with ListByChargePoint and AssignNumericID in
--   Store/Queries). A start is run whole in Counter and Restarts, and as its three steps,
--   interleaved with other starts, in Interleaved and, up to the first rollback, in Steady. What
--   the database draws for a call (key, time, failure) is an argument of the call. Events and
--   MessageLogs are internal/db/runtime_event_repo.go and message_log_repo.go, CanonLog is
--   internal/canonlog/service.go, with its two subscriptions in CanonLog/Start. Api is
--   internal/api/server.go: the handlers of authorize, start and stop, those of `POST
--   /internal/csms/*` in Api/Commands, and the table of routes in Api/Routes; what http.ServeMux
--   answers to other requests is an argument, and so is the order in which PostgreSQL lists
--   rows.
-- Csms: apps/ocpp-core/internal/csms/service.go, its commands against the parsers of
--   Protocol/V16/Requests, and in Csms/History any run of them.
-- System: the processor's CoreClient with the routes of ocpp-core as its HTTP transport, so that
--   a frame of a charge point runs through the handler of the processor, the HTTP API, the
--   transaction service and the store; the network between them, which may lose a request or the
--   answer to it, is an argument. System/Requests sets the CALLs of a charge point against the
--   request types of ocpp-core. System/Session joins the gateway, the MQTT broker (a parameter,
--   what it carries) and the processor's callback: from the text frames on a WebSocket to the
--   frames that come back on it, with the processor's callbacks in any order, and in
--   Session/Whole from its Connect on. System/Command goes the other way, from a POST to
--   ocpp-core to the WebSocket. System/History runs any deliveries to the processor, each with
--   its own surroundings, over the state of ocpp-core, one callback behind the other, and
--   System/Runs any number of runs of ocpp-core, from main on, over one database.
-- Gateway: apps/ocpp-gateway/internal/gateway: connections in a heap, the registry that refers
--   to them, and the handlers of the broker link (registry.go, gateway.go, paho_broker.go), and
--   the inbound loop of ws.go; the handler of the out topic and the outbound loop are in
--   Gateway/Outbound, and WSHandler, from the upgrade to the deferred Disconnect, in
--   Gateway/WebSocket. The MQTT client's answers are a parameter, its calls are recorded.
-- Boot: the main functions of the three services (apps/ocpp-core/cmd/core,
--   apps/message-processor/cmd/processor, apps/ocpp-gateway/cmd/gateway) as chains of fallible
--   steps up to the HTTP server, what the processor publishes in between, and what core and
--   processor do when they end; with it, Open and Migrate of apps/ocpp-core/internal/db/db.go
--   and the constructors. What third-party code reports is an argument, so is whether
--   IsConnected reports a link while the MQTT client retries.
--
-- Bounds: a Go int is an integer with its 64-bit range tested where the code decodes one, and
--   the numeric id of a transaction has the range of its column. All loops are structural, so no
--   fuel is used.
--
-- Not modelled: the text of JSON (spacing, escapes), text behind the first JSON value of an HTTP
--   body, the wording of errors of other packages, logs, HTTP and MQTT transport but for what
--   they lose, the upgrade of a WebSocket but for its error, the close frames of its loops, the
--   options of the MQTT client, the browser application, the HTTP listeners, the health
--   endpoints of the processor and the gateway, and signals. Unique ids, clocks and third-party
--   answers are arguments.
pub mod Base
pub mod Result
pub mod Json
pub mod Message
pub mod Codec
pub mod Topic
pub mod Mqtt
pub mod Schemas
pub mod Processor
pub mod Core
pub mod Protocol
pub mod Csms
pub mod PendingCalls
pub mod Gateway
pub mod System
pub mod Boot
