-- ===== src/System/Session/Whole.antt =====
-- A session from the Connect of its WebSocket on.
use ocpp_simulator.Processor.Handler.{Handler}
use ocpp_simulator.Gateway.{Gateway}
