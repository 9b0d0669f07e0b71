-- ===== src/System.antt =====
-- The services joined: the message processor asks ocpp-core over its HTTP client, whose requests
-- the routes of ocpp-core answer.
pub mod Requests
pub mod Client
pub mod Start
pub mod Stop
pub mod Session
pub mod History
pub mod Command
pub mod Runs
pub mod Tests
