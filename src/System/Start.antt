-- ===== src/System/Start.antt =====
-- StartTransaction from the frame of the charge point to the row of ocpp-core and back.
use ocpp_simulator.Base.{ℕ, pos, ◌≡◌, ◌≢◌, String, some}
use ocpp_simulator.Result.{ok}
use ocpp_simulator.Json.{Json, json}
use ocpp_simulator.Message.{Message, generic_error}
use ocpp_simulator.Schemas.{SchemaLibrary}
use ocpp_simulator.Processor.Handler.{Handler, World}
use ocpp_simulator.Processor.Handler.Outcomes.{Rejected}
use ocpp_simulator.Processor.Handler.CoreAnswers.{Answered}
use ocpp_simulator.Protocol.V16.Responses.{parse_start_transaction_response}
use ocpp_simulator.Core.Transactions.Counter.{started}
use ocpp_simulator.Core.Api.{
  Server, Backend, Response, StartTxReq, read_start_tx_req, no_start_tx_req, start_conf,
}
use ocpp_simulator.Core.Api.Decisions.{start_input}
use ocpp_simulator.System.Client.{core_client, IsLost}

abbrev pub accepted_conf : ℕ → Json
accepted_conf n = start_conf (record { transaction_id = n; status = "Accepted" })

module _ (library : SchemaLibrary) (env : Backend) (unrouted : String → Response)
    (base_url : String) (h : Handler Server)
    (wired : h.core ≡ some (core_client library env unrouted base_url)) where
  -- The CALLRESULT for a granted start, from which the charge point's parser reads the next id, and
  -- ocpp-core with one row more, which is active, of the charge point, and carries that id.
  pub record Granted (id : String) (m : Message) (w w' : World Server) : Type 0 where
    pub arguments : Json
    pub req : StartTxReq
    pub from_frame : m.payload ≡ json arguments
    pub read_as : read_start_tx_req arguments no_start_tx_req ≡ ok req
    pub tagged : req.id_tag ≢ ""
    pub answered_by :
        Answered library h
          (core_client library env unrouted base_url)
          wired
          id
          m
          (accepted_conf w.core_state.transactions.next_id)
          (record w.core_state {
            transactions =
                started env.transaction_insert (start_input id req) w.core_state.transactions;
          })
          w
          w'
    pub understood :
        parse_start_transaction_response (json (accepted_conf w.core_state.transactions.next_id))
        ≡ ok (record {
          transaction_id = pos w.core_state.transactions.next_id;
          id_tag_info = record { status = "Accepted" };
        })

  -- The CALLERROR for a start whose answer is lost: ocpp-core has stored the row all the same.
  pub record Unheard (id : String) (m : Message) (w w' : World Server) : Type 0 where
    pub lost : IsLost env.network
    pub arguments : Json
    pub req : StartTxReq
    pub from_frame : m.payload ≡ json arguments
    pub read_as : read_start_tx_req arguments no_start_tx_req ≡ ok req
    pub tagged : req.id_tag ≢ ""
    pub rejected :
        Rejected library h generic_error id m
          (record w {
            core_state = record w.core_state {
              transactions =
                  started env.transaction_insert (start_input id req) w.core_state.transactions;
            };
          })
          w'
