-- ===== src/Protocol/V16/Responses.antt =====
-- packages/ocpp-protocol/pkg/v16/protocol.go: the responses of the central system, as a charge
-- point parses them.
use ocpp_simulator.Base.{ℤ, pos, String, [], ◌∷◌, Option, none, some}
use ocpp_simulator.Result.{Result, ok, wrapping, ◌>>=◌}
use ocpp_simulator.Json.{Json, null, Bytes}
use ocpp_simulator.Json.Unmarshal.{unmarshal, read_string, read_int, read_struct}

pub record BootNotificationResponse : Type 0 where
  pub status : String
  pub current_time : String
  pub interval : ℤ

pub record HeartbeatResponse : Type 0 where
  pub current_time : String

-- The struct of `idTagInfo`
pub record IdTagInfo : Type 0 where
  pub status : String

pub record StartTransactionResponse : Type 0 where
  pub transaction_id : ℤ
  pub id_tag_info : IdTagInfo

pub record StopTransactionResponse : Type 0 where
  pub id_tag_info : Option IdTagInfo

read_id_tag_info : Json → IdTagInfo → Result IdTagInfo
unfolding read_struct
read_id_tag_info j old =
    read_struct
      (("status", λ v r. do s ← read_string v r.status; ok (record r { status = s })) ∷ []) j old

-- into a pointer: `null` sets nil, and another value is read into the old struct or a new one
read_id_tag_info_ptr : Json → Option IdTagInfo → Result (Option IdTagInfo)
unfolding read_id_tag_info
read_id_tag_info_ptr null old = ok none
read_id_tag_info_ptr j none = do v ← read_id_tag_info j (record { status = "" }); ok (some v)
read_id_tag_info_ptr j (some old) = do v ← read_id_tag_info j old; ok (some v)

unfoldable pub parse_boot_notification_response : Bytes → Result BootNotificationResponse
unfolding read_struct
parse_boot_notification_response payload = wrapping "parse BootNotification.conf" (
    unmarshal
      (read_struct (
        ("status", λ j r. do v ← read_string j r.status; ok (record r { status = v }))
        ∷ (
          "currentTime",
          λ j r. do v ← read_string j r.current_time; ok (record r { current_time = v }),
        )
        ∷ ("interval", λ j r. do v ← read_int j r.interval; ok (record r { interval = v }))
        ∷ []))
      payload (record { status = ""; current_time = ""; interval = pos 0 }))

unfoldable pub parse_heartbeat_response : Bytes → Result HeartbeatResponse
unfolding read_struct
parse_heartbeat_response payload = wrapping "parse Heartbeat.conf" (
    unmarshal
      (read_struct (
        (
          "currentTime",
          λ j r. do v ← read_string j r.current_time; ok (record r { current_time = v }),
        )
        ∷ []))
      payload (record { current_time = "" }))

unfoldable pub parse_start_transaction_response : Bytes → Result StartTransactionResponse
unfolding read_struct read_id_tag_info
parse_start_transaction_response payload = wrapping "parse StartTransaction.conf" (
    unmarshal
      (read_struct (
        (
          "transactionId",
          λ j r. do v ← read_int j r.transaction_id; ok (record r { transaction_id = v }),
        )
        ∷ (
          "idTagInfo",
          λ j r. do v ← read_id_tag_info j r.id_tag_info; ok (record r { id_tag_info = v }),
        )
        ∷ []))
      payload (record { transaction_id = pos 0; id_tag_info = record { status = "" } }))

unfoldable pub parse_stop_transaction_response : Bytes → Result StopTransactionResponse
unfolding read_struct read_id_tag_info_ptr
parse_stop_transaction_response payload = wrapping "parse StopTransaction.conf" (
    unmarshal
      (read_struct (
        (
          "idTagInfo",
          λ j r. do v ← read_id_tag_info_ptr j r.id_tag_info; ok (record r { id_tag_info = v }),
        )
        ∷ []))
      payload (record { id_tag_info = none }))
