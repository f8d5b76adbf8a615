-- ===== src/Tests/Registrations.antt =====
-- Registrations and verification codes at concrete inputs.
use app_server.Base.{◌≡◌, refl, some, false, Bytes, Text, literal, arith, done}
use app_server.Packet.{TcpPacket}
use app_server.Decimal.{to_string}
use app_server.Message.{Message, created_base, status_code}
use app_server.Message.RegisterRequest
use app_server.Message.RegisterResponse
use app_server.Message.VerifyCode
use app_server.Message.VerifyCodeRes
use app_server.DataHandle.{schedule, send, handle_reg_message, handle_verify_code}
use app_server.DataHandle.Delivery.{Delivers}
use app_server.DataHandle.Incoming.{Carries}
use app_server.DataHandle.Registration.{verify_code_reaches_client, registration_fails}
use app_server.Tests.Streams.{sample_bytes, sample_bytes-IsByteArray}
use app_server.Tests.Values.{sample_json, sample_json-IsJsonLibrary, shifted}
use app_server.Tests.Tables.{sample_connector-ChecksParameters}
use app_server.Tests.Setting.{sample_env, sample_world, packet_of, packet_of-Carries, length-array}

abbrev eve : RegisterRequest.Info
eve = record { username = literal "eve"; password = literal "pw"; email = literal "e@b" }

abbrev reg_packet : TcpPacket
reg_packet = packet_of 0x04 (RegisterRequest.info_to_json sample_json eve)

eve-Carries : Carries sample_json (RegisterRequest.info_from_json sample_json) reg_packet eve
unfolding RegisterRequest.info_to_json
eve-Carries =
    packet_of-Carries 0x04 (RegisterRequest.info_from_json sample_json)
      (RegisterRequest.info_to_json sample_json eve) eve
      (RegisterRequest.info_from_json-info_to_json sample_json-IsJsonLibrary eve) (omega arith)

abbrev refused_body : Text
refused_body =
    shifted (
      RegisterResponse.to_json sample_json
        (RegisterResponse.new_message (sample_env.stamp 1) false))

registration_fails_example :
    (bytes : Bytes) × (handle_reg_message sample_env reg_packet 90 sample_world
      ≡ done (schedule (send (some 90) bytes) sample_world))
    × Delivers sample_bytes bytes 0x05 (λ text.
      (n : Message RegisterResponse.Info)
      → RegisterResponse.cast_from_string sample_json text n
        ≡ record n { info = record { success = false } })
unfolding RegisterResponse.to_json RegisterResponse.new_message created_base status_code to_string
registration_fails_example =
    registration_fails sample_env sample_bytes reg_packet eve 0 90 sample_world refused_body
      sample_json-IsJsonLibrary sample_bytes-IsByteArray sample_connector-ChecksParameters
      length-array refl eve-Carries refl (omega arith)

abbrev address : VerifyCode.Info
address = record { email = literal "e@b" }

abbrev verify_packet : TcpPacket
verify_packet = packet_of 0x06 (VerifyCode.info_to_json sample_json address)

address-Carries : Carries sample_json (VerifyCode.info_from_json sample_json) verify_packet address
unfolding VerifyCode.info_to_json
address-Carries =
    packet_of-Carries 0x06 (VerifyCode.info_from_json sample_json)
      (VerifyCode.info_to_json sample_json address) address
      (VerifyCode.info_from_json-info_to_json sample_json-IsJsonLibrary address) (omega arith)

abbrev code_body : Text
code_body = shifted (
    VerifyCodeRes.to_json sample_json
      (VerifyCodeRes.new_message (sample_env.stamp 1) (literal "042")))

verify_code_reaches_client_example :
    (bytes : Bytes) × (handle_verify_code sample_env verify_packet 90 sample_world
      ≡ done (schedule (send (some 90) bytes) (record sample_world { codes = 1 })))
    × Delivers sample_bytes bytes 0x07 (λ text.
      (n : Message VerifyCodeRes.Info)
      → VerifyCodeRes.cast_from_string sample_json text n
        ≡ record n { info = record { code = literal "042" } })
unfolding VerifyCodeRes.to_json VerifyCodeRes.new_message created_base status_code to_string
verify_code_reaches_client_example =
    verify_code_reaches_client sample_env sample_bytes verify_packet address 90 sample_world
      code_body sample_json-IsJsonLibrary sample_bytes-IsByteArray length-array address-Carries refl
      refl (omega arith)
