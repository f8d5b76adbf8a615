-- ===== src/Tests/Chats.antt =====
-- Chat messages at concrete inputs.
use app_server.Base.{take, ◌≡◌, refl, some, ◌++◌, Bytes, Text, literal, arith, done}
use app_server.Packet.{TcpPacket, decode}
use app_server.Packet.RoundTrip.{received}
use app_server.Message.{Message, created_base, status_code}
use app_server.Decimal.{to_string}
use app_server.Message.Chat
use app_server.Message.Chat.{Info, IsInfo}
use app_server.UserConnectionManager.{select_user, find}
use app_server.DataHandle.{schedule, send, handle_chat_message}
use app_server.DataHandle.Delivery.{Delivers}
use app_server.DataHandle.Incoming.{Carries}
use app_server.DataHandle.ChatRouting.{incoming, chat_reaches_receiver, chat_returns_to_sender}
use app_server.Tests.Streams.{sample_bytes, sample_bytes-IsByteArray}
use app_server.Tests.Values.{sample_json, sample_json-IsJsonLibrary, shifted}
use app_server.Tests.Setting.{
  sample_env, sample_world, packet_of, packet_of-Carries, packet_of-IsPacket, length-array,
}

abbrev pub hello : Info
hello = record {
  content = literal "hi";
  sender = literal "bob";
  receiver = literal "ann";
  uid_receiver = 7;
  uid_sender = 8;
}

pub hello-IsInfo : IsInfo hello
hello-IsInfo = record { uid_receiver = omega arith; uid_sender = omega arith }

abbrev pub hello_packet : TcpPacket
hello_packet = packet_of 0x01 (Chat.info_to_json sample_json hello)

pub hello-Carries : Carries sample_json (Chat.info_from_json sample_json) hello_packet hello
unfolding Chat.info_to_json
hello-Carries =
    packet_of-Carries 0x01 (Chat.info_from_json sample_json) (Chat.info_to_json sample_json hello)
      hello (Chat.info_from_json-info_to_json sample_json-IsJsonLibrary hello hello-IsInfo)
      (omega arith)

abbrev pub hello_body : Text
hello_body = shifted (Chat.to_json sample_json (incoming sample_env hello))

chat_reaches_receiver_example :
    (bytes : Bytes) × (handle_chat_message sample_env hello_packet 80 sample_world
      ≡ done (schedule (send (some 70) bytes) sample_world))
    × Delivers sample_bytes bytes 0x01 (λ text.
      (n : Message Info) → Chat.cast_from_string sample_json text n ≡ record n { info = hello })
unfolding select_user find Chat.to_json Chat.new_message created_base status_code to_string
chat_reaches_receiver_example =
    chat_reaches_receiver sample_env sample_bytes hello_packet hello 80 70 sample_world hello_body
      sample_json-IsJsonLibrary sample_bytes-IsByteArray length-array hello-Carries hello-IsInfo
      refl refl (omega arith)

-- Nobody has the id 9.
abbrev lost : Info
lost = record hello { uid_receiver = 9 }

abbrev lost_packet : TcpPacket
lost_packet = packet_of 0x01 (Chat.info_to_json sample_json lost)

lost-Carries : Carries sample_json (Chat.info_from_json sample_json) lost_packet lost
unfolding Chat.info_to_json
lost-Carries =
    packet_of-Carries 0x01 (Chat.info_from_json sample_json) (Chat.info_to_json sample_json lost)
      lost
      (Chat.info_from_json-info_to_json sample_json-IsJsonLibrary lost
        (record { uid_receiver = omega arith; uid_sender = omega arith }))
      (omega arith)

chat_returns_to_sender_example :
    (bytes : Bytes) × (handle_chat_message sample_env lost_packet 70 sample_world
      ≡ done (schedule (send (some 70) bytes) sample_world))
    × ((rest : Bytes)
        → decode sample_bytes (bytes ++ rest)
          ≡ done (received lost_packet (take lost_packet.length lost_packet.body)))
unfolding select_user find Chat.info_to_json
chat_returns_to_sender_example =
    chat_returns_to_sender sample_env sample_bytes lost_packet lost 70 sample_world
      sample_bytes-IsByteArray
      (packet_of-IsPacket 0x01 (Chat.info_to_json sample_json lost) (omega arith) (omega arith))
      lost-Carries refl
