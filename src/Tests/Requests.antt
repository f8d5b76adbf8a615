-- ===== src/Tests/Requests.antt =====
-- Friend requests at concrete inputs: Bob asked Ann.
use mathlib.Core.List.{Mem}
use app_server.Base.{
  ℕ, ◌<◌, ◌≡◌, ◌∙◌, refl, some, true, [], ◌∷◌, Bytes, Text, literal, arith, done, fault, null,
}
use app_server.Packet.{TcpPacket}
use app_server.Decimal.{to_string, stoull}
use app_server.Message.{
  Memory, Message, created_base, status_code, message_code, add_friend_request,
}
use app_server.Message.AddFriendRequest
use app_server.Message.InformFriendApply
use app_server.UserConnectionManager.{select_user, find}
use app_server.MysqlInteractor.Statements.{placeholders}
use app_server.MysqlInteractor.Friendships.Lists.{applicants}
use app_server.MysqlInteractor.{insert, new_friend_ship_dao, new_users_dao}
use app_server.MysqlInteractor.FriendShipDao.{map_record_to_colums}
use app_server.MysqlInteractor.UsersDao.{select_info_due_id}
use app_server.DataHandle.{World, schedule, send, handle_add_friend_req, handle_data}
use app_server.DataHandle.Login.Session.{public_of}
use app_server.DataHandle.Delivery.{Delivers}
use app_server.DataHandle.Incoming.{Carries}
use app_server.DataHandle.Nulls.{AsksUnregistered, handle_data_null}
use app_server.DataHandle.Dispatch.{handler, handle_data-message_code}
use app_server.DataHandle.Friends.{request_crashes, request_informs}
use app_server.DataHandle.Requests.{request_waits}
use app_server.Tests.Streams.{sample_bytes, sample_bytes-IsByteArray}
use app_server.Tests.Values.{sample_json, sample_json-IsJsonLibrary, shifted}
use app_server.Tests.Tables.{
  Tables, sample_connector, sample_connector-IsFriendTable, friendships_of, rows_of,
}
use app_server.Tests.Setting.{
  sample_env, sample_world, sample_tables, bob, asked, packet_of, packet_of-Carries, length-array,
}

abbrev pub with_db : Tables → World sample_connector
with_db t = record sample_world { db = t }

abbrev pub request : ℕ → ℕ → AddFriendRequest.Info
request own friend = record {
  own_username = literal "bob";
  friend_username = literal "ann";
  friend_id = friend;
  own_id = own;
}

abbrev pub request_packet : ℕ → ℕ → TcpPacket
request_packet own friend =
    packet_of 0x08 (AddFriendRequest.info_to_json sample_json (request own friend))

pub request-IsInfo :
    (own friend : ℕ) → own < 10 → friend < 10 → AddFriendRequest.IsInfo (request own friend)
request-IsInfo own friend h k = record { friend_id = omega arith; own_id = omega arith }

pub request-Carries :
    (own friend : ℕ)
    → own < 10
    → friend < 10
    → Carries sample_json
        (AddFriendRequest.info_from_json sample_json)
        (request_packet own friend)
        (request own friend)
unfolding AddFriendRequest.info_to_json
request-Carries own friend h k =
    packet_of-Carries 0x08 (AddFriendRequest.info_from_json sample_json)
      (AddFriendRequest.info_to_json sample_json (request own friend)) (request own friend)
      (AddFriendRequest.info_from_json-info_to_json sample_json-IsJsonLibrary (request own friend)
        (request-IsInfo own friend h k))
      (omega arith)

-- Ann asks Bob, who is away.
abbrev pub both_asked : Tables
both_asked = record sample_tables {
  friendships =
      asked ∷ record { friendship_1 = 7; friendship_2 = 8; status = literal "pending" } ∷ [];
}

request_waits_example :
    (handle_add_friend_req sample_env (request_packet 7 8) 70 sample_world
      ≡ done (with_db both_asked))
    × Mem 7 (applicants 8 both_asked.friendships)
unfolding placeholders select_user find
request_waits_example =
    request_waits sample_env (request_packet 7 8) (request 7 8) 1 70 80 sample_world both_asked refl
      friendships_of sample_connector-IsFriendTable
      (request-Carries 7 8 (omega arith) (omega arith))
      (request-IsInfo 7 8 (omega arith) (omega arith)) (omega arith) refl refl refl refl

request_crashes_example :
    handle_add_friend_req sample_env (request_packet 7 9) 70 sample_world ≡ fault null
unfolding select_user find
request_crashes_example =
    request_crashes sample_env (request_packet 7 9) (request 7 9) 1 70 sample_world refl
      (request-Carries 7 9 (omega arith) (omega arith))
      (request-IsInfo 7 9 (omega arith) (omega arith)) refl

crashes : handle_data sample_env (request_packet 7 9) 70 sample_world ≡ fault null
unfolding select_user find handler message_code
crashes =
    handle_data-message_code sample_env add_friend_request (request_packet 7 9) 70 sample_world refl
    ∙ request_crashes sample_env (request_packet 7 9) (request 7 9) 1 70 sample_world refl
        (request-Carries 7 9 (omega arith) (omega arith))
        (request-IsInfo 7 9 (omega arith) (omega arith)) refl

handle_data_null_example :
    ((request_packet 7 9).func_id ≡ message_code add_friend_request)
    × ((source : Text) × AsksUnregistered sample_env (request_packet 7 9) sample_world source)
unfolding new_users_dao new_friend_ship_dao
handle_data_null_example =
    handle_data_null sample_env 0 1 refl refl (request_packet 7 9) 70 sample_world crashes

-- Bob asks Ann again, who is connected.
abbrev asked_twice : Tables
asked_twice = record sample_tables { friendships = asked ∷ asked ∷ [] }

abbrev inform_body : Text
inform_body = shifted (
    InformFriendApply.to_json sample_json (
      InformFriendApply.add_friend_apply (public_of (record bob { email = [] }))
        (InformFriendApply.new_message sample_env.memory (sample_env.stamp 1) 0 [])))

request_informs_example :
    (bytes : Bytes) × (handle_add_friend_req sample_env (request_packet 8 7) 80 sample_world
      ≡ done (schedule (send (some 70) bytes) (with_db asked_twice)))
    × Delivers sample_bytes bytes 0xc (λ text.
      (memory : Memory) (n : Message InformFriendApply.Info)
      → InformFriendApply.cast_from_string sample_json memory text n ≡ n)
unfolding select_user find insert new_friend_ship_dao map_record_to_colums stoull to_string
    placeholders select_info_due_id new_users_dao rows_of InformFriendApply.to_json
    InformFriendApply.add_friend_apply InformFriendApply.new_message created_base status_code
request_informs_example =
    request_informs sample_env sample_bytes (request_packet 8 7) (request 8 7) 80 70 sample_world
      true asked_twice (record bob { email = [] }) inform_body sample_json-IsJsonLibrary
      sample_bytes-IsByteArray length-array (request-Carries 8 7 (omega arith) (omega arith)) refl
      refl refl refl refl (omega arith)
