-- ===== src/Tests/Conversations.antt =====
-- Sequences of packets at concrete inputs.
use mathlib.Core.List.{Mem}
use app_server.DataHandle.Conversation.Followed.{Packets, wish, nothing, Some, handle_all-table}
use app_server.Base.{ℕ, ◌≡◌, refl, some, true, [], ◌∷◌, List, Bytes, literal, arith, done}
use app_server.Packet.{TcpPacket}
use app_server.Decimal.{to_string, stoull}
use app_server.Message.{Message, created_base, status_code, message_code}
use app_server.Message.Person.{public_to_json, publics_to_json, private_to_json}
use app_server.Message.Chat
use app_server.Message.Cache
use app_server.Message.LoginResponse
use app_server.Message.FriendConfirm
use app_server.UserConnectionManager.{find, select_user}
use app_server.UserConnectionManager.Routing.{routes}
use app_server.MysqlInteractor.FriendShipDao.{FriendShipTableData}
use app_server.MysqlInteractor.Statements.{placeholders}
use app_server.MysqlInteractor.Friendships.Lists.{friends}
use app_server.DataHandle.{schedule, send}
use app_server.DataHandle.Incoming.{Carries}
use app_server.DataHandle.Delivery.{Delivers}
use app_server.DataHandle.Login.Session.{logged_in}
use app_server.DataHandle.Conversation.{Arrival, handle_all}
use app_server.DataHandle.Conversation.Chatting.{login_then_chat}
use app_server.DataHandle.Conversation.Friending.{
  Wish, ask, accept, asks, accepts, Granted, grant, finish, all_granted, all_granted-handle_all,
  request_then_accept,
}
use app_server.Tests.Streams.{sample_bytes, sample_bytes-IsByteArray}
use app_server.Tests.Values.{sample_json, sample_json-IsJsonLibrary}
use app_server.Tests.Tables.{Tables, sample_connector-IsFriendTable, friendships_of}
use app_server.Tests.Setting.{
  sample_env, sample_moment, sample_world, sample_tables, packet_of, packet_of-Carries,
  length-array,
}
use app_server.Tests.Chats.{hello, hello-IsInfo, hello_body, hello_packet, hello-Carries}
use app_server.Tests.Logins.{
  right, right_packet, right-Carries, quiet, read_ann, response_body, cache_body, quiet-Answers,
  ann_found,
}
use app_server.Tests.Requests.{
  request, request_packet, request-IsInfo, request-Carries, both_asked, with_db,
}

-- A packet that comes in while the sample environment is met.
abbrev pub from : ℕ → TcpPacket → Arrival
from client packet = record { packet = packet; client = client; moment = sample_moment }

login_then_chat_example :
    (b₁ b₂ bytes : Bytes) × (handle_all sample_env
        (from 90 right_packet ∷ from 80 hello_packet ∷ [])
        quiet
      ≡ done (schedule (send (some 90) bytes) (logged_in sample_env read_ann 90 quiet b₁ b₂)))
    × Delivers sample_bytes bytes 0x01 (λ text.
      (n : Message Chat.Info)
      → Chat.cast_from_string sample_json text n ≡ record n { info = hello })
unfolding quiet-Answers LoginResponse.to_json public_to_json LoginResponse.set_successful
    LoginResponse.new_message private_to_json publics_to_json Cache.to_json Cache.new_message
    created_base status_code to_string Chat.to_json Chat.new_message routes find message_code
login_then_chat_example =
    login_then_chat sample_env sample_bytes (from 90 right_packet) (from 80 hello_packet) right
      hello read_ann quiet response_body cache_body hello_body sample_json-IsJsonLibrary
      sample_bytes-IsByteArray length-array length-array refl right-Carries ann_found refl
      (omega arith) refl quiet-Answers
      (
        record { id = omega arith; age = omega arith },
        (record { id = omega arith; age = omega arith }, tt),
      )
      (omega arith) (omega arith) refl hello-Carries hello-IsInfo refl refl (omega arith)

-- Ann asks Bob, and he accepts.
abbrev pub yes : FriendConfirm.Info
yes = record { friend_id = 7; own_id = 8; success = true }

pub yes-IsInfo : FriendConfirm.IsInfo yes
yes-IsInfo = record { friend_id = omega arith; own_id = omega arith }

abbrev pub yes_packet : TcpPacket
yes_packet = packet_of 0xb (FriendConfirm.info_to_json sample_json yes)

pub yes-Carries : Carries sample_json (FriendConfirm.info_from_json sample_json) yes_packet yes
unfolding FriendConfirm.info_to_json
yes-Carries =
    packet_of-Carries 0xb (FriendConfirm.info_from_json sample_json)
      (FriendConfirm.info_to_json sample_json yes) yes
      (FriendConfirm.info_from_json-info_to_json sample_json-IsJsonLibrary yes yes-IsInfo)
      (omega arith)

abbrev pub befriended : Tables
befriended =
    let row : FriendShipTableData = record {
      friendship_1 = 7;
      friendship_2 = 8;
      status = literal "accepted";
    } in
    record sample_tables { friendships = row ∷ row ∷ [] }

abbrev pub two_packets : List Arrival
two_packets = from 70 (request_packet 7 8) ∷ from 80 yes_packet ∷ []

abbrev pub two_wishes : List Wish
two_wishes = ask 8 7 ∷ accept 7 8 ∷ []

both-Granted : Granted sample_env two_packets two_wishes sample_world (with_db befriended)
unfolding placeholders select_user find stoull to_string message_code
both-Granted =
    grant (from 70 (request_packet 7 8)) (ask 8 7) (accept 7 8 ∷ []) both_asked
      (asks (request 7 8) refl (request-Carries 7 8 (omega arith) (omega arith))
        (request-IsInfo 7 8 (omega arith) (omega arith)))
      ((refl, refl), (80, refl, refl))
      (grant (from 80 yes_packet) (accept 7 8) [] befriended
        (accepts yes refl yes-Carries yes-IsInfo refl) (refl, refl) finish)

all_granted-handle_all_example :
    (handle_all sample_env two_packets sample_world ≡ done (with_db befriended))
    × (befriended.friendships ≡ all_granted two_wishes sample_tables.friendships)
    × ((with_db befriended).manager ≡ sample_world.manager)
    × ((with_db befriended).scheduled ≡ sample_world.scheduled)
all_granted-handle_all_example =
    all_granted-handle_all sample_env 1 refl sample_connector-IsFriendTable both-Granted

request_then_accept_example :
    (handle_all sample_env two_packets sample_world ≡ done (with_db befriended))
    × Mem 7 (friends 8 befriended.friendships)
    × Mem 8 (friends 7 befriended.friendships)
request_then_accept_example =
    request_then_accept sample_env 1 two_packets 8 7 sample_world (with_db befriended) refl
      friendships_of sample_connector-IsFriendTable both-Granted

pub two_say : Packets sample_env two_packets two_wishes
unfolding message_code
two_say =
    wish (from 70 (request_packet 7 8)) (ask 8 7)
      (asks (request 7 8) refl (request-Carries 7 8 (omega arith) (omega arith))
        (request-IsInfo 7 8 (omega arith) (omega arith)))
      (wish (from 80 yes_packet) (accept 7 8) (accepts yes refl yes-Carries yes-IsInfo refl)
        nothing)

both_handled : handle_all sample_env two_packets sample_world ≡ done (with_db befriended)
both_handled =
    (all_granted-handle_all sample_env 1 refl sample_connector-IsFriendTable both-Granted).0

handle_all-table_example :
    (gs : List Wish) × Some gs two_wishes
    × (befriended.friendships ≡ all_granted gs sample_tables.friendships)
handle_all-table_example =
    handle_all-table sample_env 1 refl sample_connector-IsFriendTable sample_world
      (with_db befriended) two_say both_handled
