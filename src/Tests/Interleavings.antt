-- ===== src/Tests/Interleavings.antt =====
-- Handlers that run at once, at concrete inputs.
use mathlib.Core.List.{Perm}
use app_server.Base.{◌≡◌, refl, false, some, List, [], ◌∷◌, ◌++◌, Bytes, arith, done}
use app_server.Message.{Message, message_code, created_base, status_code}
use app_server.Message.Chat
use app_server.Decimal.{to_string, stoull}
use app_server.UserConnectionManager.{find, select_user}
use app_server.MysqlInteractor.Statements.{placeholders}
use app_server.Environment.{met, send}
use app_server.DataHandle.{handle_data}
use app_server.DataHandle.Delivery.{Delivers}
use app_server.DataHandle.Conversation.{Arrival}
use app_server.DataHandle.Conversation.Friending.{
  Wish, ask, accept, asks, accepts, all_granted, wish_granted,
}
use app_server.DataHandle.Conversation.Followed.{Packets, wish, nothing}
use app_server.Threads.{Program, returns, run_alone}
use app_server.Threads
use app_server.Threads.Handlers
use app_server.Threads.Statements
use app_server.Message.{cast_info}
use app_server.Message.AddFriendRequest
use app_server.Message.FriendConfirm
use app_server.MysqlInteractor.{new_friend_ship_dao}
use app_server.Base.{text_eq}
use app_server.Threads.Handlers.{handle_data_steps}
use app_server.Packet.{c_string, cleared}
use app_server.Threads.Machine.{Machine, Reach, begins, arrives, arrived, at_rest, has_crashed}
use app_server.Threads.Serial.{Reach-table}
use app_server.Threads.Undisturbed.{handle_data-Reach}
use app_server.Threads.Delivery.{Answered, chat_is_scheduled}
use app_server.Threads.Ends.{Inevitable}
use app_server.Tests.Streams.{sample_bytes, sample_bytes-IsByteArray}
use app_server.Tests.Values.{sample_json, sample_json-IsJsonLibrary}
use app_server.Tests.Tables.{sample_connector, sample_connector-IsFriendTable}
use app_server.Tests.Setting.{sample_env, sample_world, sample_tables, length-array}
use app_server.Tests.Chats.{hello, hello-IsInfo, hello_body, hello_packet, hello-Carries}
use app_server.Tests.Requests.{
  request, request_packet, request-IsInfo, request-Carries, both_asked, with_db,
}
use app_server.Tests.Conversations.{from, yes, yes_packet, yes-Carries, yes-IsInfo, befriended}

-- Ann's request and Bob's answer arrive before either handler runs.
abbrev asking : Arrival
asking = from 70 (request_packet 7 8)

abbrev answering : Arrival
answering = from 80 yes_packet

abbrev steps_of : Arrival → Program sample_connector (Unit {0})
steps_of a = handle_data_steps (met sample_env a.moment) a.packet a.client

asking-handled :
    handle_data (met sample_env asking.moment) asking.packet 70 sample_world
    ≡ done (with_db both_asked)
unfolding placeholders select_user find stoull to_string message_code
asking-handled =
    (wish_granted sample_env 1 refl sample_connector-IsFriendTable asking (ask 8 7) sample_world
      both_asked
      (asks (request 7 8) refl (request-Carries 7 8 (omega arith) (omega arith))
        (request-IsInfo 7 8 (omega arith) (omega arith)))
      ((refl, refl), (80, refl, refl))).0

answering-handled :
    handle_data (met sample_env answering.moment) yes_packet 80 (with_db both_asked)
    ≡ done (with_db befriended)
unfolding placeholders select_user find stoull to_string message_code
answering-handled =
    (wish_granted sample_env 1 refl sample_connector-IsFriendTable answering (accept 7 8)
      (with_db both_asked) befriended (accepts yes refl yes-Carries yes-IsInfo refl) (refl, refl)).0

asking_runs : has_crashed (steps_of asking ∷ []) ≡ false
unfolding handle_data_steps Handlers.handle_add_friend_req_steps Threads.◌>>=◌ c_string
    AddFriendRequest.info_to_json cleared Statements.insert_steps new_friend_ship_dao
asking_runs = refl

answering_runs : has_crashed (steps_of answering ∷ []) ≡ false
unfolding handle_data_steps Handlers.handle_friend_confirm_steps Threads.◌>>=◌ c_string
    FriendConfirm.info_to_json cleared FriendConfirm.cast_from_string cast_info
    FriendConfirm.info_from_json text_eq Statements.change_friend_ship_status_steps
    new_friend_ship_dao
answering_runs = refl

both-Reach :
    Reach sample_env
      (at_rest sample_world)
      (answering ∷ asking ∷ [])
      (record { world = with_db befriended; threads = returns tt ∷ returns tt ∷ [] })
both-Reach =
    let asked' : Reach sample_env (at_rest sample_world) (asking ∷ [])
        (arrived sample_env asking (at_rest sample_world)) =
      arrives begins asking refl in
    let start = arrives asked' answering asking_runs in
    let first =
      handle_data-Reach sample_env (at_rest sample_world) (steps_of answering ∷ []) []
        answering_runs asking sample_world (with_db both_asked) asking-handled start in
    handle_data-Reach sample_env (at_rest sample_world) [] (returns tt ∷ []) refl answering
      (with_db both_asked) (with_db befriended) answering-handled first

both_say : Packets sample_env (answering ∷ asking ∷ []) (accept 7 8 ∷ ask 8 7 ∷ [])
unfolding message_code
both_say = wish answering (accept 7 8) (accepts yes refl yes-Carries yes-IsInfo refl) (
    wish asking (ask 8 7)
      (asks (request 7 8) refl (request-Carries 7 8 (omega arith) (omega arith))
        (request-IsInfo 7 8 (omega arith) (omega arith)))
      nothing)

Reach-table_example :
    (gs : List Wish) × (rest : List Wish) × Perm (gs ++ rest) (accept 7 8 ∷ ask 8 7 ∷ [])
    × (befriended.friendships ≡ all_granted gs sample_tables.friendships)
Reach-table_example =
    Reach-table sample_env (some 1) refl sample_connector-IsFriendTable sample_world both-Reach
      both_say

-- A chat message arrives, then Ann's request, which is handled first.
abbrev chatting : Arrival
chatting = from 80 hello_packet

abbrev chat_waits : Machine sample_connector
chat_waits = arrived sample_env chatting (at_rest sample_world)

chatting_runs : has_crashed (steps_of chatting ∷ []) ≡ false
unfolding handle_data_steps Handlers.handle_chat_message_steps Threads.◌>>=◌ c_string
    Chat.info_to_json cleared
chatting_runs = refl

chat-Reach :
    Reach sample_env chat_waits
      (asking ∷ [])
      (record { world = with_db both_asked; threads = returns tt ∷ steps_of chatting ∷ [] })
chat-Reach =
    handle_data-Reach sample_env chat_waits [] (steps_of chatting ∷ []) chatting_runs asking
      sample_world (with_db both_asked) asking-handled (arrives begins asking chatting_runs)

chat_is_scheduled_example :
    (bytes : Bytes) × Delivers sample_bytes bytes 0x01 (λ text.
      (n : Message Chat.Info)
      → Chat.cast_from_string sample_json text n ≡ record n { info = hello })
    × Inevitable
        (Answered (send (some 70) bytes))
        (record { world = with_db both_asked; threads = returns tt ∷ steps_of chatting ∷ [] })
unfolding select_user find Chat.to_json Chat.new_message created_base status_code message_code
    to_string
chat_is_scheduled_example =
    chat_is_scheduled sample_env sample_bytes (at_rest sample_world) chatting hello 70 hello_body
      sample_json-IsJsonLibrary sample_bytes-IsByteArray length-array refl hello-Carries
      hello-IsInfo refl refl (omega arith) chat-Reach
