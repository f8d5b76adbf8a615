-- ===== src/DataHandle/Conversation/Chatting.antt =====
-- A login, and then a chat message to the user who logged in.

use app_server.Base.{
  ℕ, ◌≡◌, ◌<◌, ◌^◌, refl, ◌∙◌, some, none, [], ◌∷◌, done, Bytes, Text, length, All, ==_refl,
}
use app_server.Packet.{ByteArray, IsByteArray, body_capacity}
use app_server.Json.{IsJsonLibrary}
use app_server.Message.{Message, message_code, chat, log_request}
use app_server.Message.Person.{IsPublic}
use app_server.Message.Chat
use app_server.Message.LoginRequest
use app_server.UserConnectionManager.{add_user, select_user}
use app_server.UserConnectionManager.Routing.{routes}
use app_server.MysqlInteractor.UsersDao.{UsersTableData, select_info_due_user_name}
use app_server.DataHandle.{Env, met, World, schedule, send, handle_data}
use app_server.DataHandle.Delivery.{Delivers}
use app_server.DataHandle.Incoming.{Carries}
use app_server.DataHandle.Dispatch.{handler, handle_data-message_code}
use app_server.DataHandle.ChatRouting.{incoming, chat_reaches_receiver}
use app_server.DataHandle.Login.Accounts.{login_accepted}
use app_server.DataHandle.Login.Session.{Answers, logged_in, log_in_answers}
use app_server.DataHandle.Login.Reachable.{select_user-add_user}
use app_server.DataHandle.Conversation.{Arrival, handle_all}

two_handled :
    (E : Env) (a b : Arrival) (w w' w'' : World E.connector)
    → handle_data (met E a.moment) a.packet a.client w ≡ done w'
    → handle_data (met E b.moment) b.packet b.client w' ≡ done w''
    → handle_all E (a ∷ b ∷ []) w ≡ done w''
unfolding handle_all
two_handled E a b w w' w'' h k = rw (h, k) refl

-- The first login of a user gives the user the socket.
first_login :
    (place uid client : ℕ) (E : Env) (w : World E.connector)
    → routes w.manager uid ≡ none
    → select_user uid (add_user place uid (some client) w.manager).0 ≡ some client
first_login place uid client E w free =
    rw (select_user-add_user place uid uid (some client) w.manager, ==_refl uid, free) refl

-- The login of a user whose password fits, who has no socket yet and whose two answers exist as
-- texts that are shorter than the array of a packet, and then a chat message to that user from any
-- socket, whose text is shorter too: both packets are handled to their end, and the message is sent
-- to the socket of the login, where a reader of its bytes, whatever follows them, finds the
-- content, names and ids that the sender gave.
pub login_then_chat :
    (E : Env) (ba : ByteArray) (login message : Arrival) (i : LoginRequest.Info) (m : Chat.Info)
    (user : UsersTableData) (w : World E.connector) (body body_cache body_chat : Text)
    → IsJsonLibrary E.json
    → IsByteArray ba
    → length login.moment.memory.array ≡ body_capacity
    → length message.moment.memory.array ≡ body_capacity
    → login.packet.func_id ≡ message_code log_request
    → Carries E.json (LoginRequest.info_from_json E.json) login.packet i
    → select_info_due_user_name E.connector login.moment.memory E.users_dao i.username w.db
      ≡ done user
    → user.password ≡ i.password
    → user.id < 2 ^ 64
    → routes w.manager user.id ≡ none
    → (a : Answers (met E login.moment) user login.client w body body_cache) → All IsPublic a.cache
    → length body < body_capacity
    → length body_cache < body_capacity
    → message.packet.func_id ≡ message_code chat
    → Carries E.json (Chat.info_from_json E.json) message.packet m
    → Chat.IsInfo m
    → m.uid_receiver ≡ user.id
    → E.json.dump (Chat.to_json E.json (incoming (met E message.moment) m)) ≡ some body_chat
    → length body_chat < body_capacity
    → (b₁ b₂ bytes : Bytes) × (handle_all E (login ∷ message ∷ []) w
        ≡ done (
            schedule
              (send (some login.client) bytes)
              (logged_in (met E login.moment) user login.client w b₁ b₂)))
      × Delivers ba bytes 0x01 (λ text.
        (n : Message Chat.Info) → Chat.cast_from_string E.json text n ≡ record n { info = m })
unfolding handler
login_then_chat E ba login message i m user w body body_cache body_chat json bytes hm hm₂ logs asks
      found fits hid free a public lt lt_cache chats says hm' to dumps lt_chat =
    let E₁ = met E login.moment in
    let E₂ = met E message.moment in
    let (b₁, b₂, answers, _, _) =
      log_in_answers E₁ ba user login.client w body body_cache json bytes hm hid a public lt
        lt_cache in
    let w' = logged_in E₁ user login.client w b₁ b₂ in
    let online : select_user m.uid_receiver w'.manager ≡ some login.client =
      rw to (first_login login.moment.place user.id login.client E w free) in
    let (out, chatted, delivers) =
      chat_reaches_receiver E₂ ba message.packet m message.client login.client w' body_chat json
        bytes hm₂ says hm' online dumps lt_chat in
    (
      b₁,
      b₂,
      out,
      two_handled E login message w w' _
          (handle_data-message_code E₁ log_request login.packet login.client w logs
            ∙ login_accepted E₁ login.packet i asks login.client w user found fits
            ∙ answers)
          (handle_data-message_code E₂ chat message.packet message.client w' chats ∙ chatted),
      delivers,
    )
