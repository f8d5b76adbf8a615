-- ===== src/Server/Sessions.antt =====
-- A login, anything that the server does after it, and a chat message to the user who logged in.

use app_server.Base.{
  ℕ, ◌≡◌, ◌<◌, refl, sym, ◌∙◌, some, none, List, ◌∷◌, ◌++◌, done, Bytes, Text, length, take, arith,
  ==_refl, >>=-eq-done,
}
use app_server.Packet.{TcpPacket, ByteArray, IsByteArray, body_capacity, header}
use app_server.Packet.RoundTrip.{IsPacket, received}
use app_server.Json.{IsJsonLibrary}
use app_server.Message.{Message, message_code, chat, log_request}
use app_server.Message.Chat
use app_server.Message.LoginRequest
use app_server.UserConnectionManager.{Manager, select_user, add_user}
use app_server.UserConnectionManager.Routing.{
  routes, spec_call, routes-add_user, select_user-routes,
}
use app_server.MysqlInteractor.UsersDao.{UsersTableData, select_info_due_user_name}
use app_server.DataHandle.{Env, Moment, met, World, handle_data}
use app_server.DataHandle.Delivery.{Delivers}
use app_server.DataHandle.Incoming.{Carries}
use app_server.DataHandle.Dispatch.{handler, handle_data-message_code}
use app_server.DataHandle.Frame.{log_in_manager}
use app_server.DataHandle.ChatRouting.{incoming}
use app_server.DataHandle.Login.Accounts.{login_accepted}
use app_server.Server.{Server, Read, IsRead, got, handle_client}
use app_server.Server.Packets.{handle_client_first}
use app_server.Server.Reader.{Loop, Reach, Fires, with_events}
use app_server.Server.Validity.{Reach-routes}
use app_server.Server.Delivery.{Answers, chat_is_written}

-- A login packet that a socket delivered.
pub record IsLogin (E : Env) (k : Moment) (p : TcpPacket) (user : UsersTableData)
    (w : World E.connector) : Type 0 where
  pub packet : IsPacket p
  pub func_id : p.func_id ≡ message_code log_request
  pub info : LoginRequest.Info
  pub says :
      Carries E.json (LoginRequest.info_from_json E.json) (received p (take p.length p.body)) info
  pub found :
      select_info_due_user_name E.connector k.memory E.users_dao info.username w.db ≡ done user
  pub password : user.password ≡ info.password

-- A chat packet.
pub record IsChat (E : Env) (k : Moment) (p : TcpPacket) (i : Chat.Info) (body : Text)
    : Type 0 where
  pub packet : IsPacket p
  pub func_id : p.func_id ≡ message_code chat
  pub says : Carries E.json (Chat.info_from_json E.json) (received p (take p.length p.body)) i
  pub fits : Chat.IsInfo i
  pub array : length k.memory.array ≡ body_capacity
  pub dumps : E.json.dump (Chat.to_json E.json (incoming (met E k) i)) ≡ some body
  pub short : length body < body_capacity

routed :
    (place uid c : ℕ) (m : Manager)
    → routes m uid ≡ none
    → routes (add_user place uid (some c) m).0 uid ≡ some (some c)
unfolding spec_call
routed place uid c m free = rw (routes-add_user place uid uid (some c) m, free, ==_refl uid) refl

module _ (E : Env) {ba : ByteArray} (laws : IsByteArray ba) where
  login_routed :
      (k : Moment) (c : ℕ) (p : TcpPacket) (rest : Bytes) (read : Read) (user : UsersTableData)
      (s s' : Server E.connector)
      → IsLogin E k p user s.world
      → read 4096 ≡ got (header p ++ take p.length p.body ++ rest)
      → routes s.world.manager user.id ≡ none
      → handle_client (met E k) ba c read s ≡ done s'
      → routes s'.world.manager user.id ≡ some (some c)
  unfolding handler
  login_routed k c p rest read user s s' i h free handles =
      let q = received p (take p.length p.body) in
      let first = handle_client_first (met E k) laws c s read p rest i.packet h in
      let (w, logs, e) = >>=-eq-done (handle_data (met E k) q c s.world) _ (sym first ∙ handles) in
      let login =
        sym (login_accepted (met E k) q i.info i.says c s.world user i.found i.password)
        ∙ sym (handle_data-message_code (met E k) log_request q c s.world i.func_id)
        ∙ logs in
      let same : s'.world.manager ≡ w.manager = ground arith in
      rw (same, log_in_manager (met E k) user c s.world w login)
        (routed k.place user.id c s.world.manager free)

  -- After the event of a socket that delivers a login with the right password of a user who had no
  -- socket, and any bytes behind it, where that event is handled to its end, let any accepts,
  -- events, tasks and timers follow, in any order. A whole chat packet for that user, and any bytes
  -- behind it, that a read of a watched socket then gives, whose message fits its types and whose
  -- answer exists as a text that is shorter than the array of a packet, is answered in two steps:
  -- the event with this read is handled to its end, and the task that it schedules writes bytes to
  -- the socket of the login, from which a reader, whatever follows them, takes the content, names
  -- and ids that the sender gave.
  pub chat_after_login :
      (l l' m : Loop E) (k k' : Moment) (before after : List ℕ) (c d : ℕ) (p p' : TcpPacket)
      (rest rest' : Bytes) (read read' : Read) (user : UsersTableData) (i : Chat.Info) (body : Text)
      → IsJsonLibrary E.json
      → IsLogin E k p user l.server.world
      → read 4096 ≡ got (header p ++ take p.length p.body ++ rest)
      → routes l.server.world.manager user.id ≡ none
      → Fires E ba k c read l l'
      → Reach E ba l' m
      → m.server.events ≡ before ++ d ∷ after
      → IsRead read'
      → read' 4096 ≡ got (header p' ++ take p'.length p'.body ++ rest')
      → IsChat E k' p' i body
      → i.uid_receiver ≡ user.id
      → (bytes : Bytes) × Answers E ba k' d read' c bytes m
        × Delivers ba bytes 0x01 (λ text.
          (x : Message Chat.Info) → Chat.cast_from_string E.json text x ≡ record x { info = i })
  chat_after_login l l' m k k' before after c d p p' rest rest' read read' user i body json login h
        free fires reach event reads h' says to =
      let s = with_events E ba (fires.before ++ fires.after) l.server in
      let start = login_routed k c p rest read user s l'.server login h free fires.handles in
      let now = Reach-routes E ba user.id (some c) reach start in
      let online : select_user i.uid_receiver m.server.world.manager ≡ some c =
        rw (to, select_user-routes m.server.world.manager user.id, now) refl in
      chat_is_written E ba m k' before after d c p' rest' read' i body json laws says.array event
        reads h' says.packet says.func_id says.says says.fits online says.dumps says.short
