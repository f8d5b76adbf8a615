-- ===== src/DataHandle.antt =====
-- class DataHandleMachine: src/MyTcpServer/include/DataHandle.h and src/MyTcpServer/src/DataHandle.cpp.
-- Logging is left out; what a handler schedules is a list of tasks in the order of the calls.
pub mod Incoming
pub mod Delivery
pub mod Dispatch
pub mod ChatRouting
pub mod Registration
pub mod Login
pub mod Friends
pub mod Frame
pub mod Friendships
pub mod Sends
pub mod Nulls
pub mod Requests
pub mod Conversation
pub use app_server.Environment.{Task, send, watch_read, Env, Moment, met, World, schedule}
use app_server.Base.{
  ℕ, zero, suc, ◌+◌, Bool, true, false, Option, none, some, List, [], ◌∷◌, ◌++◌, Bytes, Text,
  literal, text_eq, pos, ◌==◌, if◌then◌else◌, Outcome, done, fault, null, thrown, or_fault, ◌>>=◌,
}
use app_server.Packet.{TcpPacket, c_string, serialize, answer, reply}
use app_server.Json.{JsonLibrary}
use app_server.Message.{Memory, Stamp, Message}
use app_server.Message.Person.{PersonalPublicInfo, PersonalPrivateInfo, new_public_info}
use app_server.Message.Chat
use app_server.Message.VerifyCode
use app_server.Message.VerifyCodeRes
use app_server.Message.LoginRequest
use app_server.Message.LoginResponse
use app_server.Message.Cache
use app_server.Message.RegisterRequest
use app_server.Message.RegisterResponse
use app_server.Message.AddFriendRequest
use app_server.Message.InformFriendApply
use app_server.Message.DeleteFriend
use app_server.Message.FriendConfirm
use app_server.UserConnectionManager.{SocketPtr, Manager, add_user, select_user}
use app_server.MysqlInteractor.{Connector, Dao, insert}
use app_server.MysqlInteractor.UsersDao
use app_server.MysqlInteractor.UsersDao.{
  UsersTableData, new_user, select_info_due_user_name, select_info_due_id, get_all_user_public_info,
}
use app_server.MysqlInteractor.FriendShipDao
use app_server.MysqlInteractor.FriendShipDao.{
  FriendShipTableData, select_all_friend_ship, select_all_friend_apply, change_friend_ship_status,
  remove_friendship,
}

module _ (E : Env) where
  open E use {json, connector, users_dao, friend_ship_dao, connected, stamp, memory}

  -- `dump` throws where a text is not UTF-8.
  abbrev dumped : json.Json → Outcome Text
  dumped j = or_fault thrown (json.dump j)

  unfoldable pub handle_verify_code : TcpPacket → ℕ → World connector → Outcome (World connector)
  handle_verify_code packet client w = do
    source ← c_string packet.body
    let msg = VerifyCode.cast_from_string json source (VerifyCode.new_message (stamp 0) [])
    let code = E.generate_verification_code w.codes
    let w' : World connector = record w { codes = suc w.codes }
    if E.send_email w.codes (VerifyCode.get_email msg) code
        then (do
          body ← dumped (VerifyCodeRes.to_json json (VerifyCodeRes.new_message (stamp 1) code))
          bytes ← reply memory.array 0x07 body
          done (schedule (send (some client) bytes) w'))
        else done (schedule (send (some client) (literal "0")) w')

  unfoldable pub handle_chat_message : TcpPacket → ℕ → World connector → Outcome (World connector)
  handle_chat_message packet client w = do
    source ← c_string packet.body
    let msg = Chat.cast_from_string json source (Chat.new_message memory (stamp 0) [] [] [])
    elim (select_user (Chat.get_uid_receiver msg) w.manager) [
      | some receiver ↦ do
        body ← dumped (Chat.to_json json msg)
        bytes ← reply memory.array 0x01 body
        done (schedule (send (some receiver) bytes) w)
      | none ↦ do bytes ← serialize packet; done (schedule (send (some client) bytes) w)
    ]

  -- The loops over friends and over applications.
  unfoldable pub public_infos_of : List ℕ → connector.Db → Outcome (List PersonalPublicInfo)
  public_infos_of [] db = done []
  public_infos_of (id ∷ ids) db = do
    user ← select_info_due_id connector memory users_dao id db
    rest ← public_infos_of ids db
    done (new_public_info user.username user.id (pos 18) user.email ∷ rest)

  -- The private part of a login response.
  unfoldable pub private_info_of : UsersTableData → connector.Db → Outcome PersonalPrivateInfo
  unfolding public_infos_of
  private_info_of user db = do
    friends ← select_all_friend_ship connector friend_ship_dao user.id db
    friend_list ← public_infos_of friends db
    applications ← select_all_friend_apply connector friend_ship_dao user.id db
    friend_apply ← public_infos_of applications db
    done (record {
      password = user.password;
      friend_list = friend_list;
      friend_apply = friend_apply;
    })

  -- The branch in which the password fits.
  unfoldable pub log_in : UsersTableData → ℕ → World connector → Outcome (World connector)
  unfolding private_info_of
  log_in user client w = do
    private_info ← private_info_of user w.db
    cache ← get_all_user_public_info connector users_dao w.db
    let public_info = new_public_info user.username user.id (pos 18) user.email
    let cache_msg = Cache.new_message (stamp 1) cache
    let response = LoginResponse.new_message (stamp 2) public_info private_info false
    let response' = LoginResponse.set_successful response
    body ← dumped (LoginResponse.to_json json response')
    body_cache ← dumped (Cache.to_json json cache_msg)
    packet_res ← answer memory.array 0x03 body
    packet_cache ← answer memory.array 0x0e body_cache
    let w' : World connector = record w {
      manager = (add_user E.place user.id (some client) w.manager).0;
    }
    bytes ← serialize packet_res
    let w'' = schedule (send (some client) bytes) w'
    bytes_cache ← serialize packet_cache
    done (schedule (send (some client) bytes_cache) w'')

  unfoldable pub handle_login_message : TcpPacket → ℕ → World connector → Outcome (World connector)
  handle_login_message packet client w = do
    source ← c_string packet.body
    let msg = LoginRequest.cast_from_string json source (LoginRequest.new_message (stamp 0) [] [])
    user ← select_info_due_user_name connector memory users_dao (LoginRequest.get_username msg) w.db
    if text_eq user.password (LoginRequest.get_password msg) then log_in user client w else done w

  -- What either branch of the registration sends.
  unfoldable pub respond_reg : Bool → ℕ → World connector → Outcome (World connector)
  respond_reg success client w = do
    body ← dumped (RegisterResponse.to_json json (RegisterResponse.new_message (stamp 1) success))
    bytes ← reply memory.array 0x05 body
    done (schedule (send (some client) bytes) w)

  unfoldable pub handle_reg_message : TcpPacket → ℕ → World connector → Outcome (World connector)
  unfolding respond_reg
  handle_reg_message packet client w = do
    source ← c_string packet.body
    let msg =
        RegisterRequest.cast_from_string json source
          (RegisterRequest.new_message (stamp 0) [] [] [])
    let user =
        new_user memory (RegisterRequest.get_username msg) (RegisterRequest.get_password msg)
          (RegisterRequest.get_email msg)
    (success, db) ← insert connector users_dao (UsersDao.map_record_to_colums user) w.db
    let w' : World connector = record w { db = db }
    if success then respond_reg true client w' else respond_reg false client w'

  -- The branch in which the friend is connected.
  unfoldable pub inform : ℕ → ℕ → World connector → Outcome (World connector)
  inform own_id friend w = do
    user ← select_info_due_id connector memory users_dao own_id w.db
    let applicant = new_public_info user.username user.id (pos 18) user.email
    let msg =
        InformFriendApply.add_friend_apply applicant
          (InformFriendApply.new_message memory (stamp 1) 0 [])
    body ← dumped (InformFriendApply.to_json json msg)
    bytes ← reply memory.array 0xc body
    done (schedule (send (some friend) bytes) w)

  -- The pointer that selectUser returns is dereferenced without a test.
  unfoldable pub handle_add_friend_req : TcpPacket → ℕ → World connector → Outcome (World connector)
  unfolding inform
  handle_add_friend_req packet client w = do
    source ← c_string packet.body
    let msg =
        AddFriendRequest.cast_from_string json source
          (AddFriendRequest.new_message (stamp 0) [] 0 [] 0)
    let row : FriendShipTableData = record {
      friendship_1 = AddFriendRequest.get_own_id msg;
      friendship_2 = AddFriendRequest.get_friend_id msg;
      status = literal "pending";
    }
    (success, db) ← insert connector friend_ship_dao (FriendShipDao.map_record_to_colums row) w.db
    let w' : World connector = record w { db = db }
    friend ← or_fault null (select_user (AddFriendRequest.get_friend_id msg) w.manager)
    if connected friend then inform (AddFriendRequest.get_own_id msg) friend w' else done w'

  unfoldable pub handle_delete_friend : TcpPacket → ℕ → World connector → Outcome (World connector)
  handle_delete_friend packet client w = do
    source ← c_string packet.body
    let msg = DeleteFriend.cast_from_string json source (DeleteFriend.new_message (stamp 0) [] 0 0)
    (success, db) ←
        remove_friendship connector friend_ship_dao (DeleteFriend.get_friend_id msg)
          (DeleteFriend.get_own_id msg) w.db
    done (record w { db = db })

  unfoldable pub handle_friend_confirm : TcpPacket → ℕ → World connector → Outcome (World connector)
  handle_friend_confirm packet client w = do
    source ← c_string packet.body
    let msg =
        FriendConfirm.cast_from_string json source (FriendConfirm.new_message (stamp 0) false 0 0)
    let friend_id = FriendConfirm.get_friend_id msg
    let own_id = FriendConfirm.get_own_id msg
    if FriendConfirm.ifaccept msg
        then (do
          (success, db) ←
              change_friend_ship_status connector friend_ship_dao friend_id own_id
                (literal "accepted") w.db
          done (record w { db = db }))
        else (do
          (success, db) ← remove_friendship connector friend_ship_dao friend_id own_id w.db
          done (record w { db = db }))

  unfoldable pub handle_data : TcpPacket → ℕ → World connector → Outcome (World connector)
  handle_data packet client w =
      if packet.func_id == 0x01
      then handle_chat_message packet client w
      else if packet.func_id == 0x02
      then handle_login_message packet client w
      else if packet.func_id == 0x04
      then handle_reg_message packet client w
      else if packet.func_id == 0x06
      then handle_verify_code packet client w
      else if packet.func_id == 0x08
      then handle_add_friend_req packet client w
      else if packet.func_id == 0xa
      then handle_delete_friend packet client w
      else if packet.func_id == 0x0b
      then handle_friend_confirm packet client w
      else done w
