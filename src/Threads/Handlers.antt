-- ===== src/Threads/Handlers.antt =====
-- The handlers of src/MyTcpServer/src/DataHandle.cpp, one step for each access to what the threads share.
use app_server.Base.{
  ℕ, Bool, true, false, none, some, List, [], ◌∷◌, Bytes, Text, literal, text_eq, pos, ◌==◌,
  if◌then◌else◌, null, thrown, or_fault,
}
use app_server.Packet.{TcpPacket, c_string, serialize, answer, reply}
use app_server.Message.Person.{PersonalPublicInfo, PersonalPrivateInfo, new_public_info}
use app_server.Message.Chat
use app_server.Message.VerifyCode
use app_server.Message.VerifyCodeRes
use app_server.Message.LoginRequest
use app_server.Message.LoginResponse
use app_server.Message.Cache
use app_server.Message.RegisterRequest
use app_server.Message.RegisterResponse
use app_server.Message.AddFriendRequest
use app_server.Message.InformFriendApply
use app_server.Message.DeleteFriend
use app_server.Message.FriendConfirm
use app_server.MysqlInteractor.UsersDao
use app_server.MysqlInteractor.UsersDao.{UsersTableData, new_user}
use app_server.MysqlInteractor.FriendShipDao
use app_server.MysqlInteractor.FriendShipDao.{FriendShipTableData}
use app_server.Environment.{Env, send}
use app_server.Threads.{Program, returns, selects, adds, generates, schedules, lift, ◌>>=◌}
use app_server.Threads.Statements.{
  insert_steps, select_info_due_user_name_steps, select_info_due_id_steps,
  get_all_user_public_info_steps, select_all_friend_ship_steps, select_all_friend_apply_steps,
  change_friend_ship_status_steps, remove_friendship_steps,
}

module _ (E : Env) where
  open E use {json, connector, users_dao, friend_ship_dao, connected, stamp, memory}

  abbrev pub Steps : Type 0 → Type 0
  Steps A = Program connector A

  -- `toJson().dump()`
  abbrev pub dumped_steps : json.Json → Steps Text
  unfolding lift
  dumped_steps j = lift (or_fault thrown (json.dump j))

  -- What a handler writes is the last thing that it does.
  abbrev pub sends : ℕ → Bytes → Steps (Unit {0})
  sends client bytes = schedules (send (some client) bytes) (returns tt)

  unfoldable pub handle_verify_code_steps : TcpPacket → ℕ → Steps (Unit {0})
  unfolding lift
  handle_verify_code_steps packet client = do
    source ← lift (c_string packet.body)
    let msg = VerifyCode.cast_from_string json source (VerifyCode.new_message (stamp 0) [])
    codes ← generates returns
    let code = E.generate_verification_code codes
    if E.send_email codes (VerifyCode.get_email msg) code
        then (do
          body ←
              dumped_steps (VerifyCodeRes.to_json json (VerifyCodeRes.new_message (stamp 1) code))
          bytes ← lift (reply memory.array 0x07 body)
          sends client bytes)
        else sends client (literal "0")

  unfoldable pub handle_chat_message_steps : TcpPacket → ℕ → Steps (Unit {0})
  unfolding lift
  handle_chat_message_steps packet client = do
    source ← lift (c_string packet.body)
    let msg = Chat.cast_from_string json source (Chat.new_message memory (stamp 0) [] [] [])
    found ← selects (Chat.get_uid_receiver msg) returns
    elim found [
      | some receiver ↦ do
        body ← dumped_steps (Chat.to_json json msg)
        bytes ← lift (reply memory.array 0x01 body)
        sends receiver bytes
      | none ↦ do bytes ← lift (serialize packet); sends client bytes
    ]

  unfoldable pub public_infos_of_steps : List ℕ → Steps (List PersonalPublicInfo)
  public_infos_of_steps [] = returns []
  public_infos_of_steps (id ∷ ids) = do
    user ← select_info_due_id_steps connector memory users_dao id
    rest ← public_infos_of_steps ids
    returns (new_public_info user.username user.id (pos 18) user.email ∷ rest)

  unfoldable pub private_info_of_steps : UsersTableData → Steps PersonalPrivateInfo
  unfolding public_infos_of_steps
  private_info_of_steps user = do
    friends ← select_all_friend_ship_steps connector friend_ship_dao user.id
    friend_list ← public_infos_of_steps friends
    applications ← select_all_friend_apply_steps connector friend_ship_dao user.id
    friend_apply ← public_infos_of_steps applications
    returns (record {
      password = user.password;
      friend_list = friend_list;
      friend_apply = friend_apply;
    })

  -- The branch in which the password fits.
  unfoldable pub log_in_steps : UsersTableData → ℕ → Steps (Unit {0})
  unfolding private_info_of_steps lift
  log_in_steps user client = do
    private_info ← private_info_of_steps user
    cache ← get_all_user_public_info_steps connector users_dao
    let public_info = new_public_info user.username user.id (pos 18) user.email
    let cache_msg = Cache.new_message (stamp 1) cache
    let response = LoginResponse.new_message (stamp 2) public_info private_info false
    let response' = LoginResponse.set_successful response
    body ← dumped_steps (LoginResponse.to_json json response')
    body_cache ← dumped_steps (Cache.to_json json cache_msg)
    packet_res ← lift (answer memory.array 0x03 body)
    packet_cache ← lift (answer memory.array 0x0e body_cache)
    added ← adds E.place user.id (some client) (returns tt)
    bytes ← lift (serialize packet_res)
    sent ← sends client bytes
    bytes_cache ← lift (serialize packet_cache)
    sends client bytes_cache

  unfoldable pub handle_login_message_steps : TcpPacket → ℕ → Steps (Unit {0})
  unfolding lift
  handle_login_message_steps packet client = do
    source ← lift (c_string packet.body)
    let msg = LoginRequest.cast_from_string json source (LoginRequest.new_message (stamp 0) [] [])
    user ←
        select_info_due_user_name_steps connector memory users_dao (LoginRequest.get_username msg)
    if text_eq user.password (LoginRequest.get_password msg)
        then log_in_steps user client
        else returns tt

  unfoldable pub respond_reg_steps : Bool → ℕ → Steps (Unit {0})
  unfolding lift
  respond_reg_steps success client = do
    body ←
        dumped_steps
          (RegisterResponse.to_json json (RegisterResponse.new_message (stamp 1) success))
    bytes ← lift (reply memory.array 0x05 body)
    sends client bytes

  unfoldable pub handle_reg_message_steps : TcpPacket → ℕ → Steps (Unit {0})
  unfolding respond_reg_steps lift
  handle_reg_message_steps packet client = do
    source ← lift (c_string packet.body)
    let msg =
        RegisterRequest.cast_from_string json source
          (RegisterRequest.new_message (stamp 0) [] [] [])
    let user =
        new_user memory (RegisterRequest.get_username msg) (RegisterRequest.get_password msg)
          (RegisterRequest.get_email msg)
    success ← insert_steps connector users_dao (UsersDao.map_record_to_colums user)
    if success then respond_reg_steps true client else respond_reg_steps false client

  -- The branch in which the friend is connected.
  unfoldable pub inform_steps : ℕ → ℕ → Steps (Unit {0})
  unfolding lift
  inform_steps own_id friend = do
    user ← select_info_due_id_steps connector memory users_dao own_id
    let applicant = new_public_info user.username user.id (pos 18) user.email
    let msg =
        InformFriendApply.add_friend_apply applicant
          (InformFriendApply.new_message memory (stamp 1) 0 [])
    body ← dumped_steps (InformFriendApply.to_json json msg)
    bytes ← lift (reply memory.array 0xc body)
    sends friend bytes

  unfoldable pub handle_add_friend_req_steps : TcpPacket → ℕ → Steps (Unit {0})
  unfolding inform_steps lift
  handle_add_friend_req_steps packet client = do
    source ← lift (c_string packet.body)
    let msg =
        AddFriendRequest.cast_from_string json source
          (AddFriendRequest.new_message (stamp 0) [] 0 [] 0)
    let row : FriendShipTableData = record {
      friendship_1 = AddFriendRequest.get_own_id msg;
      friendship_2 = AddFriendRequest.get_friend_id msg;
      status = literal "pending";
    }
    success ← insert_steps connector friend_ship_dao (FriendShipDao.map_record_to_colums row)
    found ← selects (AddFriendRequest.get_friend_id msg) returns
    friend ← lift (or_fault null found)
    if connected friend then inform_steps (AddFriendRequest.get_own_id msg) friend else returns tt

  unfoldable pub handle_delete_friend_steps : TcpPacket → ℕ → Steps (Unit {0})
  unfolding lift
  handle_delete_friend_steps packet client = do
    source ← lift (c_string packet.body)
    let msg = DeleteFriend.cast_from_string json source (DeleteFriend.new_message (stamp 0) [] 0 0)
    success ←
        remove_friendship_steps connector friend_ship_dao (DeleteFriend.get_friend_id msg)
          (DeleteFriend.get_own_id msg)
    returns tt

  unfoldable pub handle_friend_confirm_steps : TcpPacket → ℕ → Steps (Unit {0})
  unfolding lift
  handle_friend_confirm_steps packet client = do
    source ← lift (c_string packet.body)
    let msg =
        FriendConfirm.cast_from_string json source (FriendConfirm.new_message (stamp 0) false 0 0)
    let friend_id = FriendConfirm.get_friend_id msg
    let own_id = FriendConfirm.get_own_id msg
    if FriendConfirm.ifaccept msg
        then (do
          success ←
              change_friend_ship_status_steps connector friend_ship_dao friend_id own_id
                (literal "accepted")
          returns tt)
        else (do
          success ← remove_friendship_steps connector friend_ship_dao friend_id own_id
          returns tt)

  unfoldable pub handle_data_steps : TcpPacket → ℕ → Steps (Unit {0})
  handle_data_steps packet client =
      if packet.func_id == 0x01
      then handle_chat_message_steps packet client
      else if packet.func_id == 0x02
      then handle_login_message_steps packet client
      else if packet.func_id == 0x04
      then handle_reg_message_steps packet client
      else if packet.func_id == 0x06
      then handle_verify_code_steps packet client
      else if packet.func_id == 0x08
      then handle_add_friend_req_steps packet client
      else if packet.func_id == 0xa
      then handle_delete_friend_steps packet client
      else if packet.func_id == 0x0b
      then handle_friend_confirm_steps packet client
      else returns tt
