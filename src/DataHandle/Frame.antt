-- ===== src/DataHandle/Frame.antt =====
-- What each handler leaves alone.
use app_server.Base.{
  some, [], >>=-eq-done, text_eq, ℕ, ◌≡◌, ◌≢◌, done, arith, ◌==◌, inl, inr, ◌⊎◌, Bool-cases, true,
}
use app_server.Packet.{TcpPacket, c_string}
use app_server.Message.LoginRequest
use app_server.MysqlInteractor.UsersDao.{UsersTableData, select_info_due_user_name}
use app_server.UserConnectionManager.{add_user}
use app_server.UserConnectionManager.Invariant.{IsValid, add_user-IsValid}
use app_server.DataHandle.{
  Env, World, handle_data, handle_chat_message, handle_login_message, handle_reg_message,
  respond_reg, handle_verify_code, handle_add_friend_req, inform, handle_delete_friend,
  handle_friend_confirm, log_in,
}

module _ (E : Env) (p : TcpPacket) (c : ℕ) (w w' : World E.connector) where
  chat_frame :
      handle_chat_message E p c w ≡ done w'
      → (w'.manager ≡ w.manager) × (w'.db ≡ w.db) × (w'.codes ≡ w.codes)
  unfolding handle_chat_message
  chat_frame h = ground arith

  verify_frame : handle_verify_code E p c w ≡ done w' → (w'.manager ≡ w.manager) × (w'.db ≡ w.db)
  unfolding handle_verify_code
  verify_frame h = ground arith

  reg_frame : handle_reg_message E p c w ≡ done w' → (w'.manager ≡ w.manager) × (w'.codes ≡ w.codes)
  unfolding handle_reg_message respond_reg
  reg_frame h = ground arith

  add_friend_frame :
      handle_add_friend_req E p c w ≡ done w' → (w'.manager ≡ w.manager) × (w'.codes ≡ w.codes)
  unfolding handle_add_friend_req inform
  add_friend_frame h = ground arith

  delete_frame :
      handle_delete_friend E p c w ≡ done w'
      → (w'.manager ≡ w.manager) × (w'.codes ≡ w.codes) × (w'.scheduled ≡ w.scheduled)
  unfolding handle_delete_friend
  delete_frame h = ground arith

  confirm_frame :
      handle_friend_confirm E p c w ≡ done w'
      → (w'.manager ≡ w.manager) × (w'.codes ≡ w.codes) × (w'.scheduled ≡ w.scheduled)
  unfolding handle_friend_confirm
  confirm_frame h = ground arith

  login_frame : handle_login_message E p c w ≡ done w' → (w'.db ≡ w.db) × (w'.codes ≡ w.codes)
  unfolding handle_login_message log_in
  login_frame h = ground arith

module _ (E : Env) where
  pub log_in_manager :
      (user : UsersTableData) (c : ℕ) (w w' : World E.connector)
      → log_in E user c w ≡ done w'
      → w'.manager ≡ (add_user E.place user.id (some c) w.manager).0
  unfolding log_in
  log_in_manager user c w w' h = ground arith

  -- What a login does to the connections: nothing, or the registration of one user.
  login_manager :
      (p : TcpPacket) (c : ℕ) (w w' : World E.connector)
      → handle_login_message E p c w ≡ done w'
      → (w'.manager ≡ w.manager)
        ⊎ ((uid : ℕ) × (w'.manager ≡ (add_user E.place uid (some c) w.manager).0))
  unfolding handle_login_message
  login_manager p c w w' h =
      let start = LoginRequest.new_message (E.stamp 0) [] [] in
      let (source, _, h₁) = >>=-eq-done (c_string p.body) _ h in
      let msg = LoginRequest.cast_from_string E.json source start in
      let name = msg.info.username in
      let (user, _, h₂) =
        >>=-eq-done (select_info_due_user_name E.connector E.memory E.users_dao name w.db) _ h₁ in
      elim (Bool-cases (text_eq user.password msg.info.password)) [
        | inl same ↦ inr (user.id, log_in_manager user c w w' (rw same at h₂))
        | inr other ↦ inl (ground arith)
      ]

  -- The parts of the state that a packet leaves alone.
  pub record Frame (p : TcpPacket) (w w' : World E.connector) : Type 0 where
    pub manager : p.func_id ≢ 0x02 → w'.manager ≡ w.manager
    pub db : p.func_id ≢ 0x04 → p.func_id ≢ 0x08 → p.func_id ≢ 0xa → p.func_id ≢ 0x0b → w'.db ≡ w.db
    pub codes : p.func_id ≢ 0x06 → w'.codes ≡ w.codes

  -- For every packet that is handled to its end: only a login changes the connections, only a
  -- registration, a friend request, a deletion or a confirmation changes the database, and only a
  -- request for a verification code uses one up.
  pub handle_data-Frame :
      (p : TcpPacket) (c : ℕ) (w w' : World E.connector)
      → handle_data E p c w ≡ done w'
      → Frame p w w'
  unfolding handle_data
  handle_data-Frame p c w w' h = record {
    manager = λ other. ground (
      arith,
      chat_frame E p c w w',
      reg_frame E p c w w',
      verify_frame E p c w w',
      add_friend_frame E p c w w',
      delete_frame E p c w w',
      confirm_frame E p c w w',
    );
    db = λ a b d e.
        ground (arith, chat_frame E p c w w', verify_frame E p c w w', login_frame E p c w w');
    codes = λ other. ground (
      arith,
      chat_frame E p c w w',
      reg_frame E p c w w',
      login_frame E p c w w',
      add_friend_frame E p c w w',
      delete_frame E p c w w',
      confirm_frame E p c w w',
    );
  }

  handle_data_login :
      (p : TcpPacket) (c : ℕ) (w w' : World E.connector)
      → (p.func_id == 0x02) ≡ true
      → handle_data E p c w ≡ done w'
      → handle_login_message E p c w ≡ done w'
  unfolding handle_data
  handle_data_login p c w w' e h = ground arith

  -- What a packet does to the connections: nothing, or the registration of one user.
  pub handle_data_manager :
      (p : TcpPacket) (c : ℕ) (w w' : World E.connector)
      → handle_data E p c w ≡ done w'
      → (w'.manager ≡ w.manager)
        ⊎ ((uid : ℕ) × (w'.manager ≡ (add_user E.place uid (some c) w.manager).0))
  handle_data_manager p c w w' h = elim (Bool-cases (p.func_id == 0x02)) [
    | inl login ↦ login_manager p c w w' (handle_data_login p c w w' login h)
    | inr other ↦ inl ((handle_data-Frame p c w w' h).manager (ground arith))
  ]

  -- A packet that is handled to its end keeps the connections valid: one entry for a user at most,
  -- and every entry online.
  handle_data-IsValid :
      (p : TcpPacket) (c : ℕ) (w w' : World E.connector)
      → handle_data E p c w ≡ done w'
      → IsValid w.manager
      → IsValid w'.manager
  handle_data-IsValid p c w w' h v = elim (handle_data_manager p c w w' h) [
    | inl same ↦ rw same v
    | inr (uid, added) ↦ rw added (add_user-IsValid E.place uid (some c) w.manager v)
  ]
