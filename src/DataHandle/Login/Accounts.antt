-- ===== src/DataHandle/Login/Accounts.antt =====
-- Whose password a login is compared with.
use app_server.Base.{ℕ, [], ◌∷◌, ◌≡◌, ◌≢◌, some, done, Text, literal, text_eq, text_eq_iff, arith}
use app_server.Packet.{TcpPacket}
use app_server.Message.{Memory, Message}
use app_server.Message.LoginRequest
use app_server.MysqlInteractor.{Connector, string, new_users_dao}
use app_server.MysqlInteractor.UsersDao.{UsersTableData, default_user, select_info_due_user_name}
use app_server.DataHandle.{Env, World, handle_login_message, log_in}
use app_server.DataHandle.Incoming.{Carries, IsUnreadable, cast_info-some, cast_info-none}

abbrev pub name_query : Text
name_query = literal "SELECT * FROM users WHERE username = ?"

-- The database has no row for a user name.
abbrev pub HasNoRow : (C : Connector) → C.Db → Text → Type 0
HasNoRow C db name = C.execute_query db name_query ((1, string name) ∷ []) ≡ some []

module _ (E : Env) (packet : TcpPacket) where
  abbrev start : Message LoginRequest.Info
  start = LoginRequest.new_message (E.stamp 0) [] []

  module _ (i : LoginRequest.Info)
      (h : Carries E.json (LoginRequest.info_from_json E.json) packet i) where
    cast-login : LoginRequest.cast_from_string E.json h.source start ≡ record start { info = i }
    unfolding LoginRequest.cast_from_string
    cast-login = cast_info-some E.json (LoginRequest.info_from_json E.json) h.source _ i h.casts

    pub login_accepted :
        (client : ℕ) (w : World E.connector) (user : UsersTableData)
        → select_info_due_user_name E.connector E.memory E.users_dao i.username w.db ≡ done user
        → user.password ≡ i.password
        → handle_login_message E packet client w ≡ log_in E user client w
    unfolding handle_login_message
    login_accepted client w user found e =
        ground (arith, h.reads, cast-login, text_eq_iff user.password i.password)

    -- With another password than the one of the user that the database gives for the name, nothing
    -- changes and nothing is sent.
    login_rejected :
        (client : ℕ) (w : World E.connector) (user : UsersTableData)
        → select_info_due_user_name E.connector E.memory E.users_dao i.username w.db ≡ done user
        → user.password ≢ i.password
        → handle_login_message E packet client w ≡ done w
    unfolding handle_login_message
    login_rejected client w user found ne =
        ground (arith, h.reads, cast-login, text_eq_iff user.password i.password)

-- For a name without a row the data access object makes a user up, with no password.
select_no_row :
    (C : Connector) (memory : Memory) (c : ℕ) (name : Text) (db : C.Db)
    → HasNoRow C db name
    → select_info_due_user_name C memory (new_users_dao (some c)) name db
      ≡ done (default_user memory)
unfolding select_info_due_user_name new_users_dao
select_no_row C memory c name db h = ground arith

-- A login with a name that no row has and with an empty password is accepted, as the user that the
-- data access object makes up: the one without name, with an id that nobody set.
pub login_without_account :
    (E : Env) (packet : TcpPacket) (i : LoginRequest.Info) (c client : ℕ) (w : World E.connector)
    → E.users_dao ≡ new_users_dao (some c)
    → Carries E.json (LoginRequest.info_from_json E.json) packet i
    → HasNoRow E.connector w.db i.username
    → i.password ≡ []
    → handle_login_message E packet client w ≡ log_in E (default_user E.memory) client w
login_without_account E packet i c client w dao h no_row e =
    login_accepted E packet i h client w (default_user E.memory)
      (rw dao (select_no_row E.connector E.memory c i.username w.db no_row))
      (unfold default_user in rw e)

cast-unreadable :
    (E : Env) (packet : TcpPacket)
    → (h : IsUnreadable E.json (LoginRequest.info_from_json E.json) packet)
    → LoginRequest.cast_from_string E.json h.source (start E packet) ≡ start E packet
unfolding LoginRequest.cast_from_string
cast-unreadable E packet h =
    cast_info-none E.json (LoginRequest.info_from_json E.json) h.source _ h.casts

-- A login packet whose body is not a login at all is accepted as the user that the data access
-- object makes up, where no row has the empty name.
login_unreadable :
    (E : Env) (packet : TcpPacket) (c client : ℕ) (w : World E.connector)
    → E.users_dao ≡ new_users_dao (some c)
    → IsUnreadable E.json (LoginRequest.info_from_json E.json) packet
    → HasNoRow E.connector w.db []
    → handle_login_message E packet client w ≡ log_in E (default_user E.memory) client w
unfolding handle_login_message LoginRequest.new_message default_user text_eq
login_unreadable E packet c client w dao h no_row =
    let found : select_info_due_user_name E.connector E.memory E.users_dao [] w.db
        ≡ done (default_user E.memory) =
      rw dao (select_no_row E.connector E.memory c [] w.db no_row) in
    ground (arith, h.reads, cast-unreadable E packet h, found)
