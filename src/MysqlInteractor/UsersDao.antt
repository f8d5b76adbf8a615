-- ===== src/MysqlInteractor/UsersDao.antt =====
-- class UsersDao and struct UsersTableData: src/MysqlInteractor/include/MysqlConnectPool.h and
-- src/MysqlInteractor/src/MysqlInteractor.cpp.
use app_server.Base.{
  ℕ, ◌+◌, ◌-◌, ◌^◌, Option, none, some, List, [], ◌∷◌, ◌++◌, Text, literal, pos, ltb, if◌then◌else◌,
  Outcome, done, ◌>>=◌,
}
use app_server.Decimal.{to_string}
use app_server.MysqlInteractor.{Connector, Dao, Columns, make_columns, select, select_all}
use app_server.Message.{Memory}
use app_server.Message.Person.{PersonalPublicInfo, new_public_info}

pub record UsersTableData : Type 0 where
  pub username : Text
  pub email : Text
  pub id : ℕ
  pub password : Text

-- The constructors do not set the id.
unfoldable pub default_user : Memory → UsersTableData
default_user memory = record { username = []; email = []; id = memory.unsigned "id"; password = [] }

unfoldable pub new_user : Memory → Text → Text → Text → UsersTableData
new_user memory username password email = record {
  username = username;
  email = email;
  id = memory.unsigned "id";
  password = password;
}

unfoldable pub map_record_to_colums : UsersTableData → Columns
unfolding make_columns
map_record_to_colums r = make_columns [] (
    (literal "username", r.username)
    ∷ (literal "password", r.password)
    ∷ (literal "email", r.email)
    ∷ [])

-- int32_t to uint64_t
unfoldable pub int_to_uint64 : ℕ → ℕ
int_to_uint64 w = if ltb w (2 ^ 31) then w else w + (2 ^ 64 - 2 ^ 32)

module _ (C : Connector) where
  open C use {Db, Row, get_string, get_int, get_uint64}

  -- One round of the loop over the result.
  unfoldable pub read_user : UsersTableData → Row → UsersTableData
  unfolding int_to_uint64
  read_user u row = record u {
    id = int_to_uint64 (get_int row "id");
    username = get_string row "username";
    password = get_string row "password";
  }

  unfoldable pub read_users : UsersTableData → List Row → UsersTableData
  unfolding read_user
  read_users u [] = u
  read_users u (row ∷ rows) = read_users (read_user u row) rows

  abbrev pub found_user : Memory → Option (List Row) → UsersTableData
  unfolding read_users default_user
  found_user memory none = default_user memory
  found_user memory (some rows) = read_users (default_user memory) rows

  unfoldable pub select_info_due_user_name : Memory → Dao → Text → Db → Outcome UsersTableData
  unfolding select found_user
  select_info_due_user_name memory dao user_name db = do
    result ←
        select C dao (literal "SELECT * FROM " ++ dao.table_name ++ literal " WHERE username = ?")
          user_name db
    done (found_user memory result)

  unfoldable pub select_info_due_id : Memory → Dao → ℕ → Db → Outcome UsersTableData
  unfolding select found_user
  select_info_due_id memory dao id db = do
    result ←
        select C dao (literal "SELECT * FROM " ++ dao.table_name ++ literal " WHERE id = ?")
          (to_string id) db
    done (found_user memory result)

  unfoldable pub public_infos : List Row → List PersonalPublicInfo
  public_infos [] = []
  public_infos (row ∷ rows) =
      new_public_info (get_string row "username") (get_uint64 row "id") (pos 18)
        (get_string row "email")
      ∷ public_infos rows

  abbrev pub listed : Option (List Row) → List PersonalPublicInfo
  unfolding public_infos
  listed none = []
  listed (some rows) = public_infos rows

  unfoldable pub get_all_user_public_info : Dao → Db → Outcome (List PersonalPublicInfo)
  unfolding select_all listed
  get_all_user_public_info dao db = do
    result ← select_all C dao (literal "SELECT * FROM " ++ dao.table_name) db
    done (listed result)
