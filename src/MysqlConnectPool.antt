-- ===== src/MysqlConnectPool.antt =====
-- class MysqlConnectPool and class MysqlConfig: src/MysqlInteractor/include/MysqlConnectPool.h and
-- MysqlConfigManager.h, src/MysqlInteractor/src/MysqlConnectPool.cpp and MysqlConfigManager.cpp.
pub mod Conservation
pub mod Order
pub mod Waiting
use app_server.Base.{
  ℕ, zero, suc, ◌+◌, Bool, true, false, Option, none, some, List, [], ◌∷◌, ◌++◌, Text, and_then,
  if◌then◌else◌,
}

pub record MySqlInfo : Type 0 where
  pub host : Text
  pub user : Text
  pub password : Text
  pub database : Text

-- MysqlConfig holds one such record; the constructor leaves its texts empty.
unfoldable pub new_config : MySqlInfo
new_config = record { host = []; user = []; password = []; database = [] }

unfoldable pub set_user_name : Text → MySqlInfo → MySqlInfo
set_user_name name info = record info { user = name }

unfoldable pub set_ip : Text → MySqlInfo → MySqlInfo
set_ip ip info = record info { host = ip }

unfoldable pub set_password : Text → MySqlInfo → MySqlInfo
set_password password info = record info { password = password }

unfoldable pub set_database : Text → MySqlInfo → MySqlInfo
set_database database info = record info { database = database }

abbrev get_user_name : MySqlInfo → Text
get_user_name info = info.user

abbrev get_ip : MySqlInfo → Text
get_ip info = info.host

abbrev get_password : MySqlInfo → Text
get_password info = info.password

abbrev get_database : MySqlInfo → Text
get_database info = info.database

abbrev get_sql_info : MySqlInfo → MySqlInfo
get_sql_info info = info

-- MysqlConfig::getInstance: the first call makes the one object. The macros call it each time.
unfoldable pub get_config : Option MySqlInfo → MySqlInfo
unfolding new_config
get_config none = new_config
get_config (some config) = config

unfoldable pub sql_set_ip : Text → Option MySqlInfo → Option MySqlInfo
unfolding get_config set_ip
sql_set_ip ip config = some (set_ip ip (get_config config))

unfoldable pub sql_set_name : Text → Option MySqlInfo → Option MySqlInfo
unfolding get_config set_user_name
sql_set_name name config = some (set_user_name name (get_config config))

unfoldable pub sql_set_password : Text → Option MySqlInfo → Option MySqlInfo
unfolding get_config set_password
sql_set_password password config = some (set_password password (get_config config))

unfoldable pub sql_set_database : Text → Option MySqlInfo → Option MySqlInfo
unfolding get_config set_database
sql_set_database database config = some (set_database database (get_config config))

abbrev pub sql_get_ip : Option MySqlInfo → Text
sql_get_ip config = get_ip (get_config config)

abbrev pub sql_get_name : Option MySqlInfo → Text
sql_get_name config = get_user_name (get_config config)

abbrev pub sql_get_password : Option MySqlInfo → Text
sql_get_password config = get_password (get_config config)

abbrev pub sql_get_database : Option MySqlInfo → Text
sql_get_database config = get_database (get_config config)

abbrev pub sql_get_sql_info : Option MySqlInfo → MySqlInfo
sql_get_sql_info config = get_sql_info (get_config config)

-- std::shared_ptr<sql::Connection>: a connection by its number, or nullptr.
abbrev pub ConnectionPtr : Type 0
ConnectionPtr = Option ℕ

-- MySQL_Driver: the connection that the n-th call of `connect` opens, and whether setSchema returns.
-- `none` and `false` are exceptions.
pub record Driver : Type 0 where
  pub connect : ℕ → Text → Text → Text → Option ℕ
  pub set_schema : ℕ → Text → Bool

-- createConnection: an exception gives nullptr.
unfoldable pub create_connection : Driver → MySqlInfo → ℕ → ConnectionPtr
create_connection driver info n =
    and_then (driver.connect n info.host info.user info.password)
      λ c. if driver.set_schema c info.database then some c else none

-- The queue has its front at the head of the list.
pub record Pool : Type 0 where
  pub connections : List ConnectionPtr
  pub info : MySqlInfo
  pub max_connect : ℕ

-- The loop of the constructor, from the n-th connection on.
unfoldable pub create_all : Driver → MySqlInfo → ℕ → ℕ → List ConnectionPtr
create_all driver info n zero = []
create_all driver info n (suc k) =
    create_connection driver info n ∷ create_all driver info (suc n) k

unfoldable pub new_pool : Driver → MySqlInfo → ℕ → Pool
new_pool driver info max_connect = record {
  connections = create_all driver info 0 max_connect;
  info = info;
  max_connect = max_connect;
}

-- getInstance: the static pool is made by the first call, with the configuration and not with the
-- argument `info`.
unfoldable pub get_instance : Driver → Option MySqlInfo → MySqlInfo → ℕ → Option Pool → Pool
unfolding get_config new_pool
get_instance driver config info max_connect none =
    new_pool driver (sql_get_sql_info config) max_connect
get_instance driver config info max_connect (some p) = p

abbrev pop_front : List ConnectionPtr → Pool → ConnectionPtr × Pool
pop_front [] p = (none, p)
pop_front (c ∷ rest) p = (c, record p { connections = rest })

-- getConnection at the moment when `wait_for` returns: as soon as the queue is not empty, or when the
-- time is up and it still is empty.
unfoldable pub get_connection : Pool → ConnectionPtr × Pool
get_connection p = pop_front p.connections p

unfoldable pub release_connection : ConnectionPtr → Pool → Pool
release_connection c p = record p { connections = p.connections ++ c ∷ [] }
