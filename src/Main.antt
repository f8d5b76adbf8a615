-- ===== src/Main.antt =====
-- The start of the program: src/main.cpp.
pub mod Startup
use app_server.Base.{
  ℕ, zero, suc, Bool, true, false, Option, none, some, List, [], ◌∷◌, ◌++◌, Text, literal,
  if◌then◌else◌, and_then,
}
use app_server.MysqlConnectPool.{
  MySqlInfo, sql_set_ip, sql_set_name, sql_set_password, sql_set_database,
}

-- Calls of the framework, of the operating system and of MyTcpServer.
pub data Call : Type 0 where
  init_log look_up_any : Text → Call
  new_io_manager : ℕ → Bool → Text → Call
  schedule_run new_server bind start : Call
  sleep : ℕ → Call

-- The loop of `run` from the n-th call of `bind` on, whose result is `binds n`. The number bounds the rounds.
unfoldable pub bind_loop : (ℕ → Bool) → ℕ → ℕ → List Call → Option (List Call)
bind_loop binds zero n calls = none
bind_loop binds (suc fuel) n calls =
    let rest = bind_loop binds fuel (suc n) (calls ++ bind ∷ sleep 2 ∷ []) in
    if binds n then some (calls ++ bind ∷ []) else rest

unfoldable pub run : (ℕ → Bool) → ℕ → Option (List Call)
unfolding bind_loop
run binds fuel =
    and_then (bind_loop binds fuel 0 (new_server ∷ look_up_any (literal "0.0.0.0:12345") ∷ []))
      λ calls. some (calls ++ start ∷ [])

-- What main does before its endless loop: the configuration, and the calls.
unfoldable pub main_config : Option MySqlInfo
unfolding sql_set_ip sql_set_name sql_set_password sql_set_database
main_config = sql_set_database (literal "app_info") (
    sql_set_password (literal "myq")
      (sql_set_name (literal "root") (sql_set_ip (literal "tcp://127.0.0.1:3306") none)))

unfoldable main_calls : List Call
main_calls =
    init_log (literal "/home/myq/Desktop/my_code/App-server/conf/log.yaml")
    ∷ new_io_manager 20 false (literal "IOM2")
    ∷ schedule_run
    ∷ []
