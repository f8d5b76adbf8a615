-- ===== src/Environment.antt =====
-- What a handler of src/MyTcpServer/src/DataHandle.cpp meets: its environment, the state that it changes
-- and the tasks that it schedules.
use app_server.Base.{ℕ, Bool, List, [], ◌∷◌, ◌++◌, Bytes, Text}
use app_server.Json.{JsonLibrary}
use app_server.Message.{Memory, Stamp}
use app_server.UserConnectionManager.{SocketPtr, Manager}
use app_server.MysqlInteractor.{Connector, Dao}

-- What is given to IoManager::scheduler, in order: sendMessageToClient with its bytes, and wathcIoRead.
pub data Task : Type 0 where
  send : SocketPtr → Bytes → Task
  watch_read : SocketPtr → Task

-- What a call of a handler meets outside the program: the libraries, the data access objects with
-- their connections, the state of the sockets, the texts that EmailSender generates and whether it
-- can send them, and what the constructors of messages and packets find.
pub record Env : Type 1 where
  pub json : JsonLibrary
  pub connector : Connector
  pub users_dao : Dao
  pub friend_ship_dao : Dao
  pub connected : ℕ → Bool
  pub generate_verification_code : ℕ → Text
  pub send_email : ℕ → Text → Text → Bool
  pub stamp : ℕ → Stamp
  pub memory : Memory
  pub place : ℕ

-- The part of it that differs from one packet to the next.
pub record Moment : Type 0 where
  pub connected : ℕ → Bool
  pub stamp : ℕ → Stamp
  pub memory : Memory
  pub place : ℕ

abbrev pub met : Env → Moment → Env
met E k = record E { connected = k.connected; stamp = k.stamp; memory = k.memory; place = k.place }

-- The state: UserConnectionManager, the database, the number of codes that were generated, and the
-- tasks that were scheduled.
pub record World (C : Connector) : Type 0 where
  pub manager : Manager
  pub db : C.Db
  pub codes : ℕ
  pub scheduled : List Task

abbrev pub schedule : {C : Connector} → Task → World C → World C
schedule t w = record w { scheduled = w.scheduled ++ t ∷ [] }
