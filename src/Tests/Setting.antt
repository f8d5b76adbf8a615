-- ===== src/Tests/Setting.antt =====
-- A server with a small database, and packets for it.
use app_server.Base.{
  ℕ, ◌<◌, ◌≡◌, true, false, Option, some, [], ◌∷◌, literal, length, arith, ◌==◌, length-replicate,
  length-append, length-take, length-drop, take, drop, ◌^◌,
}
use app_server.Packet.{TcpPacket, body_capacity, memcpy, cleared}
use app_server.Packet.RoundTrip.{IsPacket}
use app_server.Packet.Replies.{c_string-received}
use app_server.Message.{Memory, Stamp}
use app_server.UserConnectionManager.{Manager}
use app_server.MysqlInteractor.{new_users_dao, new_friend_ship_dao}
use app_server.MysqlInteractor.UsersDao.{UsersTableData}
use app_server.MysqlInteractor.FriendShipDao.{FriendShipTableData}
use app_server.DataHandle.{Env, Moment, World}
use app_server.DataHandle.Incoming.{Carries}
use app_server.Tests.Values.{Tokens, sample_json, shifted, shifted_pos, unshifted-shifted}
use app_server.Tests.Tables.{Tables, sample_connector}

abbrev pub sample_memory : Memory
sample_memory = record { unsigned = λ name. 0; flag = λ name. false; array = cleared }

abbrev pub sample_stamp : Stamp
sample_stamp = record { id_time = 5; random = 3; time = 9 }

abbrev pub sample_env : Env
sample_env = record {
  json = sample_json;
  connector = sample_connector;
  users_dao = new_users_dao (some 0);
  friend_ship_dao = new_friend_ship_dao (some 1);
  connected = λ client. client == 70;
  generate_verification_code = λ n. b'0' ∷ b'4' ∷ b'2' ∷ [];
  send_email = λ n email code. true;
  stamp = λ n. sample_stamp;
  memory = sample_memory;
  place = 0;
}

abbrev pub sample_moment : Moment
sample_moment = record {
  connected = sample_env.connected;
  stamp = sample_env.stamp;
  memory = sample_env.memory;
  place = sample_env.place;
}

abbrev pub ann : UsersTableData
ann = record { username = literal "ann"; email = literal "a@b"; id = 7; password = literal "pw" }

abbrev pub bob : UsersTableData
bob = record { username = literal "bob"; email = literal "b@b"; id = 8; password = literal "pass" }

-- Bob asked Ann.
abbrev pub asked : FriendShipTableData
asked = record { friendship_1 = 8; friendship_2 = 7; status = literal "pending" }

abbrev pub sample_tables : Tables
sample_tables = record { users = ann ∷ bob ∷ []; friendships = asked ∷ [] }

-- Ann is connected by the socket 70, and Bob by 80, which is gone.
abbrev pub sample_manager : Manager
sample_manager = record {
  connect_info =
      (7, record { is_online = true; client = some 70 })
      ∷ (8, record { is_online = true; client = some 80 })
      ∷ [];
}

abbrev pub sample_world : World sample_connector
sample_world = record { manager = sample_manager; db = sample_tables; codes = 0; scheduled = [] }

-- A packet whose body is the text of a value.
abbrev pub packet_of : ℕ → Tokens → TcpPacket
packet_of f j = record {
  length = length (shifted j);
  func_id = f;
  version = 55;
  reserved = 66;
  body = memcpy cleared (shifted j) (length (shifted j));
}

pub packet_of-Carries :
    {Info : Type 0} (f : ℕ) (from_json : Tokens → Option Info) (j : Tokens) (i : Info)
    → from_json j ≡ some i
    → length (shifted j) < body_capacity
    → Carries sample_json from_json (packet_of f j) i
packet_of-Carries f from_json j i e lt = record {
  source = shifted j;
  reads = c_string-received (shifted j) (shifted_pos j) lt;
  casts = rw (unshifted-shifted j) e;
}

pub length-array : length sample_memory.array ≡ body_capacity
unfolding cleared
length-array = length-replicate {A = ℕ} body_capacity 0

pub packet_of-IsPacket :
    (f : ℕ) (j : Tokens)
    → f < 2 ^ 16
    → length (shifted j) < body_capacity
    → IsPacket (packet_of f j)
unfolding cleared
packet_of-IsPacket f j hf lt =
    let n = length (shifted j) in
    record {
      func_id = hf;
      version = omega arith;
      reserved = omega arith;
      body = omega (
        arith,
        length-append (take n (shifted j)) (drop n cleared),
        length-take n (shifted j),
        length-drop n cleared,
        length-replicate {A = ℕ} body_capacity 0,
      );
      fits = omega arith;
    }
