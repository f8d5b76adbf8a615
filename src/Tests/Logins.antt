-- ===== src/Tests/Logins.antt =====
-- A login of Ann at a server without connections.
use app_server.DataHandle.Login.Session.{log_in_lem}
use app_server.Packet.{reply_packet}
use app_server.Packet.{header}
use app_server.Base.{◌++◌}
use app_server.Tests.Setting.{sample_tables}
use app_server.Base.{◌≡◌, refl, List, [], ◌∷◌, Text, literal, arith, done}
use app_server.Packet.{TcpPacket}
use app_server.Decimal.{to_string}
use app_server.Message.{created_base, status_code}
use app_server.Message.Person.{
  PersonalPublicInfo, PersonalPrivateInfo, public_to_json, publics_to_json, private_to_json,
}
use app_server.Message.LoginRequest
use app_server.Message.LoginResponse
use app_server.Message.Cache
use app_server.MysqlInteractor.{new_users_dao, new_friend_ship_dao}
use app_server.MysqlInteractor.UsersDao.{
  UsersTableData, select_info_due_user_name, select_info_due_id, get_all_user_public_info,
}
use app_server.MysqlInteractor.FriendShipDao.{select_all_friend_ship, select_all_friend_apply}
use app_server.DataHandle.{World, log_in, private_info_of}
use app_server.DataHandle.Incoming.{Carries}
use app_server.DataHandle.Login.Session.{public_of, Answers, logged_in, response_of, cache_of}
use app_server.Tests.Values.{sample_json, sample_json-IsJsonLibrary, shifted}
use app_server.Tests.Tables.{sample_connector, rows_of}
use app_server.Tests.Setting.{sample_env, sample_world, ann, bob, packet_of, packet_of-Carries}

abbrev pub right : LoginRequest.Info
right = record { username = literal "ann"; password = literal "pw" }

abbrev pub right_packet : TcpPacket
right_packet = packet_of 0x02 (LoginRequest.info_to_json sample_json right)

pub right-Carries : Carries sample_json (LoginRequest.info_from_json sample_json) right_packet right
unfolding LoginRequest.info_to_json
right-Carries =
    packet_of-Carries 0x02 (LoginRequest.info_from_json sample_json)
      (LoginRequest.info_to_json sample_json right) right
      (LoginRequest.info_from_json-info_to_json sample_json-IsJsonLibrary right) (omega arith)

abbrev pub quiet : World sample_connector
quiet = record sample_world { manager = record { connect_info = [] } }

-- What the data access object reads: the e-mail address is left out.
abbrev pub read_ann : UsersTableData
read_ann = record ann { email = [] }

abbrev ann_private : PersonalPrivateInfo
ann_private = record {
  password = literal "pw";
  friend_list = [];
  friend_apply = public_of (record bob { email = [] }) ∷ [];
}

abbrev pub all_users : List PersonalPublicInfo
all_users = public_of ann ∷ public_of bob ∷ []

abbrev pub response_body : Text
response_body =
    shifted (LoginResponse.to_json sample_json (response_of sample_env read_ann ann_private))

abbrev pub cache_body : Text
cache_body = shifted (Cache.to_json sample_json (cache_of sample_env all_users))

unfoldable pub quiet-Answers : Answers sample_env read_ann 90 quiet response_body cache_body
unfolding private_info_of get_all_user_public_info rows_of new_users_dao new_friend_ship_dao
    select_all_friend_ship select_all_friend_apply select_info_due_id to_string
quiet-Answers = record {
  private_info = ann_private;
  cache = all_users;
  friends = refl;
  users = refl;
  dumps = refl;
  dumps_cache = refl;
}

abbrev pub after_login : World sample_connector
after_login =
    logged_in sample_env read_ann 90 quiet
      (header (reply_packet sample_env.memory.array 0x03 response_body) ++ response_body)
      (header (reply_packet sample_env.memory.array 0x0e cache_body) ++ cache_body)

pub ann_logs_in : log_in sample_env read_ann 90 quiet ≡ done after_login
unfolding LoginResponse.to_json public_to_json LoginResponse.set_successful
    LoginResponse.new_message private_to_json publics_to_json Cache.to_json Cache.new_message
    created_base status_code to_string
ann_logs_in =
    log_in_lem sample_env read_ann 90 quiet response_body cache_body quiet-Answers (omega arith)
      (omega arith)

pub ann_found :
    select_info_due_user_name sample_env.connector sample_env.memory sample_env.users_dao
      (literal "ann")
      sample_tables
    ≡ done read_ann
unfolding select_info_due_user_name new_users_dao rows_of
ann_found = refl
