-- ===== src/Tests/Accounts.antt =====
-- Logins at concrete inputs.
use app_server.Base.{
  ◌≡◌, refl, List, [], ◌∷◌, Bytes, Text, literal, arith, done, fault, overflow, replicate,
}
use app_server.Packet.{TcpPacket, cleared, memcpy}
use app_server.Packet.Replies.{c_string-received}
use app_server.Decimal.{to_string}
use app_server.Message.{Message, created_base, status_code}
use app_server.Message.Person.{
  PersonalPublicInfo, PersonalPrivateInfo, public_to_json, publics_to_json, private_to_json,
}
use app_server.Message.LoginRequest
use app_server.Message.LoginResponse
use app_server.Message.Cache
use app_server.MysqlInteractor.{new_users_dao, new_friend_ship_dao}
use app_server.MysqlInteractor.UsersDao.{
  UsersTableData, default_user, select_info_due_id, get_all_user_public_info,
}
use app_server.MysqlInteractor.FriendShipDao.{select_all_friend_ship, select_all_friend_apply}
use app_server.DataHandle.{World, handle_login_message, log_in, private_info_of}
use app_server.DataHandle.Delivery.{Delivers}
use app_server.DataHandle.Incoming.{Carries, IsUnreadable}
use app_server.DataHandle.Login.Accounts.{login_without_account}
use app_server.DataHandle.Login.Session.{
  public_of, Answers, logged_in, SaysLoggedIn, response_of, cache_of, log_in_answers,
  log_in_overflow,
}
use app_server.Tests.Streams.{sample_bytes, sample_bytes-IsByteArray}
use app_server.Tests.Values.{sample_json, sample_json-IsJsonLibrary, shifted}
use app_server.Tests.Tables.{sample_connector, rows_of}
use app_server.Tests.Setting.{
  sample_env, sample_world, ann, bob, packet_of, packet_of-Carries, length-array,
}

abbrev login : Text → Text → LoginRequest.Info
login name password = record { username = name; password = password }

abbrev login_packet : LoginRequest.Info → TcpPacket
login_packet i = packet_of 0x02 (LoginRequest.info_to_json sample_json i)

abbrev stranger : LoginRequest.Info
stranger = login (literal "eve") []

stranger-Carries :
    Carries sample_json (LoginRequest.info_from_json sample_json) (login_packet stranger) stranger
unfolding LoginRequest.info_to_json
stranger-Carries =
    packet_of-Carries 0x02 (LoginRequest.info_from_json sample_json)
      (LoginRequest.info_to_json sample_json stranger) stranger
      (LoginRequest.info_from_json-info_to_json sample_json-IsJsonLibrary stranger) (omega arith)

-- What the data access object reads: the e-mail address is left out.
abbrev read_ann : UsersTableData
read_ann = record ann { email = [] }

login_without_account_example :
    handle_login_message sample_env (login_packet stranger) 90 sample_world
    ≡ log_in sample_env (default_user sample_env.memory) 90 sample_world
unfolding rows_of
login_without_account_example =
    login_without_account sample_env (login_packet stranger) stranger 0 90 sample_world refl
      stranger-Carries refl refl

-- A packet without a body.
abbrev blank : TcpPacket
blank = record {
  length = 0;
  func_id = 0x02;
  version = 55;
  reserved = 66;
  body = memcpy cleared [] 0;
}

blank-IsUnreadable : IsUnreadable sample_json (LoginRequest.info_from_json sample_json) blank
unfolding LoginRequest.info_from_json
blank-IsUnreadable = record {
  source = [];
  reads = c_string-received [] tt (omega arith);
  casts = refl;
}

abbrev ann_private : PersonalPrivateInfo
ann_private = record {
  password = literal "pw";
  friend_list = [];
  friend_apply = public_of (record bob { email = [] }) ∷ [];
}

abbrev all_users : List PersonalPublicInfo
all_users = public_of ann ∷ public_of bob ∷ []

abbrev response_body : Text
response_body =
    shifted (LoginResponse.to_json sample_json (response_of sample_env read_ann ann_private))

abbrev cache_body : Text
cache_body = shifted (Cache.to_json sample_json (cache_of sample_env all_users))

ann-Answers : Answers sample_env read_ann 90 sample_world response_body cache_body
unfolding private_info_of get_all_user_public_info rows_of new_users_dao new_friend_ship_dao
    select_all_friend_ship select_all_friend_apply select_info_due_id to_string
ann-Answers = record {
  private_info = ann_private;
  cache = all_users;
  friends = refl;
  users = refl;
  dumps = refl;
  dumps_cache = refl;
}

log_in_answers_example :
    (b₁ b₂ : Bytes) × (log_in sample_env read_ann 90 sample_world
      ≡ done (logged_in sample_env read_ann 90 sample_world b₁ b₂))
    × Delivers sample_bytes b₁ 0x03 (SaysLoggedIn sample_env read_ann)
    × Delivers sample_bytes b₂ 0x0e (λ text.
      (n : Message Cache.Info)
      → Cache.cast_from_string sample_json text n
        ≡ record n { info = record { public_info_cache = ann-Answers.cache } })
unfolding ann-Answers LoginResponse.to_json public_to_json LoginResponse.set_successful
    LoginResponse.new_message private_to_json publics_to_json Cache.to_json Cache.new_message
    created_base status_code
log_in_answers_example =
    log_in_answers sample_env sample_bytes read_ann 90 sample_world response_body cache_body
      sample_json-IsJsonLibrary sample_bytes-IsByteArray length-array (omega arith) ann-Answers
      (
        record { id = omega arith; age = omega arith },
        (record { id = omega arith; age = omega arith }, tt),
      )
      (omega arith) (omega arith)

-- A user with a long name.
abbrev long : UsersTableData
long = record { username = replicate 4100 b'x'; email = []; id = 9; password = [] }

abbrev long_world : World sample_connector
long_world = record sample_world { db = record { users = long ∷ []; friendships = [] } }

abbrev ann_alone : PersonalPrivateInfo
ann_alone = record { password = literal "pw"; friend_list = []; friend_apply = [] }

abbrev alone_body : Text
alone_body = shifted (LoginResponse.to_json sample_json (response_of sample_env read_ann ann_alone))

abbrev long_body : Text
long_body = shifted (Cache.to_json sample_json (cache_of sample_env (public_of long ∷ [])))

long-Answers : Answers sample_env read_ann 90 long_world alone_body long_body
unfolding private_info_of get_all_user_public_info rows_of new_users_dao new_friend_ship_dao
    select_all_friend_ship select_all_friend_apply to_string
long-Answers = record {
  private_info = ann_alone;
  cache = public_of long ∷ [];
  friends = refl;
  users = refl;
  dumps = refl;
  dumps_cache = refl;
}

log_in_overflow_example : log_in sample_env read_ann 90 long_world ≡ fault overflow
unfolding LoginResponse.to_json Cache.to_json public_to_json LoginResponse.set_successful
    LoginResponse.new_message private_to_json publics_to_json Cache.new_message created_base
    to_string status_code
log_in_overflow_example =
    log_in_overflow sample_env read_ann 90 long_world alone_body long_body long-Answers
      (omega arith) (omega arith) (omega arith)
