-- ===== src/DataHandle/Login/Session.antt =====
-- What a login whose password fitted does to the connections, and what it sends.
use app_server.Base.{
  ℕ, ◌≡◌, ◌<◌, ◌≤◌, ◌^◌, ◌++◌, some, List, true, false, done, fault, overflow, Bytes, Text, pos,
  length, All, arith,
}
use app_server.Packet.{ByteArray, IsByteArray, body_capacity, reply_packet, header}
use app_server.Packet.Replies.{answer_lem, answer_overflow, serialize-reply_packet, reply_lem}
use app_server.Json.{IsJsonLibrary}
use app_server.Message.{Message, member}
use app_server.Message.Person.{
  PersonalPublicInfo, PersonalPrivateInfo, IsPublic, new_public_info, public_from_json,
  public_from_json-public_to_json,
}
use app_server.Message.Cache
use app_server.Message.LoginResponse
use app_server.UserConnectionManager.{add_user}
use app_server.MysqlInteractor.UsersDao.{UsersTableData, get_all_user_public_info}
use app_server.DataHandle.{Env, World, schedule, send, log_in, private_info_of}
use app_server.DataHandle.Delivery.{Delivers, Delivers-reply}

abbrev pub public_of : UsersTableData → PersonalPublicInfo
public_of user = new_public_info user.username user.id (pos 18) user.email

-- The messages that the handler makes for a user.
abbrev pub response_of : Env → UsersTableData → PersonalPrivateInfo → Message LoginResponse.Info
response_of E user private_info =
    LoginResponse.set_successful
      (LoginResponse.new_message (E.stamp 2) (public_of user) private_info false)

abbrev pub cache_of : Env → List PersonalPublicInfo → Message Cache.Info
cache_of E cache = Cache.new_message (E.stamp 1) cache

module _ (E : Env) (user : UsersTableData) (client : ℕ) (w : World E.connector) where
  -- The world after a login: the user is registered, and two packets are on their way.
  abbrev pub logged_in : Bytes → Bytes → World E.connector
  logged_in b₁ b₂ = schedule (send (some client) b₂) (
      schedule (send (some client) b₁)
        (record w { manager = (add_user E.place user.id (some client) w.manager).0 }))

  -- The response and the list of all users, as texts.
  pub record Answers (body body_cache : Text) : Type 0 where
    pub private_info : PersonalPrivateInfo
    pub cache : List PersonalPublicInfo
    pub friends : private_info_of E user w.db ≡ done private_info
    pub users : get_all_user_public_info E.connector E.users_dao w.db ≡ done cache
    pub dumps :
        E.json.dump (LoginResponse.to_json E.json (response_of E user private_info)) ≡ some body
    pub dumps_cache : E.json.dump (Cache.to_json E.json (cache_of E cache)) ≡ some body_cache

  pub log_in_lem :
      (body body_cache : Text)
      → Answers body body_cache
      → length body ≤ body_capacity
      → length body_cache ≤ body_capacity
      → log_in E user client w
        ≡ done (
            logged_in
              (header (reply_packet E.memory.array 0x03 body) ++ body)
              (header (reply_packet E.memory.array 0x0e body_cache) ++ body_cache))
  unfolding log_in
  log_in_lem body body_cache a h k =
      let m = E.memory.array in
      ground (
        arith,
        a.friends,
        a.users,
        a.dumps,
        a.dumps_cache,
        answer_lem m 0x03 body h,
        answer_lem m 0x0e body_cache k,
        serialize-reply_packet m 0x03 body h,
        serialize-reply_packet m 0x0e body_cache k,
      )

  -- A login whose response fits the array of a packet, and whose list of users does not, writes
  -- outside the array.
  pub log_in_overflow :
      (body body_cache : Text)
      → Answers body body_cache
      → length body ≤ body_capacity
      → body_capacity < length body_cache
      → length body_cache < 2 ^ 32
      → log_in E user client w ≡ fault overflow
  unfolding log_in
  log_in_overflow body body_cache a h k l =
      let m = E.memory.array in
      ground (
        arith,
        a.friends,
        a.users,
        a.dumps,
        a.dumps_cache,
        answer_lem m 0x03 body h,
        answer_overflow m 0x0e body_cache k l,
      )

-- The text of a login response: it says success, and has the public information of the user.
abbrev pub SaysLoggedIn : Env → UsersTableData → Text → Type 0
SaysLoggedIn E user text =
    (j : E.json.Json) × (E.json.parse text ≡ some j)
    × (member E.json j "success" E.json.get_bool ≡ some true)
    × (member E.json j "public_info" (public_from_json E.json) ≡ some (public_of user))

module _ (E : Env) (laws : IsJsonLibrary E.json) where
  response_says :
      (user : UsersTableData) (private_info : PersonalPrivateInfo) (body : Text)
      → user.id < 2 ^ 64
      → E.json.dump (LoginResponse.to_json E.json (response_of E user private_info)) ≡ some body
      → SaysLoggedIn E user body
  unfolding LoginResponse.to_json LoginResponse.set_successful LoginResponse.new_message
  response_says user private_info body h dumps =
      let public_info : PersonalPublicInfo = public_of user in
      let fits : IsPublic public_info = record { id = h; age = omega arith } in
      (
        LoginResponse.to_json E.json (response_of E user private_info),
        laws.parse-dump _ body dumps,
        simp (laws.at-of_fields, laws.get_bool-of_bool),
        simp (laws.at-of_fields, public_from_json-public_to_json laws public_info fits),
      )

-- A login whose password fitted, where the answers exist as texts that are shorter than the array
-- of a packet and the ids and ages fit their types, registers the socket for the user if the user
-- has none, and sends two packets to the client: a response that says success and has the user's
-- public information, and then the list of all users, from which any cache message takes exactly
-- what the database has. Nothing else of the state changes.
pub log_in_answers :
    (E : Env) (ba : ByteArray) (user : UsersTableData) (client : ℕ) (w : World E.connector)
    (body body_cache : Text)
    → IsJsonLibrary E.json
    → IsByteArray ba
    → length E.memory.array ≡ body_capacity
    → user.id < 2 ^ 64
    → (a : Answers E user client w body body_cache) → All IsPublic a.cache
    → length body < body_capacity
    → length body_cache < body_capacity
    → (b₁ b₂ : Bytes) × (log_in E user client w ≡ done (logged_in E user client w b₁ b₂))
      × Delivers ba b₁ 0x03 (SaysLoggedIn E user)
      × Delivers ba b₂ 0x0e (λ text.
        (n : Message Cache.Info)
        → Cache.cast_from_string E.json text n
          ≡ record n { info = record { public_info_cache = a.cache } })
unfolding Cache.new_message
log_in_answers E ba user client w body body_cache json bytes hm hid a fits lt lt_cache =
    let m = E.memory.array in
    let (out, replies, delivers) =
      Delivers-reply bytes (SaysLoggedIn E user) m 0x03 body (omega arith) hm
        (json.dump-pos _ body a.dumps) lt
        (response_says E json user a.private_info body hid a.dumps) in
    let (out', replies', delivers') =
      Delivers-reply bytes
        (λ text.
          (n : Message Cache.Info)
          → Cache.cast_from_string E.json text n
            ≡ record n { info = record { public_info_cache = a.cache } })
        m 0x0e body_cache (omega arith) hm (json.dump-pos _ body_cache a.dumps_cache) lt_cache
        (λ n.
          Cache.cast_from_string-dump json (cache_of E a.cache) n body_cache
            (record { public_info_cache = fits }) a.dumps_cache) in
    (
      out,
      out',
      cc (
        log_in_lem E user client w body body_cache a (omega arith) (omega arith),
        reply_lem m 0x03 body (omega arith),
        reply_lem m 0x0e body_cache (omega arith),
        replies,
        replies',
      ),
      delivers,
      delivers',
    )
