-- ===== src/Message.antt =====
-- class MessageBase, the message codes and what every message class shares: src/Message.
pub mod Person
pub mod Chat
pub mod AddFriendRequest
pub mod AddFriendRespone
pub mod DeleteFriend
pub mod FriendConfirm
pub mod InformFriendApply
pub mod VerifyCode
pub mod VerifyCodeRes
pub mod RegisterRequest
pub mod RegisterResponse
pub mod LoginRequest
pub mod LoginResponse
pub mod Cache
use Prim.Native.String.{String}
use app_server.Base.{
  ℕ, Bool, Option, none, some, List, [], ◌∷◌, ◌++◌, Bytes, Text, ℤ, pos, and_then, ◌≡◌, refl, All,
  map,
}
use app_server.Decimal.{to_string}
use app_server.Json.{JsonLibrary}

pub data ContentType : Type 0 where
  text : ContentType

pub data MessageType : Type 0 where
  chat log_request log_response reg_request reg_response send_verify_code : MessageType
  ret_verify_code add_friend_request add_friend_respone_message delete_friend : MessageType
  friend_confirm inform_friend_apply check_personal_info cache_info : MessageType

unfoldable pub message_code : MessageType → ℕ
message_code chat = 0x01
message_code log_request = 0x02
message_code log_response = 0x03
message_code reg_request = 0x04
message_code reg_response = 0x05
message_code send_verify_code = 0x06
message_code ret_verify_code = 0x07
message_code add_friend_request = 0x08
message_code add_friend_respone_message = 0x09
message_code delete_friend = 0xa
message_code friend_confirm = 0xb
message_code inform_friend_apply = 0xc
message_code check_personal_info = 0xd
message_code cache_info = 0x0e

pub data MessageStatus : Type 0 where
  created pending_send sent received pending_process processing processed : MessageStatus
  send_failed receive_failed processing_error acknowledged ack_timeout : MessageStatus

-- static_cast<int>(status)
unfoldable pub status_code : MessageStatus → ℤ
status_code created = pos 0
status_code pending_send = pos 1
status_code sent = pos 2
status_code received = pos 3
status_code pending_process = pos 4
status_code processing = pos 5
status_code processed = pos 6
status_code send_failed = pos 7
status_code receive_failed = pos 8
status_code processing_error = pos 9
status_code acknowledged = pos 10
status_code ack_timeout = pos 11

-- What a constructor reads from outside: std::time, twice, and rand.
pub record Stamp : Type 0 where
  pub id_time : ℕ
  pub random : ℕ
  pub time : ℕ

-- What members hold that no constructor sets, by the name of the member, and the array of a packet.
pub record Memory : Type 0 where
  pub unsigned : String → ℕ
  pub flag : String → Bool
  pub array : Bytes

pub record MessageBase : Type 0 where
  pub messageid : Text
  pub contenttype : ContentType
  pub status : MessageStatus
  pub timestamp : ℤ

unfoldable pub generate_message_id : Stamp → Text
generate_message_id s = to_string s.id_time ++ to_string s.random

unfoldable pub new_base : Stamp → ContentType → MessageStatus → MessageBase
unfolding generate_message_id
new_base s content status = record {
  messageid = generate_message_id s;
  contenttype = content;
  status = status;
  timestamp = pos s.time;
}

-- A message class is the base class with a member `info_`.
pub record Message (Info : Type 0) : Type 0 where
  pub base : MessageBase
  pub info : Info

-- The base of every message that a constructor makes.
unfoldable pub created_base : Stamp → MessageBase
unfolding new_base
created_base s = new_base s text created

-- castFromString: `info_` is replaced if the text parses and has the members; otherwise the
-- exception is caught and the message stays as it was.
unfoldable pub cast_info :
    {Info : Type 0} (J : JsonLibrary) → (J.Json → Option Info) → Text → Message Info → Message Info
cast_info J from_json source m = elim (and_then (J.parse source) from_json) [
  | none ↦ m
  | some i ↦ record m { info = i }
]

-- j.at(k).get_to(v)
abbrev pub member :
    {A : Type 0} (J : JsonLibrary) → J.Json → String → (J.Json → Option A) → Option A
member J j k get = and_then (J.at j k) get

-- Every element of an array, by the reader of its type.
pub every : {A B : Type 0} → (A → Option B) → List A → Option (List B)
every get [] = some []
every get (j ∷ js) = and_then (get j) λ a. and_then (every get js) λ rest. some (a ∷ rest)

pub every-map :
    {A B : Type 0} (P : B → Type 0) (get : A → Option B) (put : B → A)
    → ((b : B) → P b → get (put b) ≡ some b)
    → (bs : List B) → All P bs
    → every get (map put bs) ≡ some bs
unfolding every
every-map P get put h [] hs = refl
every-map P get put h (b ∷ bs) hs = rw (h b hs.0, every-map P get put h bs hs.1)

-- A message whose text parses and has the members takes its `info_` from it.
pub cast_info-some :
    {Info : Type 0} (J : JsonLibrary) (from_json : J.Json → Option Info) (source : Text)
    (m : Message Info) (j : J.Json) (i : Info)
    → J.parse source ≡ some j
    → from_json j ≡ some i
    → cast_info J from_json source m ≡ record m { info = i }
unfolding cast_info
cast_info-some J from_json source m j i p q = rw (p, q, cast_info)

pub cast_info-none :
    {Info : Type 0} (J : JsonLibrary) (from_json : J.Json → Option Info) (source : Text)
    (m : Message Info) (j : J.Json)
    → J.parse source ≡ some j
    → from_json j ≡ none
    → cast_info J from_json source m ≡ m
unfolding cast_info
cast_info-none J from_json source m j p q = rw (p, q, cast_info)
