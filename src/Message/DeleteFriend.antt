-- ===== src/Message/DeleteFriend.antt =====
-- class DeleteFriendMessage: src/Message/include/ChatMessage.h and src/Message/src/ChatMessage.cpp.
use app_server.Base.{ℕ, ◌<◌, ◌^◌, ◌≡◌, Option, some, [], ◌∷◌, Text, literal, and_then}
use app_server.Json.{JsonLibrary, IsJsonLibrary}
use app_server.Message.{
  Stamp, Message, created_base, status_code, cast_info, cast_info-some, member,
}

pub record Info : Type 0 where
  pub username : Text
  pub friend_id : ℕ
  pub own_id : ℕ

-- The numbers fit their C++ types.
pub record IsInfo (i : Info) : Type 0 where
  pub friend_id : i.friend_id < 2 ^ 64
  pub own_id : i.own_id < 2 ^ 64

unfoldable pub new_message : Stamp → Text → ℕ → ℕ → Message Info
new_message stamp username friend_id own_id = record {
  base = created_base stamp;
  info = record { username = username; friend_id = friend_id; own_id = own_id };
}

abbrev pub get_type : Text
get_type = literal "DeleteFriendMessage"

abbrev get_username : Message Info → Text
get_username m = m.info.username

abbrev pub get_friend_id : Message Info → ℕ
get_friend_id m = m.info.friend_id

abbrev pub get_own_id : Message Info → ℕ
get_own_id m = m.info.own_id

module _ (J : JsonLibrary) where
  open J use {
    Json, dump, of_text, of_unsigned, of_int, of_bool, of_list, of_fields, get_text, get_unsigned,
    get_bool,
  }

  unfoldable pub info_to_json : Info → Json
  info_to_json i = of_fields (
      ("username", of_text i.username)
      ∷ ("friend_id", of_unsigned i.friend_id)
      ∷ ("own_id", of_unsigned i.own_id)
      ∷ [])

  unfoldable pub info_from_json : Json → Option Info
  info_from_json j = and_then (member J j "username" get_text) λ username.
      and_then (member J j "friend_id" get_unsigned) λ friend_id.
        and_then (member J j "own_id" get_unsigned)
          λ own_id. some (record { username = username; friend_id = friend_id; own_id = own_id })

  unfoldable pub cast_from_string : Text → Message Info → Message Info
  cast_from_string = cast_info J info_from_json

  unfoldable pub to_json : Message Info → Json
  to_json m = of_fields (
      ("username", of_text m.info.username)
      ∷ ("friend_id", of_unsigned m.info.friend_id)
      ∷ ("own_id", of_unsigned m.info.own_id)
      ∷ ("timestamp", of_int m.base.timestamp)
      ∷ ("messageid", of_text m.base.messageid)
      ∷ ("messagetype", of_text get_type)
      ∷ ("status", of_int (status_code m.base.status))
      ∷ [])

module _ {J : JsonLibrary} (laws : IsJsonLibrary J) where
  -- Writing the members and reading them gives them back.
  pub info_from_json-info_to_json :
      (i : Info) → IsInfo i → info_from_json J (info_to_json J i) ≡ some i
  unfolding info_from_json info_to_json
  info_from_json-info_to_json i h = simp (
    laws.at-of_fields,
    laws.get_text-of_text,
    laws.get_unsigned-of_unsigned i.friend_id h.friend_id,
    laws.get_unsigned-of_unsigned i.own_id h.own_id,
  )

  info_from_json-to_json :
      (m : Message Info) → IsInfo m.info → info_from_json J (to_json J m) ≡ some m.info
  unfolding info_from_json to_json
  info_from_json-to_json m h = simp (
    laws.at-of_fields,
    laws.get_text-of_text,
    laws.get_unsigned-of_unsigned m.info.friend_id h.friend_id,
    laws.get_unsigned-of_unsigned m.info.own_id h.own_id,
  )

  -- Another object of the class that is cast from the text of this message takes over what the
  -- message holds, and keeps its own base.
  pub cast_from_string-dump :
      (m n : Message Info) (s : Text)
      → IsInfo m.info
      → J.dump (to_json J m) ≡ some s
      → cast_from_string J s n ≡ record n { info = m.info }
  unfolding cast_from_string
  cast_from_string-dump m n s h e =
      cast_info-some J (info_from_json J) s n (to_json J m) m.info (laws.parse-dump _ s e)
        (info_from_json-to_json m h)
