-- ===== src/Message/InformFriendApply.antt =====
-- class InformFriendApplyMessage: src/Message/include/ChatMessage.h and src/Message/src/ChatMessage.cpp.
use app_server.Base.{ℕ, ◌≡◌, Option, none, some, List, [], ◌∷◌, ◌++◌, Text, literal, and_then}
use app_server.Json.{JsonLibrary, IsJsonLibrary}
use app_server.Message.{
  Memory, Stamp, Message, created_base, status_code, cast_info, cast_info-none, member,
}
use app_server.Message.Person.{PersonalPublicInfo, publics_to_json, publics_from_json}

pub record Info : Type 0 where
  pub apply_public_info : List PersonalPublicInfo
  pub friend_id : ℕ
  pub username : Text

-- The arguments are not used.
unfoldable pub new_message : Memory → Stamp → ℕ → Text → Message Info
new_message memory stamp friend_id username = record {
  base = created_base stamp;
  info = record { apply_public_info = []; friend_id = memory.unsigned "friend_id"; username = [] };
}

abbrev pub get_type : Text
get_type = literal "InformFriendApplyMessage"

-- addFriendApply: push_back
unfoldable pub add_friend_apply : PersonalPublicInfo → Message Info → Message Info
add_friend_apply p m = record m {
  info = record (m.info) { apply_public_info = m.info.apply_public_info ++ p ∷ [] };
}

abbrev get_friend_id : Message Info → ℕ
get_friend_id m = m.info.friend_id

abbrev get_username : Message Info → Text
get_username m = m.info.username

module _ (J : JsonLibrary) where
  open J use {
    Json, dump, of_text, of_unsigned, of_int, of_bool, of_list, of_fields, get_text, get_unsigned,
    get_bool,
  }

  unfoldable pub info_to_json : Info → Json
  info_to_json i = of_fields (("public_info", publics_to_json J i.apply_public_info) ∷ [])

  -- Of the members that are not read, `memory` is what a new Info holds.
  unfoldable pub info_from_json : Memory → Json → Option Info
  info_from_json memory j =
      and_then (member J j "public_info" (publics_from_json J)) λ apply_public_info. some (record {
        apply_public_info = apply_public_info;
        friend_id = memory.unsigned "friend_id";
        username = [];
      })

  unfoldable pub cast_from_string : Memory → Text → Message Info → Message Info
  cast_from_string memory = cast_info J (info_from_json memory)

  unfoldable pub to_json : Message Info → Json
  to_json m = of_fields (
      ("friend_id,", of_unsigned m.info.friend_id)
      ∷ ("username", of_text m.info.username)
      ∷ ("timestamp", of_int m.base.timestamp)
      ∷ ("messageid", of_text m.base.messageid)
      ∷ ("messagetype", of_text get_type)
      ∷ ("status", of_int (status_code m.base.status))
      ∷ [])

module _ {J : JsonLibrary} (laws : IsJsonLibrary J) where
  info_from_json-to_json :
      (memory : Memory) (m : Message Info) → info_from_json J memory (to_json J m) ≡ none
  unfolding info_from_json to_json
  info_from_json-to_json memory m = simp laws.at-of_fields

  -- The text of a message never has the member that the reader asks for, so a client that casts it
  -- is left with what it had: the applications do not arrive.
  pub cast_from_string-dump :
      (memory : Memory) (m n : Message Info) (s : Text)
      → J.dump (to_json J m) ≡ some s
      → cast_from_string J memory s n ≡ n
  unfolding cast_from_string
  cast_from_string-dump memory m n s e =
      cast_info-none J (info_from_json J memory) s n (to_json J m) (laws.parse-dump _ s e)
        (info_from_json-to_json memory m)
