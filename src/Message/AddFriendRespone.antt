-- ===== src/Message/AddFriendRespone.antt =====
-- class AddFriendResponeMessage: src/Message/include/ChatMessage.h and src/Message/src/ChatMessage.cpp.
use app_server.Base.{◌≡◌, Bool, Option, some, [], ◌∷◌, Text, literal, and_then}
use app_server.Json.{JsonLibrary, IsJsonLibrary}
use app_server.Message.{
  Memory, Stamp, Message, created_base, status_code, cast_info, cast_info-some, member,
}
use app_server.Message.Person.{
  PersonalPublicInfo, IsPublic, public_to_json, public_from_json, public_from_json-public_to_json,
}

pub record Info : Type 0 where
  pub public_info : PersonalPublicInfo
  pub success : Bool

-- The numbers fit their C++ types.
pub record IsInfo (i : Info) : Type 0 where
  pub public_info : IsPublic i.public_info

unfoldable pub new_message : Stamp → Bool → PersonalPublicInfo → Message Info
new_message stamp success public_info = record {
  base = created_base stamp;
  info = record { public_info = public_info; success = success };
}

abbrev pub get_type : Text
get_type = literal "AddFriendResponeMessage"

abbrev get_uid_sender : Message Info → PersonalPublicInfo
get_uid_sender m = m.info.public_info

abbrev get_success : Message Info → Bool
get_success m = m.info.success

module _ (J : JsonLibrary) where
  open J use {
    Json, dump, of_text, of_unsigned, of_int, of_bool, of_list, of_fields, get_text, get_unsigned,
    get_bool,
  }

  unfoldable pub info_to_json : Info → Json
  info_to_json i =
      of_fields
        (("public_info", public_to_json J i.public_info) ∷ ("success", of_bool i.success) ∷ [])

  -- Of the members that are not read, `memory` is what a new Info holds.
  unfoldable pub info_from_json : Memory → Json → Option Info
  info_from_json memory j =
      and_then (member J j "public_info" (public_from_json J))
        λ public_info. some (record { public_info = public_info; success = memory.flag "success" })

  unfoldable pub cast_from_string : Memory → Text → Message Info → Message Info
  cast_from_string memory = cast_info J (info_from_json memory)

  unfoldable pub to_json : Message Info → Json
  to_json m = of_fields (
      ("public_info", public_to_json J m.info.public_info)
      ∷ ("bool", of_bool m.info.success)
      ∷ ("timestamp", of_int m.base.timestamp)
      ∷ ("messageid", of_text m.base.messageid)
      ∷ ("messagetype", of_text get_type)
      ∷ ("status", of_int (status_code m.base.status))
      ∷ [])

module _ {J : JsonLibrary} (laws : IsJsonLibrary J) where
  info_from_json-to_json :
      (memory : Memory) (m : Message Info)
      → IsInfo m.info
      → info_from_json J memory (to_json J m)
        ≡ some (record { public_info = m.info.public_info; success = memory.flag "success" })
  unfolding info_from_json to_json
  info_from_json-to_json memory m h =
      simp
        (laws.at-of_fields, public_from_json-public_to_json laws m.info.public_info h.public_info)

  -- From the text of an answer to a friend request, whose public information fits its types, a
  -- message object takes the public information, but not whether the request succeeded: that member
  -- is left unset.
  respone_without_success :
      (memory : Memory) (m n : Message Info) (s : Text)
      → IsInfo m.info
      → J.dump (to_json J m) ≡ some s
      → cast_from_string J memory s n ≡ record n {
        info = record { public_info = m.info.public_info; success = memory.flag "success" };
      }
  unfolding cast_from_string
  respone_without_success memory m n s h e =
      cast_info-some J (info_from_json J memory) s n (to_json J m) _ (laws.parse-dump _ s e)
        (info_from_json-to_json memory m h)
