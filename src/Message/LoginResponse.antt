-- ===== src/Message/LoginResponse.antt =====
-- class LoginResponseMessage: src/Message/include/LoginMessage.h and src/Message/src/LoginMessage.cpp.
use app_server.Base.{◌≡◌, Bool, true, Option, none, some, [], ◌∷◌, Text, literal, All, and_then}
use app_server.Json.{JsonLibrary, IsJsonLibrary}
use app_server.Message.{Stamp, Message, created_base, cast_info, cast_info-none, member}
use app_server.Message.Person.{
  PersonalPublicInfo, PersonalPrivateInfo, IsPublic, public_to_json, public_from_json,
  private_to_json, private_from_json, public_from_json-public_to_json,
  private_from_json-private_to_json,
}

pub record Info : Type 0 where
  pub success : Bool
  pub public_info : PersonalPublicInfo
  pub private_info : PersonalPrivateInfo

unfoldable pub new_message : Stamp → PersonalPublicInfo → PersonalPrivateInfo → Bool → Message Info
new_message stamp public_info private_info success = record {
  base = created_base stamp;
  info = record { success = success; public_info = public_info; private_info = private_info };
}

abbrev pub get_type : Text
get_type = literal "LoginResponseMessage"

unfoldable pub set_successful : Message Info → Message Info
set_successful m = record m { info = record (m.info) { success = true } }

module _ (J : JsonLibrary) where
  open J use {
    Json, dump, of_text, of_unsigned, of_int, of_bool, of_list, of_fields, get_text, get_unsigned,
    get_bool,
  }

  unfoldable pub info_to_json : Info → Json
  info_to_json i = of_fields (
      ("public_info", public_to_json J i.public_info)
      ∷ ("private_info", private_to_json J i.private_info)
      ∷ ("success", of_bool i.success)
      ∷ [])

  unfoldable pub info_from_json : Json → Option Info
  info_from_json j = and_then (member J j "public_info" (public_from_json J)) λ public_info.
      and_then (member J j "private_info" (private_from_json J)) λ private_info.
        and_then (member J j "success" get_bool) λ success.
          some
            (record { success = success; public_info = public_info; private_info = private_info })

  unfoldable pub cast_from_string : Text → Message Info → Message Info
  cast_from_string = cast_info J info_from_json

  unfoldable pub to_json : Message Info → Json
  to_json m = of_fields (
      ("messagetype", of_text get_type)
      ∷ ("public_info", public_to_json J m.info.public_info)
      ∷ ("private_info", private_to_json J m.info.private_info)
      ∷ ("success", of_bool m.info.success)
      ∷ [])

module _ {J : JsonLibrary} (laws : IsJsonLibrary J) where
  info_from_json-to_json :
      (m : Message Info)
      → IsPublic m.info.public_info
      → All IsPublic m.info.private_info.friend_apply
      → info_from_json J (to_json J m) ≡ none
  unfolding info_from_json to_json
  info_from_json-to_json m hp ha = simp (
    laws.at-of_fields,
    public_from_json-public_to_json laws m.info.public_info hp,
    private_from_json-private_to_json laws m.info.private_info ha,
  )

  -- A login response, with public information that fits its types, cannot be read by the class
  -- itself: a message object that is cast from its text stays as it was.
  login_response_unread :
      (m n : Message Info) (s : Text)
      → IsPublic m.info.public_info
      → All IsPublic m.info.private_info.friend_apply
      → J.dump (to_json J m) ≡ some s
      → cast_from_string J s n ≡ n
  unfolding cast_from_string
  login_response_unread m n s hp ha e =
      cast_info-none J (info_from_json J) s n (to_json J m) (laws.parse-dump _ s e)
        (info_from_json-to_json m hp ha)
