-- ===== src/Message/VerifyCodeRes.antt =====
-- class VerifyCodeResMessage: src/Message/include/RegisterMessage.h and src/Message/src/RegisterMessage.cpp.
use app_server.Base.{◌≡◌, Option, some, [], ◌∷◌, Text, literal, and_then}
use app_server.Json.{JsonLibrary, IsJsonLibrary}
use app_server.Message.{Stamp, Message, created_base, cast_info, cast_info-some, member}

pub record Info : Type 0 where
  pub code : Text

unfoldable pub new_message : Stamp → Text → Message Info
new_message stamp code = record { base = created_base stamp; info = record { code = code } }

abbrev pub get_type : Text
get_type = literal "VerifyCodeResMessage"

abbrev get_email : Message Info → Text
get_email m = m.info.code

module _ (J : JsonLibrary) where
  open J use {
    Json, dump, of_text, of_unsigned, of_int, of_bool, of_list, of_fields, get_text, get_unsigned,
    get_bool,
  }

  unfoldable pub info_to_json : Info → Json
  info_to_json i = of_fields (("code", of_text i.code) ∷ [])

  unfoldable pub info_from_json : Json → Option Info
  info_from_json j = and_then (member J j "code" get_text) λ code. some (record { code = code })

  unfoldable pub cast_from_string : Text → Message Info → Message Info
  cast_from_string = cast_info J info_from_json

  unfoldable pub to_json : Message Info → Json
  to_json m = of_fields (("messagetype", of_text get_type) ∷ ("code", of_text m.info.code) ∷ [])

module _ {J : JsonLibrary} (laws : IsJsonLibrary J) where
  -- Writing the members and reading them gives them back.
  pub info_from_json-info_to_json : (i : Info) → info_from_json J (info_to_json J i) ≡ some i
  unfolding info_from_json info_to_json
  info_from_json-info_to_json i = simp (laws.at-of_fields, laws.get_text-of_text)

  info_from_json-to_json : (m : Message Info) → info_from_json J (to_json J m) ≡ some m.info
  unfolding info_from_json to_json
  info_from_json-to_json m = simp (laws.at-of_fields, laws.get_text-of_text)

  -- Another object of the class that is cast from the text of this message takes over what the
  -- message holds, and keeps its own base.
  pub cast_from_string-dump :
      (m n : Message Info) (s : Text)
      → J.dump (to_json J m) ≡ some s
      → cast_from_string J s n ≡ record n { info = m.info }
  unfolding cast_from_string
  cast_from_string-dump m n s e =
      cast_info-some J (info_from_json J) s n (to_json J m) m.info (laws.parse-dump _ s e)
        (info_from_json-to_json m)
