-- ===== src/Message/RegisterResponse.antt =====
-- class RegisterResponseMessage: src/Message/include/RegisterMessage.h and src/Message/src/RegisterMessage.cpp.
use app_server.Base.{◌≡◌, Bool, true, Option, some, [], ◌∷◌, Text, literal, and_then}
use app_server.Json.{JsonLibrary, IsJsonLibrary}
use app_server.Message.{Stamp, Message, created_base, cast_info, cast_info-some, member}

pub record Info : Type 0 where
  pub success : Bool

unfoldable pub new_message : Stamp → Bool → Message Info
new_message stamp success = record {
  base = created_base stamp;
  info = record { success = success };
}

abbrev pub get_type : Text
get_type = literal "RegisterResponseMessage"

abbrev set_successful : Message Info → Message Info
set_successful m = record m { info = record m.info { success = true } }

module _ (J : JsonLibrary) where
  open J use {
    Json, dump, of_text, of_unsigned, of_int, of_bool, of_list, of_fields, get_text, get_unsigned,
    get_bool,
  }

  -- The braces are not a list of pairs: the result is an array of an array and a bool.
  unfoldable pub info_to_json : Info → Json
  info_to_json i = of_list (of_list (of_text (literal "success") ∷ []) ∷ of_bool i.success ∷ [])

  unfoldable pub info_from_json : Json → Option Info
  info_from_json j =
      and_then (member J j "success" get_bool) λ success. some (record { success = success })

  unfoldable pub cast_from_string : Text → Message Info → Message Info
  cast_from_string = cast_info J info_from_json

  unfoldable pub to_json : Message Info → Json
  to_json m =
      of_fields (("messagetype", of_text get_type) ∷ ("success", of_bool m.info.success) ∷ [])

module _ {J : JsonLibrary} (laws : IsJsonLibrary J) where
  info_from_json-to_json : (m : Message Info) → info_from_json J (to_json J m) ≡ some m.info
  unfolding info_from_json to_json
  info_from_json-to_json m = simp (laws.at-of_fields, laws.get_bool-of_bool)

  -- Another object of the class that is cast from the text of this message takes over what the
  -- message holds, and keeps its own base.
  pub cast_from_string-dump :
      (m n : Message Info) (s : Text)
      → J.dump (to_json J m) ≡ some s
      → cast_from_string J s n ≡ record n { info = m.info }
  unfolding cast_from_string
  cast_from_string-dump m n s e =
      cast_info-some J (info_from_json J) s n (to_json J m) m.info (laws.parse-dump _ s e)
        (info_from_json-to_json m)
