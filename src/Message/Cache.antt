-- ===== src/Message/Cache.antt =====
-- class CacheMessage: src/Message/include/CacheMessage.h and src/Message/src/CacheMessage.cpp.
use app_server.Base.{◌≡◌, Option, some, List, [], ◌∷◌, Text, literal, All, and_then}
use app_server.Json.{JsonLibrary, IsJsonLibrary}
use app_server.Message.{
  Stamp, Message, created_base, status_code, cast_info, cast_info-some, member,
}
use app_server.Message.Person.{
  PersonalPublicInfo, IsPublic, publics_to_json, publics_from_json,
  publics_from_json-publics_to_json,
}

pub record Info : Type 0 where
  pub public_info_cache : List PersonalPublicInfo

-- The numbers fit their C++ types.
pub record IsInfo (i : Info) : Type 0 where
  pub public_info_cache : All IsPublic i.public_info_cache

unfoldable pub new_message : Stamp → List PersonalPublicInfo → Message Info
new_message stamp public_info = record {
  base = created_base stamp;
  info = record { public_info_cache = public_info };
}

abbrev pub get_type : Text
get_type = literal "CacheInfo"

module _ (J : JsonLibrary) where
  open J use {
    Json, dump, of_text, of_unsigned, of_int, of_bool, of_list, of_fields, get_text, get_unsigned,
    get_bool,
  }

  unfoldable pub info_to_json : Info → Json
  info_to_json i = of_fields (("public_info_cache", publics_to_json J i.public_info_cache) ∷ [])

  unfoldable pub info_from_json : Json → Option Info
  info_from_json j =
      and_then (member J j "public_info_cache" (publics_from_json J))
        λ public_info_cache. some (record { public_info_cache = public_info_cache })

  unfoldable pub cast_from_string : Text → Message Info → Message Info
  cast_from_string = cast_info J info_from_json

  unfoldable pub to_json : Message Info → Json
  to_json m = of_fields (
      ("public_info_cache", publics_to_json J m.info.public_info_cache)
      ∷ ("timestamp", of_int m.base.timestamp)
      ∷ ("messageid", of_text m.base.messageid)
      ∷ ("messagetype", of_text get_type)
      ∷ ("status", of_int (status_code m.base.status))
      ∷ [])

module _ {J : JsonLibrary} (laws : IsJsonLibrary J) where
  -- Writing the members and reading them gives them back.
  pub info_from_json-info_to_json :
      (i : Info) → IsInfo i → info_from_json J (info_to_json J i) ≡ some i
  unfolding info_from_json info_to_json
  info_from_json-info_to_json i h = simp (
    laws.at-of_fields,
    publics_from_json-publics_to_json laws i.public_info_cache h.public_info_cache,
  )

  info_from_json-to_json :
      (m : Message Info) → IsInfo m.info → info_from_json J (to_json J m) ≡ some m.info
  unfolding info_from_json to_json
  info_from_json-to_json m h = simp (
    laws.at-of_fields,
    publics_from_json-publics_to_json laws m.info.public_info_cache h.public_info_cache,
  )

  -- Another object of the class that is cast from the text of this message takes over what the
  -- message holds, and keeps its own base.
  pub cast_from_string-dump :
      (m n : Message Info) (s : Text)
      → IsInfo m.info
      → J.dump (to_json J m) ≡ some s
      → cast_from_string J s n ≡ record n { info = m.info }
  unfolding cast_from_string
  cast_from_string-dump m n s h e =
      cast_info-some J (info_from_json J) s n (to_json J m) m.info (laws.parse-dump _ s e)
        (info_from_json-to_json m h)
