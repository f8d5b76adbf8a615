-- ===== src/Message/Person.antt =====
-- struct PersonalPublicInfo and struct PersonalPrivateInfo: src/Message/include/MessageBase.h.
use app_server.Base.{
  ℕ, ◌<◌, ◌^◌, ◌≡◌, Option, none, some, List, [], ◌∷◌, map, Text, literal, ℤ, pos, IsInt, All,
  and_then,
}
use app_server.Json.{JsonLibrary, IsJsonLibrary}
use app_server.Message.{member, every, every-map}

pub record PersonalPublicInfo : Type 0 where
  pub username : Text
  pub id : ℕ
  pub email : Text
  pub age : ℤ

abbrev pub new_public_info : Text → ℕ → ℤ → Text → PersonalPublicInfo
new_public_info name id age email = record { username = name; id = id; email = email; age = age }

abbrev pub default_public_info : PersonalPublicInfo
default_public_info = record { username = literal " "; id = 0; email = literal ""; age = pos 0 }

pub record PersonalPrivateInfo : Type 0 where
  pub password : Text
  pub friend_list : List PersonalPublicInfo
  pub friend_apply : List PersonalPublicInfo

abbrev pub default_private_info : PersonalPrivateInfo
default_private_info = record { password = literal " "; friend_list = []; friend_apply = [] }

-- The numbers fit their C++ types.
pub record IsPublic (p : PersonalPublicInfo) : Type 0 where
  pub id : p.id < 2 ^ 64
  pub age : IsInt p.age

module _ (J : JsonLibrary) where
  open J use {
    Json, of_text, of_unsigned, of_int, of_list, of_fields, at, get_text, get_unsigned, get_int,
    get_list,
  }

  unfoldable pub public_to_json : PersonalPublicInfo → Json
  public_to_json p = of_fields (
      ("username", of_text p.username)
      ∷ ("age", of_int p.age)
      ∷ ("email", of_text p.email)
      ∷ ("id", of_unsigned p.id)
      ∷ [])

  unfoldable pub public_from_json : Json → Option PersonalPublicInfo
  public_from_json j = and_then (member J j "username" get_text) λ username.
      and_then (member J j "age" get_int) λ age. and_then (member J j "email" get_text) λ email.
        and_then (member J j "id" get_unsigned)
          λ id. some (record { username = username; id = id; email = email; age = age })

  unfoldable pub publics_to_json : List PersonalPublicInfo → Json
  publics_to_json ps = of_list (map public_to_json ps)

  unfoldable pub publics_from_json : Json → Option (List PersonalPublicInfo)
  publics_from_json j = and_then (get_list j) (every public_from_json)

  unfoldable pub private_to_json : PersonalPrivateInfo → Json
  private_to_json p = of_fields (
      ("password", of_text p.password)
      ∷ ("friend_list", publics_to_json p.friend_list)
      ∷ ("friend_apply", publics_to_json p.friend_apply)
      ∷ [])

  unfoldable pub private_from_json : Json → Option PersonalPrivateInfo
  private_from_json j = and_then (member J j "password" get_text) λ password.
      and_then (member J j "friend_apply" publics_from_json) λ friend_apply.
        and_then (member J j "friend_listg" publics_from_json) λ friend_list.
          some
            (record { password = password; friend_list = friend_list; friend_apply = friend_apply })

module _ {J : JsonLibrary} (laws : IsJsonLibrary J) where
  pub public_from_json-public_to_json :
      (p : PersonalPublicInfo) → IsPublic p → public_from_json J (public_to_json J p) ≡ some p
  unfolding public_from_json public_to_json
  public_from_json-public_to_json p v = simp (
    laws.at-of_fields,
    laws.get_text-of_text,
    laws.get_int-of_int p.age v.age,
    laws.get_unsigned-of_unsigned p.id v.id,
  )

  pub publics_from_json-publics_to_json :
      (ps : List PersonalPublicInfo)
      → All IsPublic ps
      → publics_from_json J (publics_to_json J ps) ≡ some ps
  unfolding publics_from_json publics_to_json
  publics_from_json-publics_to_json ps vs = rw (laws.get_list-of_list (map (public_to_json J) ps)) (
      every-map IsPublic (public_from_json J) (public_to_json J) public_from_json-public_to_json ps
        vs)

  -- Private information that was written, with applicants whose ids and ages fit their types,
  -- cannot be read back: the reader asks for a member "friend_listg", which the writer does not
  -- write.
  pub private_from_json-private_to_json :
      (p : PersonalPrivateInfo)
      → All IsPublic p.friend_apply
      → private_from_json J (private_to_json J p) ≡ none
  unfolding private_from_json private_to_json
  private_from_json-private_to_json p vs = simp (
    laws.at-of_fields,
    laws.get_text-of_text,
    publics_from_json-publics_to_json p.friend_apply vs,
  )
