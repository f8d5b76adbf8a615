-- ===== src/Message/Chat.antt =====
-- class ChatMessage: src/Message/include/ChatMessage.h and src/Message/src/ChatMessage.cpp.
use app_server.Base.{ℕ, ◌<◌, ◌^◌, ◌≡◌, Option, some, [], ◌∷◌, ◌++◌, Text, literal, and_then}
use app_server.Decimal.{int_to_string}
use app_server.Json.{JsonLibrary, IsJsonLibrary}
use app_server.Message.{
  Memory, Stamp, Message, created_base, status_code, cast_info, cast_info-some, member,
}

pub record Info : Type 0 where
  pub content : Text
  pub sender : Text
  pub receiver : Text
  pub uid_receiver : ℕ
  pub uid_sender : ℕ

-- The numbers fit their C++ types.
pub record IsInfo (i : Info) : Type 0 where
  pub uid_receiver : i.uid_receiver < 2 ^ 64
  pub uid_sender : i.uid_sender < 2 ^ 64

-- The arguments are not used: the texts are empty and the ids are not set.
unfoldable pub new_message : Memory → Stamp → Text → Text → Text → Message Info
new_message memory stamp content sender receiver = record {
  base = created_base stamp;
  info = record {
    content = [];
    sender = [];
    receiver = [];
    uid_receiver = memory.unsigned "uid_receiver";
    uid_sender = memory.unsigned "uid_sender";
  };
}

abbrev pub get_type : Text
get_type = literal "ChatMessage"

-- What printMessage logs.
unfoldable pub print_message : Message Info → Text
print_message m =
    literal "sender : "
    ++ m.info.sender
    ++ literal "   receiver :"
    ++ m.info.receiver
    ++ literal "   content : "
    ++ m.info.content
    ++ literal "   timestamp : "
    ++ int_to_string m.base.timestamp

abbrev get_uid_sender : Message Info → ℕ
get_uid_sender m = m.info.uid_sender

abbrev pub get_uid_receiver : Message Info → ℕ
get_uid_receiver m = m.info.uid_receiver

abbrev get_conent : Message Info → Text
get_conent m = m.info.content

module _ (J : JsonLibrary) where
  open J use {
    Json, dump, of_text, of_unsigned, of_int, of_bool, of_list, of_fields, get_text, get_unsigned,
    get_bool,
  }

  unfoldable pub info_to_json : Info → Json
  info_to_json i = of_fields (
      ("content", of_text i.content)
      ∷ ("sender", of_text i.sender)
      ∷ ("receiver", of_text i.receiver)
      ∷ ("uid_receiver", of_unsigned i.uid_receiver)
      ∷ ("uid_sender", of_unsigned i.uid_sender)
      ∷ [])

  unfoldable pub info_from_json : Json → Option Info
  info_from_json j = and_then (member J j "content" get_text) λ content.
      and_then (member J j "sender" get_text) λ sender.
        and_then (member J j "receiver" get_text) λ receiver.
          and_then (member J j "uid_receiver" get_unsigned) λ uid_receiver.
            and_then (member J j "uid_sender" get_unsigned) λ uid_sender. some (record {
              content = content;
              sender = sender;
              receiver = receiver;
              uid_receiver = uid_receiver;
              uid_sender = uid_sender;
            })

  unfoldable pub cast_from_string : Text → Message Info → Message Info
  cast_from_string = cast_info J info_from_json

  unfoldable pub to_json : Message Info → Json
  to_json m = of_fields (
      ("sender", of_text m.info.sender)
      ∷ ("content", of_text m.info.content)
      ∷ ("receiver", of_text m.info.receiver)
      ∷ ("uid_sender", of_unsigned m.info.uid_sender)
      ∷ ("uid_receiver", of_unsigned m.info.uid_receiver)
      ∷ ("timestamp", of_int m.base.timestamp)
      ∷ ("messageid", of_text m.base.messageid)
      ∷ ("messagetype", of_text get_type)
      ∷ ("status", of_int (status_code m.base.status))
      ∷ [])

module _ {J : JsonLibrary} (laws : IsJsonLibrary J) where
  -- Writing the members and reading them gives them back.
  pub info_from_json-info_to_json :
      (i : Info) → IsInfo i → info_from_json J (info_to_json J i) ≡ some i
  unfolding info_from_json info_to_json
  info_from_json-info_to_json i h = simp (
    laws.at-of_fields,
    laws.get_text-of_text,
    laws.get_unsigned-of_unsigned i.uid_receiver h.uid_receiver,
    laws.get_unsigned-of_unsigned i.uid_sender h.uid_sender,
  )

  info_from_json-to_json :
      (m : Message Info) → IsInfo m.info → info_from_json J (to_json J m) ≡ some m.info
  unfolding info_from_json to_json
  info_from_json-to_json m h = simp (
    laws.at-of_fields,
    laws.get_text-of_text,
    laws.get_unsigned-of_unsigned m.info.uid_receiver h.uid_receiver,
    laws.get_unsigned-of_unsigned m.info.uid_sender h.uid_sender,
  )

  -- A chat message that is cast from the text of another, whose ids fit 64 bits, takes over its
  -- content, names and ids, and keeps its own base.
  pub cast_from_string-dump :
      (m n : Message Info) (s : Text)
      → IsInfo m.info
      → J.dump (to_json J m) ≡ some s
      → cast_from_string J s n ≡ record n { info = m.info }
  unfolding cast_from_string
  cast_from_string-dump m n s h e =
      cast_info-some J (info_from_json J) s n (to_json J m) m.info (laws.parse-dump _ s e)
        (info_from_json-to_json m h)
