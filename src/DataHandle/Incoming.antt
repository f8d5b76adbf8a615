-- ===== src/DataHandle/Incoming.antt =====
-- What the body of a packet says: the information that castFromString finds in it, or that it finds
-- none.
use app_server.Base.{◌≡◌, Option, none, some, done, Text, and_then}
use app_server.Packet.{TcpPacket, c_string}
use app_server.Json.{JsonLibrary}
use app_server.Message.{Message, cast_info}

module _ (J : JsonLibrary) {Info : Type 0} (from_json : J.Json → Option Info) where
  -- The C string of the body is the text of a value with the members that the reader asks for.
  pub record Carries (packet : TcpPacket) (i : Info) : Type 0 where
    pub source : Text
    pub reads : c_string packet.body ≡ done source
    pub casts : and_then (J.parse source) from_json ≡ some i

  -- The C string of the body is no such text.
  pub record IsUnreadable (packet : TcpPacket) : Type 0 where
    pub source : Text
    pub reads : c_string packet.body ≡ done source
    pub casts : and_then (J.parse source) from_json ≡ none

  pub cast_info-some :
      (source : Text) (m : Message Info) (i : Info)
      → and_then (J.parse source) from_json ≡ some i
      → cast_info J from_json source m ≡ record m { info = i }
  unfolding cast_info
  cast_info-some source m i e = rw (e, cast_info)

  pub cast_info-none :
      (source : Text) (m : Message Info)
      → and_then (J.parse source) from_json ≡ none
      → cast_info J from_json source m ≡ m
  unfolding cast_info
  cast_info-none source m e = rw (e, cast_info)
