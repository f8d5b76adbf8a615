-- ===== src/DataHandle/Conversation.antt =====
-- Packets that DataHandleMachine handles one after the other.
pub mod Chatting
pub mod Friending
pub mod Tables
pub mod Followed
use app_server.Base.{ℕ, Bool, List, [], ◌∷◌, Outcome, done, ◌>>=◌}
use app_server.Packet.{TcpPacket}
use app_server.Message.{Stamp}
use app_server.DataHandle.{Env, Moment, met, World, handle_data}

-- A packet, the socket that it came from, and the moment at which it is handled.
pub record Arrival : Type 0 where
  pub packet : TcpPacket
  pub client : ℕ
  pub moment : Moment

unfoldable pub handle_all :
    (E : Env) → List Arrival → World E.connector → Outcome (World E.connector)
handle_all E [] w = done w
handle_all E (a ∷ rest) w = do
  w' ← handle_data (met E a.moment) a.packet a.client w
  handle_all E rest w'
