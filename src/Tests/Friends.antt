-- ===== src/Tests/Friends.antt =====
-- Requests, confirmations and deletions at concrete inputs: Bob asked Ann.
use app_server.DataHandle.{handle_data}
use app_server.DataHandle.Frame.{Frame, handle_data-Frame}
use app_server.UserConnectionManager.Invariant.{IsValid}
use app_server.Message.{MessageType, chat, message_code}
use app_server.Tests.Setting.{sample_manager}
use app_server.Base.{◌≢◌}
use mathlib.Core.List.{Mem}
use app_server.Base.{◌≡◌, refl, true, false, [], ◌∷◌, literal, arith, done}
use app_server.Packet.{TcpPacket}
use app_server.Decimal.{to_string, stoull}
use app_server.Message.FriendConfirm
use app_server.Message.DeleteFriend
use app_server.MysqlInteractor.FriendShipDao.{FriendShipTableData}
use app_server.MysqlInteractor.Statements.{placeholders}
use app_server.MysqlInteractor.Friendships.Lists.{friends}
use app_server.DataHandle.{World, handle_friend_confirm, handle_delete_friend}
use app_server.DataHandle.Incoming.{Carries}
use app_server.DataHandle.Friendships.{confirm_makes_friends, delete_parts}
use app_server.MysqlInteractor.Friendships.Apart.{IsApart}
use app_server.Tests.Values.{sample_json, sample_json-IsJsonLibrary}
use app_server.Tests.Tables.{
  Tables, sample_connector, sample_connector-IsFriendTable, friendships_of,
}
use app_server.Tests.Setting.{sample_env, sample_world, sample_tables, packet_of, packet_of-Carries}

abbrev confirmation : FriendConfirm.Info
confirmation = record { friend_id = 8; own_id = 7; success = true }

abbrev refusal : FriendConfirm.Info
refusal = record { friend_id = 8; own_id = 7; success = false }

confirmation-IsInfo : FriendConfirm.IsInfo confirmation
confirmation-IsInfo = record { friend_id = omega arith; own_id = omega arith }

refusal-IsInfo : FriendConfirm.IsInfo refusal
refusal-IsInfo = record { friend_id = omega arith; own_id = omega arith }

abbrev confirm_packet : FriendConfirm.Info → TcpPacket
confirm_packet i = packet_of 0xb (FriendConfirm.info_to_json sample_json i)

confirmation-Carries :
    Carries sample_json
      (FriendConfirm.info_from_json sample_json)
      (confirm_packet confirmation)
      confirmation
unfolding FriendConfirm.info_to_json
confirmation-Carries =
    packet_of-Carries 0xb (FriendConfirm.info_from_json sample_json)
      (FriendConfirm.info_to_json sample_json confirmation) confirmation
      (FriendConfirm.info_from_json-info_to_json sample_json-IsJsonLibrary confirmation
        confirmation-IsInfo)
      (omega arith)

refusal-Carries :
    Carries sample_json (FriendConfirm.info_from_json sample_json) (confirm_packet refusal) refusal
unfolding FriendConfirm.info_to_json
refusal-Carries =
    packet_of-Carries 0xb (FriendConfirm.info_from_json sample_json)
      (FriendConfirm.info_to_json sample_json refusal) refusal
      (FriendConfirm.info_from_json-info_to_json sample_json-IsJsonLibrary refusal refusal-IsInfo)
      (omega arith)

abbrev tables_with : FriendShipTableData → Tables
tables_with r = record sample_tables { friendships = r ∷ [] }

abbrev joined : Tables
joined = tables_with (record { friendship_1 = 8; friendship_2 = 7; status = literal "accepted" })

abbrev emptied : Tables
emptied = record sample_tables { friendships = [] }

abbrev with_db : Tables → World sample_connector
with_db t = record sample_world { db = t }

confirm_makes_friends_example :
    (handle_friend_confirm sample_env (confirm_packet confirmation) 70 sample_world
      ≡ done (with_db joined))
    × Mem 8 (friends 7 joined.friendships)
    × Mem 7 (friends 8 joined.friendships)
unfolding placeholders stoull to_string
confirm_makes_friends_example =
    confirm_makes_friends sample_env (confirm_packet confirmation) confirmation 1 70 sample_world
      joined refl friendships_of sample_connector-IsFriendTable confirmation-Carries
      confirmation-IsInfo refl refl refl refl

abbrev deletion : DeleteFriend.Info
deletion = record { username = literal "ann"; friend_id = 8; own_id = 7 }

deletion-IsInfo : DeleteFriend.IsInfo deletion
deletion-IsInfo = record { friend_id = omega arith; own_id = omega arith }

abbrev delete_packet : TcpPacket
delete_packet = packet_of 0xa (DeleteFriend.info_to_json sample_json deletion)

deletion-Carries :
    Carries sample_json (DeleteFriend.info_from_json sample_json) delete_packet deletion
unfolding DeleteFriend.info_to_json
deletion-Carries =
    packet_of-Carries 0xa (DeleteFriend.info_from_json sample_json)
      (DeleteFriend.info_to_json sample_json deletion) deletion
      (DeleteFriend.info_from_json-info_to_json sample_json-IsJsonLibrary deletion deletion-IsInfo)
      (omega arith)

delete_parts_example :
    (handle_delete_friend sample_env delete_packet 70 sample_world ≡ done (with_db emptied))
    × IsApart 8 7 []
unfolding placeholders stoull to_string
delete_parts_example =
    delete_parts sample_env delete_packet deletion 1 70 sample_world emptied refl friendships_of
      sample_connector-IsFriendTable deletion-Carries deletion-IsInfo refl refl

deletion_handled : handle_data sample_env delete_packet 70 sample_world ≡ done (with_db emptied)
unfolding placeholders stoull to_string handle_data
deletion_handled =
    (delete_parts sample_env delete_packet deletion 1 70 sample_world emptied refl friendships_of
      sample_connector-IsFriendTable deletion-Carries deletion-IsInfo refl refl).0

handle_data-Frame_example : Frame sample_env delete_packet sample_world (with_db emptied)
handle_data-Frame_example =
    handle_data-Frame sample_env delete_packet 70 sample_world (with_db emptied) deletion_handled

sample_manager-IsValid : IsValid sample_manager
sample_manager-IsValid = record {
  distinct = ((omega arith, tt), (tt, tt));
  online = (refl, (refl, tt));
}

-- A packet with the number 0.
abbrev odd : TcpPacket
odd = record delete_packet { func_id = 0 }

odd_unknown : (t : MessageType) → 0 ≢ message_code t
unfolding message_code
odd_unknown chat = omega arith
odd_unknown _ = omega arith
