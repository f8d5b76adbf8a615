-- ===== src/DataHandle/Friendships.antt =====
-- What the handlers of friendships do to the lists of friends and of applicants.
use mathlib.Core.List.{Mem}
use app_server.Base.{
  ℕ, ◌<◌, ◌^◌, ◌≡◌, refl, some, Bool, true, false, map, List, [], ◌∷◌, any, done, Text, arith, ◌∙◌,
}
use app_server.Packet.{TcpPacket}
use app_server.Message.FriendConfirm
use app_server.Message.DeleteFriend
use app_server.Decimal.{to_string}
use app_server.MysqlInteractor.{Connector, Dao, Bindings, string, new_friend_ship_dao, run_update}
use app_server.MysqlInteractor.FriendShipDao.{
  FriendShipTableData, change_friend_ship_status, remove_friendship,
}
use app_server.MysqlInteractor.Statements.{
  friendship_update, friendship_delete, change_status, remove_pair,
}
use app_server.MysqlInteractor.Friendships.{IsFriendTable, joins, set_pair, accepted}
use app_server.MysqlInteractor.Friendships.Lists.{friends, mem-friends-set_pair}
use app_server.MysqlInteractor.Friendships.Apart.{IsApart, without, without-IsApart}
use app_server.DataHandle.{Env, World, handle_friend_confirm, handle_delete_friend}
use app_server.DataHandle.Incoming.{Carries, cast_info-some}

pub run_update_executed :
    (C : Connector) (dao : Dao) (c : ℕ) (query : Text) (bs : Bindings) (db db' : C.Db)
    → dao.connection ≡ some c
    → C.prepares db query ≡ true
    → C.execute_update db query bs ≡ some db'
    → run_update C dao query (done bs) db ≡ done (true, db')
unfolding run_update
run_update_executed C dao c query bs db db' e prepared executed = ground arith

module _ (E : Env) (packet : TcpPacket) (i : FriendConfirm.Info) where
  pub cast-confirm :
      (h : Carries E.json (FriendConfirm.info_from_json E.json) packet i)
      → FriendConfirm.cast_from_string E.json h.source
          (FriendConfirm.new_message (E.stamp 0) false 0 0)
        ≡ record (FriendConfirm.new_message (E.stamp 0) false 0 0) { info = i }
  unfolding FriendConfirm.cast_from_string
  cast-confirm h = cast_info-some E.json (FriendConfirm.info_from_json E.json) h.source _ i h.casts

  pub confirm_accepts :
      (client : ℕ) (w : World E.connector) (success : Bool) (db : E.connector.Db)
      → Carries E.json (FriendConfirm.info_from_json E.json) packet i
      → i.success ≡ true
      → change_friend_ship_status E.connector E.friend_ship_dao i.friend_id i.own_id accepted w.db
        ≡ done (success, db)
      → handle_friend_confirm E packet client w ≡ done (record w { db = db })
  unfolding handle_friend_confirm
  confirm_accepts client w success db h agreed changes = ground (arith, h.reads, cast-confirm h)

  pub confirm_refuses :
      (client : ℕ) (w : World E.connector) (success : Bool) (db : E.connector.Db)
      → Carries E.json (FriendConfirm.info_from_json E.json) packet i
      → i.success ≡ false
      → remove_friendship E.connector E.friend_ship_dao i.friend_id i.own_id w.db
        ≡ done (success, db)
      → handle_friend_confirm E packet client w ≡ done (record w { db = db })
  unfolding handle_friend_confirm
  confirm_refuses client w success db h refused removes = ground (arith, h.reads, cast-confirm h)

pub confirm_stored :
    (E : Env) (packet : TcpPacket) (i : FriendConfirm.Info) (c client : ℕ) (w : World E.connector)
    (db : E.connector.Db)
    → E.friend_ship_dao ≡ new_friend_ship_dao (some c)
    → (table : E.connector.Db → List FriendShipTableData) → IsFriendTable E.connector table
    → Carries E.json (FriendConfirm.info_from_json E.json) packet i
    → FriendConfirm.IsInfo i
    → i.success ≡ true
    → E.connector.prepares w.db (friendship_update i.friend_id i.own_id) ≡ true
    → E.connector.execute_update w.db (friendship_update i.friend_id i.own_id) (
        (1, string accepted)
        ∷ (2, string (to_string i.friend_id))
        ∷ (3, string (to_string i.own_id))
        ∷ [])
      ≡ some db
    → (handle_friend_confirm E packet client w ≡ done (record w { db = db }))
      × (table db ≡ map (set_pair i.friend_id i.own_id accepted) (table w.db))
unfolding new_friend_ship_dao
confirm_stored E packet i c client w db dao table laws h fits agreed prepared executed =
    let C = E.connector in
    let bs : Bindings =
      (1, string accepted)
      ∷ (2, string (to_string i.friend_id))
      ∷ (3, string (to_string i.own_id))
      ∷ [] in
    let changes =
      change_status C (some c) i.friend_id i.own_id accepted w.db
      ∙ run_update_executed C (new_friend_ship_dao (some c)) c
          (friendship_update i.friend_id i.own_id) bs w.db db refl prepared executed in
    (
      confirm_accepts E packet i client w true db h agreed (rw (dao) changes),
      laws.updated w.db db (i.friend_id, i.own_id) (i.own_id, i.friend_id) i.friend_id i.own_id
          accepted (fits.friend_id, fits.own_id) (fits.own_id, fits.friend_id)
          (fits.friend_id, fits.own_id) executed,
    )

-- A confirmation that says yes, where the table has a row for the two users, the ids fit 64 bits
-- and MySQL prepares and executes the update, is handled to its end, and afterwards each of the two
-- is in the other's list of friends.
pub confirm_makes_friends :
    (E : Env) (packet : TcpPacket) (i : FriendConfirm.Info) (c client : ℕ) (w : World E.connector)
    (db : E.connector.Db)
    → E.friend_ship_dao ≡ new_friend_ship_dao (some c)
    → (table : E.connector.Db → List FriendShipTableData) → IsFriendTable E.connector table
    → Carries E.json (FriendConfirm.info_from_json E.json) packet i
    → FriendConfirm.IsInfo i
    → i.success ≡ true
    → any (joins i.friend_id i.own_id) (table w.db) ≡ true
    → E.connector.prepares w.db (friendship_update i.friend_id i.own_id) ≡ true
    → E.connector.execute_update w.db (friendship_update i.friend_id i.own_id) (
        (1, string accepted)
        ∷ (2, string (to_string i.friend_id))
        ∷ (3, string (to_string i.own_id))
        ∷ [])
      ≡ some db
    → (handle_friend_confirm E packet client w ≡ done (record w { db = db }))
      × Mem i.friend_id (friends i.own_id (table db))
      × Mem i.own_id (friends i.friend_id (table db))
confirm_makes_friends E packet i c client w db dao table laws h fits agreed row prepared executed =
    let (handles, now) =
      confirm_stored E packet i c client w db dao table laws h fits agreed prepared executed in
    let (m, m') = mem-friends-set_pair i.friend_id i.own_id (table w.db) row in
    (handles, rw now m, rw now m')

-- The rows of a pair are deleted, by whichever handler.
remove_executed :
    (C : Connector) (table : C.Db → List FriendShipTableData) (laws : IsFriendTable C table)
    (c a b : ℕ) (db db' : C.Db)
    → a < 2 ^ 64
    → b < 2 ^ 64
    → C.prepares db (friendship_delete a b) ≡ true
    → C.execute_update db (friendship_delete a b) [] ≡ some db'
    → (remove_friendship C (new_friend_ship_dao (some c)) a b db ≡ done (true, db'))
      × (table db' ≡ without a b (table db))
unfolding new_friend_ship_dao
remove_executed C table laws c a b db db' ha hb prepared executed = (
  remove_pair C (some c) a b db
      ∙ run_update_executed C (new_friend_ship_dao (some c)) c (friendship_delete a b) [] db db'
          refl prepared executed,
  laws.deleted db db' (a, b) (b, a) (ha, hb) (hb, ha) executed,
)

pub refusal_stored :
    (E : Env) (packet : TcpPacket) (i : FriendConfirm.Info) (c client : ℕ) (w : World E.connector)
    (db : E.connector.Db)
    → E.friend_ship_dao ≡ new_friend_ship_dao (some c)
    → (table : E.connector.Db → List FriendShipTableData) → IsFriendTable E.connector table
    → Carries E.json (FriendConfirm.info_from_json E.json) packet i
    → FriendConfirm.IsInfo i
    → i.success ≡ false
    → E.connector.prepares w.db (friendship_delete i.friend_id i.own_id) ≡ true
    → E.connector.execute_update w.db (friendship_delete i.friend_id i.own_id) [] ≡ some db
    → (handle_friend_confirm E packet client w ≡ done (record w { db = db }))
      × (table db ≡ without i.friend_id i.own_id (table w.db))
refusal_stored E packet i c client w db dao table laws h fits refused prepared executed =
    let (removes, now) =
      remove_executed E.connector table laws c i.friend_id i.own_id w.db db fits.friend_id
        fits.own_id prepared executed in
    (confirm_refuses E packet i client w true db h refused (rw dao removes), now)

module _ (E : Env) (packet : TcpPacket) (i : DeleteFriend.Info) where
  pub cast-delete :
      (h : Carries E.json (DeleteFriend.info_from_json E.json) packet i)
      → DeleteFriend.cast_from_string E.json h.source (DeleteFriend.new_message (E.stamp 0) [] 0 0)
        ≡ record (DeleteFriend.new_message (E.stamp 0) [] 0 0) { info = i }
  unfolding DeleteFriend.cast_from_string
  cast-delete h = cast_info-some E.json (DeleteFriend.info_from_json E.json) h.source _ i h.casts

  pub delete_removes :
      (client : ℕ) (w : World E.connector) (success : Bool) (db : E.connector.Db)
      → Carries E.json (DeleteFriend.info_from_json E.json) packet i
      → remove_friendship E.connector E.friend_ship_dao i.friend_id i.own_id w.db
        ≡ done (success, db)
      → handle_delete_friend E packet client w ≡ done (record w { db = db })
  unfolding handle_delete_friend
  delete_removes client w success db h removes = ground (arith, h.reads, cast-delete h)

pub deletion_stored :
    (E : Env) (packet : TcpPacket) (i : DeleteFriend.Info) (c client : ℕ) (w : World E.connector)
    (db : E.connector.Db)
    → E.friend_ship_dao ≡ new_friend_ship_dao (some c)
    → (table : E.connector.Db → List FriendShipTableData) → IsFriendTable E.connector table
    → Carries E.json (DeleteFriend.info_from_json E.json) packet i
    → DeleteFriend.IsInfo i
    → E.connector.prepares w.db (friendship_delete i.friend_id i.own_id) ≡ true
    → E.connector.execute_update w.db (friendship_delete i.friend_id i.own_id) [] ≡ some db
    → (handle_delete_friend E packet client w ≡ done (record w { db = db }))
      × (table db ≡ without i.friend_id i.own_id (table w.db))
deletion_stored E packet i c client w db dao table laws h fits prepared executed =
    let (removes, now) =
      remove_executed E.connector table laws c i.friend_id i.own_id w.db db fits.friend_id
        fits.own_id prepared executed in
    (delete_removes E packet i client w true db h (rw dao removes), now)

-- A deletion of a friend, where the ids fit 64 bits and MySQL prepares and executes the statement,
-- is handled to its end, and afterwards neither user is in the other's list of friends or list of
-- applicants.
pub delete_parts :
    (E : Env) (packet : TcpPacket) (i : DeleteFriend.Info) (c client : ℕ) (w : World E.connector)
    (db : E.connector.Db)
    → E.friend_ship_dao ≡ new_friend_ship_dao (some c)
    → (table : E.connector.Db → List FriendShipTableData) → IsFriendTable E.connector table
    → Carries E.json (DeleteFriend.info_from_json E.json) packet i
    → DeleteFriend.IsInfo i
    → E.connector.prepares w.db (friendship_delete i.friend_id i.own_id) ≡ true
    → E.connector.execute_update w.db (friendship_delete i.friend_id i.own_id) [] ≡ some db
    → (handle_delete_friend E packet client w ≡ done (record w { db = db }))
      × IsApart i.friend_id i.own_id (table db)
delete_parts E packet i c client w db dao table laws h fits prepared executed =
    let (handles, now) =
      deletion_stored E packet i c client w db dao table laws h fits prepared executed in
    (handles, rw now (without-IsApart i.friend_id i.own_id (table w.db)))
