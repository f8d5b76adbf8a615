-- ===== src/DataHandle/Requests.antt =====
-- A friend request that waits for an answer.
use mathlib.Core.List.{Mem}
use app_server.Base.{
  ℕ, ◌≡◌, ◌≢◌, refl, some, Bool, true, false, List, [], ◌∷◌, ◌++◌, done, arith, ◌∙◌,
}
use app_server.Packet.{TcpPacket}
use app_server.Message.AddFriendRequest
use app_server.MysqlInteractor.{Bindings, string, uint64, new_friend_ship_dao, insert}
use app_server.MysqlInteractor.FriendShipDao
use app_server.MysqlInteractor.FriendShipDao.{FriendShipTableData}
use app_server.MysqlInteractor.Statements.{insert_friendship, friendship_insert}
use app_server.MysqlInteractor.Friendships.{IsFriendTable, pending}
use app_server.MysqlInteractor.Friendships.Lists.{applicants, mem-applicants-append}
use app_server.UserConnectionManager.{select_user}
use app_server.DataHandle.{Env, World, handle_add_friend_req}
use app_server.DataHandle.Incoming.{Carries}
use app_server.DataHandle.Friends.{request_row, cast-request}
use app_server.DataHandle.Friendships.{run_update_executed}

request_kept :
    (E : Env) (packet : TcpPacket) (i : AddFriendRequest.Info) (client friend : ℕ)
    (w : World E.connector) (success : Bool) (db : E.connector.Db)
    → Carries E.json (AddFriendRequest.info_from_json E.json) packet i
    → insert E.connector E.friend_ship_dao
        (FriendShipDao.map_record_to_colums (request_row E packet i))
        w.db
      ≡ done (success, db)
    → select_user i.friend_id w.manager ≡ some friend
    → E.connected friend ≡ false
    → handle_add_friend_req E packet client w ≡ done (record w { db = db })
unfolding handle_add_friend_req
request_kept E packet i client friend w success db h inserts found offline =
    ground (arith, h.reads, cast-request E packet i h)

pub request_stored :
    (E : Env) (packet : TcpPacket) (i : AddFriendRequest.Info) (c client friend : ℕ)
    (w : World E.connector) (db : E.connector.Db)
    → E.friend_ship_dao ≡ new_friend_ship_dao (some c)
    → (table : E.connector.Db → List FriendShipTableData) → IsFriendTable E.connector table
    → Carries E.json (AddFriendRequest.info_from_json E.json) packet i
    → AddFriendRequest.IsInfo i
    → E.connector.prepares w.db friendship_insert ≡ true
    → E.connector.execute_update w.db friendship_insert
        ((1, string pending) ∷ (2, uint64 i.own_id) ∷ (3, uint64 i.friend_id) ∷ [])
      ≡ some db
    → select_user i.friend_id w.manager ≡ some friend
    → E.connected friend ≡ false
    → (handle_add_friend_req E packet client w ≡ done (record w { db = db }))
      × (table db ≡ table w.db ++ request_row E packet i ∷ [])
unfolding new_friend_ship_dao
request_stored E packet i c client friend w db dao table laws h fits prepared executed found
      offline =
    let row = request_row E packet i in
    let C = E.connector in
    let bs : Bindings = (1, string pending) ∷ (2, uint64 i.own_id) ∷ (3, uint64 i.friend_id) ∷ [] in
    let inserts =
      insert_friendship C (some c) row w.db fits.own_id fits.friend_id
      ∙ run_update_executed C (new_friend_ship_dao (some c)) c friendship_insert bs w.db db refl
          prepared executed in
    (
      request_kept E packet i client friend w true db h (rw dao inserts) found offline,
      laws.inserted w.db db row executed,
    )

-- A request between two different users, for one whose registered socket is no longer connected,
-- where the ids fit 64 bits and MySQL prepares and executes the insertion, is handled to its end
-- and sends nothing; the user who asked is then in the other's list of applicants.
pub request_waits :
    (E : Env) (packet : TcpPacket) (i : AddFriendRequest.Info) (c client friend : ℕ)
    (w : World E.connector) (db : E.connector.Db)
    → E.friend_ship_dao ≡ new_friend_ship_dao (some c)
    → (table : E.connector.Db → List FriendShipTableData) → IsFriendTable E.connector table
    → Carries E.json (AddFriendRequest.info_from_json E.json) packet i
    → AddFriendRequest.IsInfo i
    → i.own_id ≢ i.friend_id
    → E.connector.prepares w.db friendship_insert ≡ true
    → E.connector.execute_update w.db friendship_insert
        ((1, string pending) ∷ (2, uint64 i.own_id) ∷ (3, uint64 i.friend_id) ∷ [])
      ≡ some db
    → select_user i.friend_id w.manager ≡ some friend
    → E.connected friend ≡ false
    → (handle_add_friend_req E packet client w ≡ done (record w { db = db }))
      × Mem i.own_id (applicants i.friend_id (table db))
request_waits E packet i c client friend w db dao table laws h fits other prepared executed found
      offline =
    let (handles, now) =
      request_stored E packet i c client friend w db dao table laws h fits prepared executed found
        offline in
    (handles, rw now (mem-applicants-append i.own_id i.friend_id (table w.db) other))
