-- ===== src/DataHandle/Friends.antt =====
-- Requests, confirmations and deletions of friendships, as the clients see them.
use app_server.Base.{
  ℕ, [], ◌∷◌, ◌≡◌, ◌<◌, refl, some, none, Bool, true, false, done, fault, null, Bytes, Text,
  literal, length, arith, ◌∙◌, Bool-cases, Option-cases, inl, inr,
}
use app_server.Packet.{TcpPacket, ByteArray, IsByteArray, body_capacity}
use app_server.Json.{IsJsonLibrary}
use app_server.Message.{Memory, Message}
use app_server.Message.AddFriendRequest
use app_server.Message.InformFriendApply
use app_server.UserConnectionManager.{select_user}
use app_server.MysqlInteractor.{
  Connector, Dao, Bindings, string, uint64, new_friend_ship_dao, insert, run_update,
}
use app_server.MysqlInteractor.UsersDao.{UsersTableData, select_info_due_id}
use app_server.MysqlInteractor.FriendShipDao
use app_server.MysqlInteractor.FriendShipDao.{FriendShipTableData}
use app_server.MysqlInteractor.Statements.{insert_friendship, friendship_insert}
use app_server.DataHandle.{Env, World, schedule, send, handle_add_friend_req, inform}
use app_server.DataHandle.Incoming.{Carries, cast_info-some}
use app_server.DataHandle.Delivery.{Delivers, Delivers-reply}
use app_server.DataHandle.Login.Session.{public_of}

run_update_returns :
    (C : Connector) (dao : Dao) (c : ℕ) (query : Text) (bs : Bindings) (db : C.Db)
    → dao.connection ≡ some c
    → (r : Bool × C.Db) × (run_update C dao query (done bs) db ≡ done r)
unfolding run_update
run_update_returns C dao c query bs db e = elim (Bool-cases (C.prepares db query)) [
  | inr refused ↦ ((false, db), ground arith)
  | inl prepared ↦ elim (Option-cases (C.execute_update db query bs)) [
    | inl thrown' ↦ ((false, db), ground arith)
    | inr (db', executed) ↦ ((true, db'), ground arith)
  ]
]

module _ (E : Env) (packet : TcpPacket) (i : AddFriendRequest.Info) where
  abbrev pub HasRequest : Type 0
  HasRequest = Carries E.json (AddFriendRequest.info_from_json E.json) packet i

  -- The row that a request inserts.
  abbrev pub request_row : FriendShipTableData
  request_row = record {
    friendship_1 = i.own_id;
    friendship_2 = i.friend_id;
    status = literal "pending";
  }

  pub cast-request :
      (h : HasRequest)
      → AddFriendRequest.cast_from_string E.json h.source
          (AddFriendRequest.new_message (E.stamp 0) [] 0 [] 0)
        ≡ record (AddFriendRequest.new_message (E.stamp 0) [] 0 [] 0) { info = i }
  unfolding AddFriendRequest.cast_from_string
  cast-request h =
      cast_info-some E.json (AddFriendRequest.info_from_json E.json) h.source _ i h.casts

  request_unregistered :
      (client : ℕ) (w : World E.connector) (r : Bool × E.connector.Db)
      → HasRequest
      → insert E.connector E.friend_ship_dao (FriendShipDao.map_record_to_colums request_row) w.db
        ≡ done r
      → select_user i.friend_id w.manager ≡ none
      → handle_add_friend_req E packet client w ≡ fault null
  unfolding handle_add_friend_req
  request_unregistered client w r h inserts free = ground (arith, h.reads, cast-request h)

  request_registered :
      (client friend : ℕ) (w : World E.connector) (success : Bool) (db : E.connector.Db)
      → HasRequest
      → insert E.connector E.friend_ship_dao (FriendShipDao.map_record_to_colums request_row) w.db
        ≡ done (success, db)
      → select_user i.friend_id w.manager ≡ some friend
      → E.connected friend ≡ true
      → handle_add_friend_req E packet client w ≡ inform E i.own_id friend (record w { db = db })
  unfolding handle_add_friend_req
  request_registered client friend w success db h inserts found online =
      ground (arith, h.reads, cast-request h)

-- A friend request with ids of 64 bits for a user without a registered socket dereferences a null
-- pointer, whatever the database answers.
pub request_crashes :
    (E : Env) (packet : TcpPacket) (i : AddFriendRequest.Info) (c client : ℕ)
    (w : World E.connector)
    → E.friend_ship_dao ≡ new_friend_ship_dao (some c)
    → Carries E.json (AddFriendRequest.info_from_json E.json) packet i
    → AddFriendRequest.IsInfo i
    → select_user i.friend_id w.manager ≡ none
    → handle_add_friend_req E packet client w ≡ fault null
unfolding new_friend_ship_dao
request_crashes E packet i c client w dao h fits free =
    let row = request_row E packet i in
    let inserted = insert_friendship E.connector (some c) row w.db fits.own_id fits.friend_id in
    let bindings : Bindings =
      (1, string (literal "pending")) ∷ (2, uint64 i.own_id) ∷ (3, uint64 i.friend_id) ∷ [] in
    let (r, e) =
      run_update_returns E.connector (new_friend_ship_dao (some c)) c friendship_insert bindings
        w.db refl in
    request_unregistered E packet i client w r h (rw dao (inserted ∙ e)) free

-- A request for a connected user, where the insertion and the lookup of the applicant return and
-- the text of the message exists and is shorter than the array of a packet, sends that user one
-- packet with the number of an application. A message object that is cast from its text stays as it
-- was: no applicant is read.
pub request_informs :
    (E : Env) (ba : ByteArray) (packet : TcpPacket) (i : AddFriendRequest.Info) (client friend : ℕ)
    (w : World E.connector) (success : Bool) (db : E.connector.Db) (user : UsersTableData)
    (body : Text)
    → IsJsonLibrary E.json
    → IsByteArray ba
    → length E.memory.array ≡ body_capacity
    → Carries E.json (AddFriendRequest.info_from_json E.json) packet i
    → insert E.connector E.friend_ship_dao
        (FriendShipDao.map_record_to_colums (request_row E packet i))
        w.db
      ≡ done (success, db)
    → select_user i.friend_id w.manager ≡ some friend
    → E.connected friend ≡ true
    → select_info_due_id E.connector E.memory E.users_dao i.own_id db ≡ done user
    → E.json.dump (
        InformFriendApply.to_json E.json (
          InformFriendApply.add_friend_apply
            (public_of user)
            (InformFriendApply.new_message E.memory (E.stamp 1) 0 [])))
      ≡ some body
    → length body < body_capacity
    → (bytes : Bytes) × (handle_add_friend_req E packet client w
        ≡ done (schedule (send (some friend) bytes) (record w { db = db })))
      × Delivers ba bytes 0xc (λ text.
        (memory : Memory) (n : Message InformFriendApply.Info)
        → InformFriendApply.cast_from_string E.json memory text n ≡ n)
unfolding inform
request_informs E ba packet i client friend w success db user body json bytes hm h inserts found
      online applicant dumps lt =
    let m =
      InformFriendApply.add_friend_apply (public_of user)
        (InformFriendApply.new_message E.memory (E.stamp 1) 0 []) in
    let (out, replies, delivers) =
      Delivers-reply bytes
        (λ text.
          (memory : Memory) (n : Message InformFriendApply.Info)
          → InformFriendApply.cast_from_string E.json memory text n ≡ n)
        E.memory.array 0xc body (omega arith) hm (json.dump-pos _ body dumps) lt
        (λ memory n. InformFriendApply.cast_from_string-dump json memory m n body dumps) in
    (
      out,
      request_registered E packet i client friend w success db h inserts found online
          ∙ rw (applicant, dumps, replies),
      delivers,
    )
