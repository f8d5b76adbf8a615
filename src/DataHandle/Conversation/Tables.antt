-- ===== src/DataHandle/Conversation/Tables.antt =====
-- What any sequence of packets can do to the table of friendships.
use app_server.Base.{
  ℕ, ◌<◌, ◌^◌, ◌≡◌, ◌≢◌, ◌⊎◌, inl, inr, refl, sym, ap, ◌∙◌, Bool, true, false, some, List, [], ◌∷◌,
  done, arith, Bool-cases, Option-cases, Text,
}
use app_server.Packet.{TcpPacket}
use app_server.Decimal.{to_string}
use app_server.Message.{add_friend_request, friend_confirm, delete_friend}
use app_server.Message.AddFriendRequest
use app_server.MysqlInteractor.{
  Connector, Dao, Bindings, string, uint64, new_friend_ship_dao, run_update, insert,
}
use app_server.MysqlInteractor.FriendShipDao
use app_server.MysqlInteractor.FriendShipDao.{FriendShipTableData, remove_friendship}
use app_server.MysqlInteractor.Statements.{
  friendship_insert, friendship_update, friendship_delete, insert_friendship, change_status,
  remove_pair,
}
use app_server.MysqlInteractor.Friendships.{IsFriendTable, accepted, pending}
use app_server.DataHandle.{Env, met, World, handle_data, handle_add_friend_req, inform}
use app_server.DataHandle.Incoming.{Carries}
use app_server.DataHandle.Dispatch.{handler, handle_data-message_code}
use app_server.DataHandle.Frame.{handle_data-Frame}
use app_server.DataHandle.Friends.{request_row, cast-request}
use app_server.DataHandle.Friendships.{confirm_accepts, confirm_refuses, delete_removes}
use app_server.MysqlInteractor.Friendships.Apart.{without}
use app_server.DataHandle.Conversation.{Arrival}
use app_server.DataHandle.Conversation.Friending.{
  Wish, ask, accept, refuse, leave, granted, Says, asks, accepts, refuses, leaves,
}

-- A statement is executed, or it throws and the database stays.
run_update_cases :
    (C : Connector) (dao : Dao) (c : ℕ) (query : Text) (bs : Bindings) (db : C.Db)
    → dao.connection ≡ some c
    → (success : Bool) × (db' : C.Db) × (run_update C dao query (done bs) db ≡ done (success, db'))
      × ((db' ≡ db) ⊎ (C.execute_update db query bs ≡ some db'))
unfolding run_update
run_update_cases C dao c query bs db e = elim (Bool-cases (C.prepares db query)) [
  | inr refused ↦ (false, db, ground arith, inl refl)
  | inl prepared ↦ elim (Option-cases (C.execute_update db query bs)) [
    | inl thrown' ↦ (false, db, ground arith, inl refl)
    | inr (db', executed) ↦ (true, db', ground arith, inr executed)
  ]
]

module _ (E : Env) (p : TcpPacket) (i : AddFriendRequest.Info) where
  request_db :
      (client : ℕ) (w w' : World E.connector) (success : Bool) (db : E.connector.Db)
      → Carries E.json (AddFriendRequest.info_from_json E.json) p i
      → insert E.connector E.friend_ship_dao
          (FriendShipDao.map_record_to_colums (request_row E p i))
          w.db
        ≡ done (success, db)
      → handle_add_friend_req E p client w ≡ done w'
      → w'.db ≡ db
  unfolding handle_add_friend_req inform
  request_db client w w' success db h inserts handled =
      ground (arith, h.reads, cast-request E p i h)

-- The table stays, or the wish is granted.
abbrev Decided :
    (E : Env)
    → (E.connector.Db → List FriendShipTableData)
    → Wish
    → World E.connector
    → World E.connector
    → Type 0
Decided E table h w w' = (table w'.db ≡ table w.db) ⊎ (table w'.db ≡ granted h (table w.db))

module _ (E : Env) (c : ℕ) (dao : E.friend_ship_dao ≡ new_friend_ship_dao (some c))
    {table : E.connector.Db → List FriendShipTableData}
    (laws : IsFriendTable E.connector table) where
  Decided-of :
      (h : Wish) (w w' : World E.connector) (db : E.connector.Db)
      → w'.db ≡ db
      → (db ≡ w.db) ⊎ (table db ≡ granted h (table w.db))
      → Decided E table h w w'
  Decided-of h w w' db e (inl same) = inl (ap table (e ∙ same))
  Decided-of h w w' db e (inr now) = inr (ap table e ∙ now)

  same_db :
      (w w' : World E.connector) (db : E.connector.Db)
      → done (record w { db = db }) ≡ done w'
      → w'.db ≡ db
  same_db w w' db e = ground arith

  -- Deletion of the rows of a pair.
  remove_cases :
      (a b : ℕ) (db : E.connector.Db)
      → a < 2 ^ 64
      → b < 2 ^ 64
      → (success : Bool) × (db' : E.connector.Db) × (remove_friendship E.connector E.friend_ship_dao
            a b db
          ≡ done (success, db'))
        × ((db' ≡ db) ⊎ (table db' ≡ without a b (table db)))
  unfolding new_friend_ship_dao
  remove_cases a b db ha hb =
      let (success, db', runs, either) =
        run_update_cases E.connector (new_friend_ship_dao (some c)) c (friendship_delete a b) [] db
          refl in
      let removes = remove_pair E.connector (some c) a b db ∙ runs in
      (
        success,
        db',
        rw dao removes,
        elim either [
          | inl kept ↦ inl kept
          | inr executed ↦ inr (laws.deleted db db' (a, b) (b, a) (ha, hb) (hb, ha) executed)
        ],
      )

  pub wish-Decided :
      (a : Arrival) (h : Wish) (w w' : World E.connector)
      → Says E a.packet h
      → handle_data (met E a.moment) a.packet a.client w ≡ done w'
      → Decided E table h w w'
  unfolding new_friend_ship_dao granted handler
  wish-Decided a _ w w' (asks i f says fits) handled =
      let E' = met E a.moment in
      let row = request_row E' a.packet i in
      let bs : Bindings =
        (1, string pending) ∷ (2, uint64 i.own_id) ∷ (3, uint64 i.friend_id) ∷ [] in
      let (success, db, runs, either) =
        run_update_cases E.connector (new_friend_ship_dao (some c)) c friendship_insert bs w.db
          refl in
      let inserts =
        insert_friendship E.connector (some c) row w.db fits.own_id fits.friend_id ∙ runs in
      let handled' =
        sym (handle_data-message_code E' add_friend_request a.packet a.client w f) ∙ handled in
      let same = request_db E' a.packet i a.client w w' success db says (rw dao inserts) handled' in
      Decided-of (ask i.friend_id i.own_id) w w' db same (elim either [
        | inl kept ↦ inl kept
        | inr executed ↦ inr (laws.inserted w.db db row executed)
      ])
  wish-Decided a _ w w' (accepts i f says fits agreed) handled =
      let E' = met E a.moment in
      let bs : Bindings =
        (1, string accepted)
        ∷ (2, string (to_string i.friend_id))
        ∷ (3, string (to_string i.own_id))
        ∷ [] in
      let (success, db, runs, either) =
        run_update_cases E.connector (new_friend_ship_dao (some c)) c
          (friendship_update i.friend_id i.own_id) bs w.db refl in
      let changes = change_status E.connector (some c) i.friend_id i.own_id accepted w.db ∙ runs in
      let handled' =
        sym (handle_data-message_code E' friend_confirm a.packet a.client w f) ∙ handled in
      let stored =
        confirm_accepts E' a.packet i a.client w success db says agreed (rw dao changes) in
      Decided-of (accept i.friend_id i.own_id) w w' db (same_db w w' db (sym stored ∙ handled'))
        (elim either [
          | inl kept ↦ inl kept
          | inr executed ↦ inr (
              laws.updated w.db db (i.friend_id, i.own_id) (i.own_id, i.friend_id) i.friend_id
                i.own_id accepted (fits.friend_id, fits.own_id) (fits.own_id, fits.friend_id)
                (fits.friend_id, fits.own_id) executed)
        ])
  wish-Decided a _ w w' (refuses i f says fits refused) handled =
      let E' = met E a.moment in
      let (success, db, removes, either) =
        remove_cases i.friend_id i.own_id w.db fits.friend_id fits.own_id in
      let handled' =
        sym (handle_data-message_code E' friend_confirm a.packet a.client w f) ∙ handled in
      let stored = confirm_refuses E' a.packet i a.client w success db says refused removes in
      Decided-of (refuse i.friend_id i.own_id) w w' db (same_db w w' db (sym stored ∙ handled'))
        either
  wish-Decided a _ w w' (leaves i f says fits) handled =
      let E' = met E a.moment in
      let (success, db, removes, either) =
        remove_cases i.friend_id i.own_id w.db fits.friend_id fits.own_id in
      let handled' =
        sym (handle_data-message_code E' delete_friend a.packet a.client w f) ∙ handled in
      let stored = delete_removes E' a.packet i a.client w success db says removes in
      Decided-of (leave i.friend_id i.own_id) w w' db (same_db w w' db (sym stored ∙ handled'))
        either

  -- The table after a packet of one of the other types, a registration excepted.
  pub other_kept :
      (a : Arrival) (w w' : World E.connector)
      → a.packet.func_id ≢ 0x04
      → a.packet.func_id ≢ 0x08
      → a.packet.func_id ≢ 0xa
      → a.packet.func_id ≢ 0x0b
      → handle_data (met E a.moment) a.packet a.client w ≡ done w'
      → table w'.db ≡ table w.db
  other_kept a w w' r s t u handled =
      ap table ((handle_data-Frame (met E a.moment) a.packet a.client w w' handled).db r s t u)
