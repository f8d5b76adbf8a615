-- ===== src/MysqlInteractor/FriendShipDao.antt =====
-- class FriendShipDao and struct FriendShipTableData: src/MysqlInteractor/include/MysqlConnectPool.h
-- and src/MysqlInteractor/src/MysqlInteractor.cpp.
use app_server.Base.{
  ℕ, Bool, Option, none, some, List, [], ◌∷◌, ◌++◌, Text, literal, ◌==◌, if◌then◌else◌, Outcome,
  done, ◌>>=◌,
}
use app_server.Decimal.{to_string}
use app_server.MysqlInteractor.{
  Connector, Dao, Columns, uint64, make_columns, update, remove, run_query,
}

pub record FriendShipTableData : Type 0 where
  pub friendship_1 : ℕ
  pub friendship_2 : ℕ
  pub status : Text

unfoldable pub map_record_to_colums : FriendShipTableData → Columns
unfolding make_columns
map_record_to_colums r = make_columns [] (
    (literal "user_id1", to_string r.friendship_1)
    ∷ (literal "user_id2", to_string r.friendship_2)
    ∷ (literal "status", r.status)
    ∷ [])

-- The condition that names a pair of users in either order.
unfoldable pub pair_condition : ℕ → ℕ → Text
pair_condition friend_id own_id =
    literal "(user_id1 = "
    ++ to_string friend_id
    ++ literal " AND user_id2 = "
    ++ to_string own_id
    ++ literal ") OR (user_id1 = "
    ++ to_string own_id
    ++ literal " AND user_id2 = "
    ++ to_string friend_id
    ++ literal ")"

unfoldable pub status_query : Text → Text → Text
status_query table status =
    literal "SELECT user_id1, user_id2 FROM "
    ++ table
    ++ literal " WHERE ( user_id1 = ? OR user_id2 = ?) AND status = '"
    ++ status
    ++ literal "'"

module _ (C : Connector) where
  open C use {Db, Row, get_uint64}

  unfoldable pub select2 : Dao → Text → ℕ → ℕ → Db → Outcome (Option (List Row))
  unfolding run_query
  select2 dao query param1 param2 db =
      run_query C dao query ((1, uint64 param1) ∷ (2, uint64 param2) ∷ []) db

  -- The loop of selectAllFriendShip: the other user of each row.
  unfoldable pub friend_ids : ℕ → List Row → List ℕ
  friend_ids id [] = []
  friend_ids id (row ∷ rows) =
      (if get_uint64 row "user_id1" == id
        then get_uint64 row "user_id2"
        else get_uint64 row "user_id1")
      ∷ friend_ids id rows

  -- The loop of selectAllFriendApply: rows of requests that the user made are passed over.
  unfoldable pub apply_ids : ℕ → List Row → List ℕ
  apply_ids id [] = []
  apply_ids id (row ∷ rows) =
      let rest = apply_ids id rows in
      if get_uint64 row "user_id1" == id then rest else get_uint64 row "user_id1" ∷ rest

  abbrev pub collected : (List Row → List ℕ) → Option (List Row) → List ℕ
  collected ids none = []
  collected ids (some rows) = ids rows

  unfoldable pub select_all_friend_ship : Dao → ℕ → Db → Outcome (List ℕ)
  unfolding select2 friend_ids status_query
  select_all_friend_ship dao id db = do
    result ← select2 dao (status_query dao.table_name (literal "accepted")) id id db
    done (collected (friend_ids id) result)

  unfoldable pub select_all_friend_apply : Dao → ℕ → Db → Outcome (List ℕ)
  unfolding select2 apply_ids status_query
  select_all_friend_apply dao id db = do
    result ← select2 dao (status_query dao.table_name (literal "pending")) id id db
    done (collected (apply_ids id) result)

  unfoldable pub change_friend_ship_status : Dao → ℕ → ℕ → Text → Db → Outcome (Bool × Db)
  unfolding update map_record_to_colums pair_condition
  change_friend_ship_status dao friend_id own_id status db =
      update C dao
        (map_record_to_colums
          (record { friendship_1 = friend_id; friendship_2 = own_id; status = status }))
        (pair_condition friend_id own_id) db

  unfoldable pub remove_friendship : Dao → ℕ → ℕ → Db → Outcome (Bool × Db)
  unfolding remove pair_condition
  remove_friendship dao friend_id own_id db = remove C dao (pair_condition friend_id own_id) db
