-- ===== src/MysqlInteractor/Statements.antt =====
-- Which statements the data access objects execute, for every record.
use app_server.Base.{
  ℕ, suc, ◌<◌, ◌^◌, ◌≡◌, refl, false, Option, none, some, [], ◌∷◌, ◌++◌, Text, literal, length,
  ◌==◌, if◌then◌else◌, done, ◌∙◌, arith,
}
use app_server.Decimal.{to_string, stoull-to_string}
use app_server.MysqlInteractor.{
  Connector, Dao, string, uint64, Bindings, new_users_dao, new_friend_ship_dao, insert, run_update,
}
use app_server.MysqlInteractor.UsersDao
use app_server.MysqlInteractor.UsersDao.{UsersTableData}
use app_server.MysqlInteractor.FriendShipDao
use app_server.MysqlInteractor.FriendShipDao.{
  FriendShipTableData, change_friend_ship_status, remove_friendship, pair_condition,
}

abbrev pub friendship_insert : Text
friendship_insert = literal "INSERT INTO friendships (status, user_id1, user_id2) VALUES (?, ?, ?)"

-- An SQL condition on the two columns of a friendship: the row has this pair or that pair.
abbrev pub either_pair : ℕ × ℕ → ℕ × ℕ → Text
either_pair p q =
    literal "(user_id1 = "
    ++ to_string p.0
    ++ literal " AND user_id2 = "
    ++ to_string p.1
    ++ literal ") OR (user_id1 = "
    ++ to_string q.0
    ++ literal " AND user_id2 = "
    ++ to_string q.1
    ++ literal ")"

abbrev pub set_where : Text → Text
set_where condition =
    literal "UPDATE friendships SET status = ?, user_id1 = ?, user_id2 = ? WHERE " ++ condition

abbrev pub delete_where : Text → Text
delete_where condition = literal "DELETE FROM friendships WHERE " ++ condition

abbrev pub friendship_update : ℕ → ℕ → Text
friendship_update a b = set_where (either_pair (a, b) (b, a))

abbrev pub friendship_delete : ℕ → ℕ → Text
friendship_delete a b = delete_where (either_pair (a, b) (b, a))

-- The query for the rows of a status in which the first column or the second one has a number.
abbrev pub friendship_query : Text → Text
friendship_query status =
    literal
      "SELECT user_id1, user_id2 FROM friendships WHERE ( user_id1 = ? OR user_id2 = ?) AND status = '"
    ++ status
    ++ literal "'"

abbrev pub user_insert : Text
user_insert = literal "INSERT INTO users (email, password, username) VALUES (?, ?, ?)"

module _ (C : Connector) (c : Option ℕ) where
  -- A friendship whose ids fit 64 bits is inserted by one statement that binds the status and the
  -- two ids, in the order of the columns.
  pub insert_friendship :
      (r : FriendShipTableData) (db : C.Db)
      → r.friendship_1 < 2 ^ 64
      → r.friendship_2 < 2 ^ 64
      → insert C (new_friend_ship_dao c) (FriendShipDao.map_record_to_colums r) db
        ≡ run_update C
            (new_friend_ship_dao c)
            friendship_insert
            (done
              ((1, string r.status) ∷ (2, uint64 r.friendship_1) ∷ (3, uint64 r.friendship_2) ∷ []))
            db
  unfolding insert FriendShipDao.map_record_to_colums new_friend_ship_dao
  insert_friendship r db h k =
      rw (stoull-to_string r.friendship_1 h, stoull-to_string r.friendship_2 k)

  pub insert_user :
      (r : UsersTableData) (db : C.Db)
      → insert C (new_users_dao c) (UsersDao.map_record_to_colums r) db
        ≡ run_update C (new_users_dao c) user_insert (done []) db
  unfolding insert UsersDao.map_record_to_colums new_users_dao
  insert_user r db = refl

  pub change_status :
      (a b : ℕ) (status : Text) (db : C.Db)
      → change_friend_ship_status C (new_friend_ship_dao c) a b status db
        ≡ run_update C
            (new_friend_ship_dao c)
            (friendship_update a b)
            (done ((1, string status) ∷ (2, string (to_string a)) ∷ (3, string (to_string b)) ∷ []))
            db
  unfolding change_friend_ship_status new_friend_ship_dao pair_condition
  change_status a b status db = refl

  pub remove_pair :
      (a b : ℕ) (db : C.Db)
      → remove_friendship C (new_friend_ship_dao c) a b db
        ≡ run_update C (new_friend_ship_dao c) (friendship_delete a b) (done []) db
  unfolding remove_friendship new_friend_ship_dao pair_condition
  remove_pair a b db = refl

-- A statement that throws changes nothing, and the result is false.
pub run_update_refused :
    (C : Connector) (dao : Dao) (c : ℕ) (query : Text) (bs : Bindings) (db : C.Db)
    → dao.connection ≡ some c
    → C.execute_update db query bs ≡ none
    → run_update C dao query (done bs) db ≡ done (false, db)
unfolding run_update
run_update_refused C dao c query bs db e h = ground arith

-- The question marks of a query.
unfoldable pub placeholders : Text → ℕ
placeholders [] = 0
placeholders (c ∷ s) = if c == b'?' then suc (placeholders s) else placeholders s

-- The connector throws where a statement is executed before all its parameters are set.
pub record ChecksParameters (C : Connector) : Type 0 where
  pub unset :
      (db : C.Db) (query : Text) (bs : Bindings)
      → length bs < placeholders query
      → C.execute_update db query bs ≡ none

-- No user is ever inserted: `insert` binds none of the three columns of a user, so the statement is
-- refused, and the database stays as it is.
pub insert_user_fails :
    (C : Connector) (c : ℕ) (r : UsersTableData) (db : C.Db)
    → ChecksParameters C
    → insert C (new_users_dao (some c)) (UsersDao.map_record_to_colums r) db ≡ done (false, db)
unfolding placeholders
insert_user_fails C c r db h =
    insert_user C (some c) r db
    ∙ run_update_refused C (new_users_dao (some c)) c user_insert [] db
        (unfold new_users_dao in refl) (h.unset db user_insert [] (omega arith))
