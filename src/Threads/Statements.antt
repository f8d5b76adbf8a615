-- ===== src/Threads/Statements.antt =====
-- The statements of BaseDao, UsersDao and FriendShipDao (src/MysqlInteractor/include/MysqlInteractor.h
-- and src/MysqlInteractor/src/MysqlInteractor.cpp), one step for each call of the connector.
use app_server.Base.{
  ℕ, Bool, false, Option, none, some, List, [], ◌∷◌, ◌++◌, Text, literal, if◌then◌else◌, Outcome,
  done, null,
}
use app_server.Decimal.{to_string}
use app_server.Message.{Memory}
use app_server.Message.Person.{PersonalPublicInfo}
use app_server.MysqlInteractor.{
  Connector, Dao, Columns, Bindings, string, uint64, insert_query, insert_bindings, update_query,
  update_bindings, delete_query,
}
use app_server.MysqlInteractor.UsersDao.{UsersTableData, found_user, listed}
use app_server.MysqlInteractor.FriendShipDao.{
  map_record_to_colums, pair_condition, status_query, friend_ids, apply_ids, collected,
}
use app_server.Threads.{Program, returns, faults, prepares, updates, queries, lift, ◌>>=◌}

module _ (C : Connector) where
  open C use {Row}

  unfoldable pub prepare_statement_steps : Dao → Text → Program C Bool
  prepare_statement_steps dao query = elim dao.connection [
    | none ↦ faults null
    | some c ↦ prepares query returns
  ]

  unfoldable pub run_update_steps : Dao → Text → Outcome Bindings → Program C Bool
  unfolding prepare_statement_steps
  run_update_steps dao query bindings = do
    prepared ← prepare_statement_steps dao query
    if prepared then (do bs ← lift bindings; updates query bs returns) else returns false

  unfoldable pub insert_steps : Dao → Columns → Program C Bool
  unfolding insert_query insert_bindings run_update_steps
  insert_steps dao columns =
      run_update_steps dao (insert_query dao.table_name columns) (insert_bindings columns 1)

  unfoldable pub run_query_steps : Dao → Text → Bindings → Program C (Option (List Row))
  unfolding prepare_statement_steps
  run_query_steps dao query bindings = do
    prepared ← prepare_statement_steps dao query
    if prepared then queries query bindings returns else returns none

  unfoldable pub select_info_due_user_name_steps : Memory → Dao → Text → Program C UsersTableData
  unfolding run_query_steps
  select_info_due_user_name_steps memory dao user_name = do
    result ←
        run_query_steps dao
          (literal "SELECT * FROM " ++ dao.table_name ++ literal " WHERE username = ?")
          ((1, string user_name) ∷ [])
    returns (found_user C memory result)

  unfoldable pub select_info_due_id_steps : Memory → Dao → ℕ → Program C UsersTableData
  unfolding run_query_steps
  select_info_due_id_steps memory dao id = do
    result ←
        run_query_steps dao (literal "SELECT * FROM " ++ dao.table_name ++ literal " WHERE id = ?")
          ((1, string (to_string id)) ∷ [])
    returns (found_user C memory result)

  unfoldable pub get_all_user_public_info_steps : Dao → Program C (List PersonalPublicInfo)
  unfolding run_query_steps
  get_all_user_public_info_steps dao = do
    result ← run_query_steps dao (literal "SELECT * FROM " ++ dao.table_name) []
    returns (listed C result)

  unfoldable pub select_all_friend_ship_steps : Dao → ℕ → Program C (List ℕ)
  unfolding run_query_steps friend_ids status_query
  select_all_friend_ship_steps dao id = do
    result ←
        run_query_steps dao (status_query dao.table_name (literal "accepted"))
          ((1, uint64 id) ∷ (2, uint64 id) ∷ [])
    returns (collected C (friend_ids C id) result)

  unfoldable pub select_all_friend_apply_steps : Dao → ℕ → Program C (List ℕ)
  unfolding run_query_steps apply_ids status_query
  select_all_friend_apply_steps dao id = do
    result ←
        run_query_steps dao (status_query dao.table_name (literal "pending"))
          ((1, uint64 id) ∷ (2, uint64 id) ∷ [])
    returns (collected C (apply_ids C id) result)

  unfoldable pub change_friend_ship_status_steps : Dao → ℕ → ℕ → Text → Program C Bool
  unfolding run_update_steps update_query update_bindings map_record_to_colums pair_condition
  change_friend_ship_status_steps dao friend_id own_id status =
      let columns =
        map_record_to_colums
          (record { friendship_1 = friend_id; friendship_2 = own_id; status = status }) in
      run_update_steps dao (update_query dao.table_name columns (pair_condition friend_id own_id))
        (done (update_bindings columns 1))

  unfoldable pub remove_friendship_steps : Dao → ℕ → ℕ → Program C Bool
  unfolding run_update_steps delete_query pair_condition
  remove_friendship_steps dao friend_id own_id =
      run_update_steps dao (delete_query dao.table_name (pair_condition friend_id own_id)) (done [])
