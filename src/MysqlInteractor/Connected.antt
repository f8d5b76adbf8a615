-- ===== src/MysqlInteractor/Connected.antt =====
-- The statements of a data access object that has a connection.
use app_server.Base.{
  ℕ, ◌+◌, ◌≡◌, some, [], ◌∷◌, Text, Outcome, done, arith, IsNullFree, bind-IsNullFree,
  done-IsNullFree,
}
use app_server.Message.{Memory}
use app_server.MysqlInteractor.{
  Connector, Dao, Columns, Bindings, insert, insert_bindings, update, remove, run_update, run_query,
  prepare_statement, select, select_all,
}
use app_server.MysqlInteractor.UsersDao.{
  select_info_due_user_name, select_info_due_id, get_all_user_public_info,
}
use app_server.MysqlInteractor.FriendShipDao.{
  select2, select_all_friend_ship, select_all_friend_apply, change_friend_ship_status,
  remove_friendship,
}

insert_bindings-IsNullFree : (m : Columns) (index : ℕ) → IsNullFree (insert_bindings m index)
unfolding insert_bindings
insert_bindings-IsNullFree [] index h = cc
insert_bindings-IsNullFree ((k, v) ∷ rest) index h =
    let bound = insert_bindings-IsNullFree rest (index + 1) in
    let skipped = insert_bindings-IsNullFree rest index in ground arith

module _ (C : Connector) (dao : Dao) (c : ℕ) (conn : dao.connection ≡ some c) where
  pub run_update-IsNullFree :
      (query : Text) (bindings : Outcome Bindings) (db : C.Db)
      → IsNullFree bindings
      → IsNullFree (run_update C dao query bindings db)
  unfolding run_update prepare_statement
  run_update-IsNullFree query bindings db bound h = ground arith

  pub run_query-IsNullFree :
      (query : Text) (bindings : Bindings) (db : C.Db)
      → IsNullFree (run_query C dao query bindings db)
  unfolding run_query prepare_statement
  run_query-IsNullFree query bindings db h = ground arith

  pub insert-IsNullFree : (m : Columns) (db : C.Db) → IsNullFree (insert C dao m db)
  unfolding insert
  insert-IsNullFree m db =
      run_update-IsNullFree _ (insert_bindings m 1) db (insert_bindings-IsNullFree m 1)

  pub remove-IsNullFree :
      (friend own : ℕ) (db : C.Db) → IsNullFree (remove_friendship C dao friend own db)
  unfolding remove_friendship remove
  remove-IsNullFree friend own db = run_update-IsNullFree _ (done []) db (done-IsNullFree _)

  pub change-IsNullFree :
      (friend own : ℕ) (status : Text) (db : C.Db)
      → IsNullFree (change_friend_ship_status C dao friend own status db)
  unfolding change_friend_ship_status update
  change-IsNullFree friend own status db = run_update-IsNullFree _ (done _) db (done-IsNullFree _)

  pub select_name-IsNullFree :
      (memory : Memory) (name : Text) (db : C.Db)
      → IsNullFree (select_info_due_user_name C memory dao name db)
  unfolding select_info_due_user_name select
  select_name-IsNullFree memory name db =
      bind-IsNullFree _ _ (run_query-IsNullFree _ _ db) (λ r. done-IsNullFree _)

  pub select_id-IsNullFree :
      (memory : Memory) (id : ℕ) (db : C.Db) → IsNullFree (select_info_due_id C memory dao id db)
  unfolding select_info_due_id select
  select_id-IsNullFree memory id db =
      bind-IsNullFree _ _ (run_query-IsNullFree _ _ db) (λ r. done-IsNullFree _)

  pub all_users-IsNullFree : (db : C.Db) → IsNullFree (get_all_user_public_info C dao db)
  unfolding get_all_user_public_info select_all
  all_users-IsNullFree db =
      bind-IsNullFree _ _ (run_query-IsNullFree _ _ db) (λ r. done-IsNullFree _)

  pub friends-IsNullFree : (id : ℕ) (db : C.Db) → IsNullFree (select_all_friend_ship C dao id db)
  unfolding select_all_friend_ship select2
  friends-IsNullFree id db =
      bind-IsNullFree _ _ (run_query-IsNullFree _ _ db) (λ r. done-IsNullFree _)

  pub applications-IsNullFree :
      (id : ℕ) (db : C.Db) → IsNullFree (select_all_friend_apply C dao id db)
  unfolding select_all_friend_apply select2
  applications-IsNullFree id db =
      bind-IsNullFree _ _ (run_query-IsNullFree _ _ db) (λ r. done-IsNullFree _)
