-- ===== src/MysqlInteractor/Lifetime.antt =====
-- From the constructor of BaseDao to its destructor: src/MysqlInteractor/include/MysqlInteractor.h.
use app_server.Base.{
  ℕ, ◌≡◌, refl, Bool, Option, none, some, List, [], ◌∷◌, ◌++◌, Text, Outcome, done, fault, null,
  if◌then◌else◌,
}
use app_server.MysqlConnectPool.{
  ConnectionPtr, Driver, MySqlInfo, Pool, new_config, get_instance, get_connection,
  release_connection,
}
use app_server.MysqlInteractor.{
  insert, update, remove, select, select_all, update_bindings, Connector, Dao, Columns, Bindings,
  run_update, run_query,
}

-- An object with its table name, and the pool after the call; `p` is the static pool, if a call of
-- getInstance made it already.
unfoldable pub construct : Driver → Option MySqlInfo → Text → Option Pool → Dao × Pool
unfolding get_instance get_connection
construct driver config table_name p =
    let (connection, pool) = get_connection (get_instance driver config new_config 10 p) in
    (record { table_name = table_name; connection = connection }, pool)

-- `mysql_info_` is a member that nothing sets.
unfoldable pub destroy : Driver → Option MySqlInfo → Dao → Option Pool → Pool
unfolding get_instance release_connection
destroy driver config dao p =
    release_connection dao.connection (get_instance driver config new_config 10 p)

-- Whether the connection of the object is closed; `closes` is false where `close` throws, which is caught.
unfoldable close_connection : (ℕ → Bool) → Dao → List ℕ → List ℕ
close_connection closes dao closed = elim dao.connection [
  | none ↦ closed
  | some c ↦ if closes c then c ∷ closed else closed
]

-- Every statement of an object without a connection dereferences the null pointer.
pub record Crashes (C : Connector) (dao : Dao) : Type 0 where
  pub on_insert : (columns : Columns) (db : C.Db) → insert C dao columns db ≡ fault null
  pub on_update :
      (columns : Columns) (condition : Text) (db : C.Db)
      → update C dao columns condition db ≡ fault null
  pub on_remove : (condition : Text) (db : C.Db) → remove C dao condition db ≡ fault null
  pub on_select : (query param : Text) (db : C.Db) → select C dao query param db ≡ fault null
  pub on_select_all : (query : Text) (db : C.Db) → select_all C dao query db ≡ fault null

update_null :
    (C : Connector) (dao : Dao) (query : Text) (bs : Outcome Bindings) (db : C.Db)
    → dao.connection ≡ none
    → run_update C dao query bs db ≡ fault null
unfolding run_update
update_null C dao query bs db e = rw e refl

query_null :
    (C : Connector) (dao : Dao) (query : Text) (bs : Bindings) (db : C.Db)
    → dao.connection ≡ none
    → run_query C dao query bs db ≡ fault null
unfolding run_query
query_null C dao query bs db e = rw e refl

null-Crashes : (C : Connector) (dao : Dao) → dao.connection ≡ none → Crashes C dao
unfolding insert update remove select select_all
null-Crashes C dao e = record {
  on_insert = λ columns db. update_null C dao _ _ db e;
  on_update = λ columns condition db. update_null C dao _ (done (update_bindings columns 1)) db e;
  on_remove = λ condition db. update_null C dao _ (done []) db e;
  on_select = λ query param db. query_null C dao query _ db e;
  on_select_all = λ query db. query_null C dao query _ db e;
}

front :
    (c : ConnectionPtr) (cs : List ConnectionPtr) (p : Pool)
    → p.connections ≡ c ∷ cs
    → (get_connection p).0 ≡ c
unfolding get_connection
front c cs p e = rw (e, get_connection) refl

module _ (driver : Driver) (config : Option MySqlInfo) where
  -- An object that is constructed and destroyed gives the connection at the front of the pool back
  -- behind the others.
  construct-destroy :
      (table_name : Text) (p : Pool) (c : ConnectionPtr) (cs : List ConnectionPtr)
      → p.connections ≡ c ∷ cs
      → let (dao, p') = construct driver config table_name (some p) in
        (dao.connection ≡ c)
        × (destroy driver config dao (some p') ≡ record p { connections = cs ++ c ∷ [] })
  unfolding construct destroy
  construct-destroy table_name p c cs e = (rw (e, get_connection) refl, rw (e, get_connection) refl)

  -- An object that is constructed while the pool stays empty dereferences a null pointer in every
  -- statement; when it is destroyed it leaves that pointer in the pool, where the next object takes
  -- it for a connection and crashes in the same way.
  pub construct_timed_out :
      (C : Connector) (table_name table_name' : Text) (p : Pool)
      → p.connections ≡ []
      → let (dao, p') = construct driver config table_name (some p) in
        let p'' = destroy driver config dao (some p') in
        Crashes C dao
        × (p''.connections ≡ none ∷ [])
        × Crashes C (construct driver config table_name' (some p'')).0
  unfolding construct destroy
  construct_timed_out C table_name table_name' p e =
      let none_left : (get_connection p).0 ≡ none = rw (e, get_connection) refl in
      let same : (get_connection p).1 ≡ p = rw (e, get_connection) refl in
      let pool =
        destroy driver config (construct driver config table_name (some p)).0
          (some (construct driver config table_name (some p)).1) in
      let left : pool.connections ≡ none ∷ [] = rw (same, none_left, e) refl in
      (null-Crashes C _ none_left, left, null-Crashes C _ (front none [] pool left))
