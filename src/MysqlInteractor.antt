-- ===== src/MysqlInteractor.antt =====
-- class BaseDao: src/MysqlInteractor/include/MysqlInteractor.h. The MySQL connector is an interface.
pub mod UsersDao
pub mod FriendShipDao
pub mod Statements
pub mod Friendships
pub mod Lifetime
pub mod Connected
use app_server.Base.{
  String, ℕ, zero, suc, ◌+◌, Bool, true, false, ◌||◌, Option, none, some, List, [], ◌∷◌, ◌++◌,
  Bytes, Text, literal, text_eq, ◌==◌, ltb, if◌then◌else◌, Outcome, done, fault, null, thrown,
  or_fault, ◌>>=◌,
}
use app_server.Decimal.{stoull}
use app_server.MysqlConnectPool.{ConnectionPtr}

-- A value that setString or setUInt64 binds.
pub data Parameter : Type 0 where
  string : Text → Parameter
  uint64 : ℕ → Parameter

-- The parameters of a statement that were set, each with its index.
abbrev pub Bindings : Type 0
Bindings = List (ℕ × Parameter)

-- The connector over the state of the database: whether a statement can be prepared, what executing
-- it with its parameters does, and the columns of a row. `false` and `none` are an SQLException;
-- getInt gives the pattern of an int32_t.
pub record Connector : Type 1 where
  pub Db : Type 0
  pub Row : Type 0
  pub prepares : Db → Text → Bool
  pub execute_update : Db → Text → Bindings → Option Db
  pub execute_query : Db → Text → Bindings → Option (List Row)
  pub get_string : Row → String → Text
  pub get_int : Row → String → ℕ
  pub get_uint64 : Row → String → ℕ

pub record Dao : Type 0 where
  pub table_name : Text
  pub connection : ConnectionPtr

-- The constructors of UsersDao and FriendShipDao, with what the pool gave them.
unfoldable pub new_users_dao : ConnectionPtr → Dao
new_users_dao c = record { table_name = literal "users"; connection = c }

unfoldable pub new_friend_ship_dao : ConnectionPtr → Dao
new_friend_ship_dao c = record { table_name = literal "friendships"; connection = c }

-- std::map<std::string, std::string>: sorted by key, and the first value for a key stays.
abbrev pub Columns : Type 0
Columns = List (Text × Text)

-- operator< of two strings
unfoldable pub text_lt : Text → Text → Bool
text_lt [] [] = false
text_lt [] (b ∷ t) = true
text_lt (a ∷ s) [] = false
text_lt (a ∷ s) (b ∷ t) = if a == b then text_lt s t else ltb a b

unfoldable pub insert_column : Text × Text → Columns → Columns
unfolding text_lt text_eq
insert_column e [] = e ∷ []
insert_column (k, v) ((j, w) ∷ rest) =
    if text_eq k j
    then (j, w) ∷ rest
    else if text_lt k j
    then (k, v) ∷ (j, w) ∷ rest
    else (j, w) ∷ insert_column (k, v) rest

-- The map that an initializer list makes.
unfoldable pub make_columns : Columns → Columns → Columns
unfolding insert_column
make_columns m [] = m
make_columns m (e ∷ es) = make_columns (insert_column e m) es

unfoldable pub pop_back : Text → Text
pop_back [] = []
pop_back (c ∷ []) = []
pop_back (c ∷ d ∷ s) = c ∷ pop_back (d ∷ s)

-- The loop that lists the columns, and the one that lists the placeholders.
unfoldable pub column_list : Columns → Text → Text
column_list [] out = out
column_list ((k, v) ∷ rest) out = column_list rest (out ++ k ++ literal ", ")

unfoldable pub placeholder_list : Columns → Text → Text
placeholder_list [] out = out
placeholder_list ((k, v) ∷ rest) out = placeholder_list rest (out ++ literal "?, ")

unfoldable pub insert_query : Text → Columns → Text
unfolding column_list placeholder_list pop_back
insert_query table columns =
    literal "INSERT INTO "
    ++ table
    ++ literal " ("
    ++ pop_back (pop_back (column_list columns []))
    ++ literal ") VALUES ("
    ++ pop_back (pop_back (placeholder_list columns []))
    ++ literal ")"

-- The loop of `insert` that binds parameters: ids as numbers, the status as a text, and no other
-- column. The exception of stoull is no SQLException.
unfoldable pub insert_bindings : Columns → ℕ → Outcome Bindings
insert_bindings [] index = done []
insert_bindings ((k, v) ∷ rest) index =
    if text_eq k (literal "user_id1") || text_eq k (literal "user_id2")
    then (do
      n ← or_fault thrown (stoull v)
      bs ← insert_bindings rest (index + 1)
      done ((index, uint64 n) ∷ bs))
    else if text_eq k (literal "status")
    then (do bs ← insert_bindings rest (index + 1); done ((index, string v) ∷ bs))
    else insert_bindings rest index

unfoldable pub set_clause : Columns → Text → Text
set_clause [] out = out
set_clause ((k, v) ∷ rest) out = set_clause rest (out ++ k ++ literal " = ?, ")

unfoldable pub update_query : Text → Columns → Text → Text
unfolding set_clause pop_back
update_query table columns condition =
    literal "UPDATE "
    ++ table
    ++ literal " SET "
    ++ pop_back (pop_back (set_clause columns []))
    ++ literal " WHERE "
    ++ condition

unfoldable pub update_bindings : Columns → ℕ → Bindings
update_bindings [] index = []
update_bindings ((k, v) ∷ rest) index = (index, string v) ∷ update_bindings rest (index + 1)

unfoldable pub delete_query : Text → Text → Text
delete_query table condition = literal "DELETE FROM " ++ table ++ literal " WHERE " ++ condition

module _ (C : Connector) where
  open C use {Db, Row, prepares, execute_update, execute_query}

  -- prepareStatement on the connection of the object: a null connection is dereferenced.
  unfoldable pub prepare_statement : Dao → Text → Db → Outcome Bool
  prepare_statement dao query db = elim dao.connection [
    | none ↦ fault null
    | some c ↦ done (prepares db query)
  ]

  -- executeUpdate inside the `try`: an SQLException is caught, and the result is false.
  abbrev pub updated : Option Db → Db → Outcome (Bool × Db)
  updated none db = done (false, db)
  updated (some db') db = done (true, db')

  unfoldable pub run_update : Dao → Text → Outcome Bindings → Db → Outcome (Bool × Db)
  unfolding prepare_statement
  run_update dao query bindings db = do
    prepared ← prepare_statement dao query db
    if prepared
        then (do bs ← bindings; updated (execute_update db query bs) db)
        else done (false, db)

  unfoldable pub insert : Dao → Columns → Db → Outcome (Bool × Db)
  unfolding insert_query insert_bindings run_update
  insert dao columns db =
      run_update dao (insert_query dao.table_name columns) (insert_bindings columns 1) db

  unfoldable pub update : Dao → Columns → Text → Db → Outcome (Bool × Db)
  unfolding update_query update_bindings run_update
  update dao columns condition db =
      run_update dao (update_query dao.table_name columns condition)
        (done (update_bindings columns 1)) db

  unfoldable pub remove : Dao → Text → Db → Outcome (Bool × Db)
  unfolding delete_query run_update
  remove dao condition db = run_update dao (delete_query dao.table_name condition) (done []) db

  -- `select` with its parameters bound, and `select2`: `none` is nullptr.
  unfoldable pub run_query : Dao → Text → Bindings → Db → Outcome (Option (List Row))
  unfolding prepare_statement
  run_query dao query bindings db = do
    prepared ← prepare_statement dao query db
    if prepared then done (execute_query db query bindings) else done none

  unfoldable pub select : Dao → Text → Text → Db → Outcome (Option (List Row))
  unfolding run_query
  select dao query param db = run_query dao query ((1, string param) ∷ []) db

  unfoldable pub select_all : Dao → Text → Db → Outcome (Option (List Row))
  unfolding run_query
  select_all dao query db = run_query dao query [] db
