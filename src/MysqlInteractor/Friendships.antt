-- ===== src/MysqlInteractor/Friendships.antt =====
-- The friendships table: what the statements of FriendShipDao mean for its rows, and what the two
-- lists of a user then hold.
pub mod Lists
pub mod Apart
use mathlib.Core.List.{Perm}
use app_server.Base.{
  ℕ, ◌<◌, ◌^◌, ◌≡◌, ◌⊎◌, Bool, not, ◌&&◌, ◌||◌, Option, none, some, List, [], ◌∷◌, ◌++◌, map,
  keep_if, Text, literal, text_eq, ◌==◌, if◌then◌else◌,
}
use app_server.Decimal.{to_string}
use app_server.MysqlInteractor.{Connector, string, uint64}
use app_server.MysqlInteractor.FriendShipDao.{FriendShipTableData}
use app_server.MysqlInteractor.Statements.{
  friendship_insert, friendship_query, either_pair, set_where, delete_where,
}

abbrev pub accepted : Text
accepted = literal "accepted"

abbrev pub pending : Text
pending = literal "pending"

abbrev pub Ends : Type 0
Ends = ℕ × ℕ

abbrev pub ends : FriendShipTableData → Ends
ends r = (r.friendship_1, r.friendship_2)

abbrev pub row_ends : (C : Connector) → C.Row → Ends
row_ends C row = (C.get_uint64 row "user_id1", C.get_uint64 row "user_id2")

abbrev pub AreIds : Ends → Type 0
AreIds p = (p.0 < 2 ^ 64) × (p.1 < 2 ^ 64)

-- What `either_pair` says of a row.
abbrev pub is_either : Ends → Ends → FriendShipTableData → Bool
is_either p q r =
    (r.friendship_1 == p.0 && r.friendship_2 == p.1)
    || (r.friendship_1 == q.0 && r.friendship_2 == q.1)

-- What the condition of `friendship_query` says of a row, for its two parameters.
abbrev pub has_end : ℕ → ℕ → Text → FriendShipTableData → Bool
has_end x y status r = (r.friendship_1 == x || r.friendship_2 == y) && text_eq r.status status

abbrev pub set_ends :
    (FriendShipTableData → Bool) → ℕ → ℕ → Text → FriendShipTableData → FriendShipTableData
set_ends chosen a b status r =
    if chosen r then record { friendship_1 = a; friendship_2 = b; status = status } else r

-- The row is about the two users, in either order.
abbrev pub joins : ℕ → ℕ → FriendShipTableData → Bool
joins a b = is_either (a, b) (b, a)

-- The row is about the user, and has this status.
abbrev pub is_for : ℕ → Text → FriendShipTableData → Bool
is_for id = has_end id id

abbrev pub set_pair : ℕ → ℕ → Text → FriendShipTableData → FriendShipTableData
set_pair a b = set_ends (joins a b) a b

-- What the program relies on of MySQL: four kinds of statements, which are written out here, mean what
-- their texts say for the rows of the table, whatever numbers stand in them. That the program executes such
-- statements, and with which numbers, is not assumed. No order of the rows of a result is promised.
pub record IsFriendTable (C : Connector) (table : C.Db → List FriendShipTableData) : Type 0 where
  pub inserted :
      (db db' : C.Db) (r : FriendShipTableData)
      → C.execute_update db friendship_insert
          ((1, string r.status) ∷ (2, uint64 r.friendship_1) ∷ (3, uint64 r.friendship_2) ∷ [])
        ≡ some db'
      → table db' ≡ table db ++ r ∷ []
  pub updated :
      (db db' : C.Db) (p q : Ends) (a b : ℕ) (status : Text)
      → AreIds p
      → AreIds q
      → AreIds (a, b)
      → C.execute_update db
          (set_where (either_pair p q))
          ((1, string status) ∷ (2, string (to_string a)) ∷ (3, string (to_string b)) ∷ [])
        ≡ some db'
      → table db' ≡ map (set_ends (is_either p q) a b status) (table db)
  pub deleted :
      (db db' : C.Db) (p q : Ends)
      → AreIds p
      → AreIds q
      → C.execute_update db (delete_where (either_pair p q)) [] ≡ some db'
      → table db' ≡ keep_if (λ r. not (is_either p q r)) (table db)
  pub selected :
      (db : C.Db) (rows : List C.Row) (x y : ℕ) (status : Text)
      → (status ≡ accepted) ⊎ (status ≡ pending)
      → C.execute_query db (friendship_query status) ((1, uint64 x) ∷ (2, uint64 y) ∷ [])
        ≡ some rows
      → Perm (map (row_ends C) rows) (map ends (keep_if (has_end x y status) (table db)))
