-- ===== src/Tests/Tables.antt =====
-- A connector over two tables in memory, which recognises the statements of the program.
use mathlib.Core.List.{append_assoc}
use mathlib.Core.List.Perm
use mathlib.Core.Option.{some-injective}
use text.Mathlib.Text
use app_server.Base.{
  ℕ, ◌≡◌, refl, sym, ◌⊎◌, inl, inr, Bool, true, false, not, Option, none, some, List, [], ◌∷◌, ◌++◌,
  map, keep_if, Text, literal, text_eq, length, drop, drop-append, if◌then◌else◌, and_then, arith,
  ltb, ◌==◌,
}
use app_server.Decimal.{to_string, stoull, stoull-to_string, stoull-to_string_before}
use app_server.MysqlInteractor.{Connector, Bindings, string, uint64}
use app_server.MysqlInteractor.UsersDao.{UsersTableData}
use app_server.MysqlInteractor.FriendShipDao.{FriendShipTableData}
use app_server.MysqlInteractor.Statements.{
  ChecksParameters, placeholders, friendship_insert, friendship_query, either_pair, set_where,
  delete_where,
}
use app_server.MysqlInteractor.Friendships.{
  accepted, pending, Ends, AreIds, ends, row_ends, is_either, has_end, set_ends, IsFriendTable,
}

pub record Tables : Type 0 where
  pub users : List UsersTableData
  pub friendships : List FriendShipTableData

pub record TableRow : Type 0 where
  pub id : ℕ
  pub username : Text
  pub password : Text
  pub email : Text
  pub user_id1 : ℕ
  pub user_id2 : ℕ

abbrev user_row : UsersTableData → TableRow
user_row u = record {
  id = u.id;
  username = u.username;
  password = u.password;
  email = u.email;
  user_id1 = 0;
  user_id2 = 0;
}

abbrev friendship_row : FriendShipTableData → TableRow
friendship_row r = record {
  id = 0;
  username = [];
  password = [];
  email = [];
  user_id1 = r.friendship_1;
  user_id2 = r.friendship_2;
}

-- The number behind k characters, and what follows it.
abbrev number_behind : ℕ → Text → Option (ℕ × Text)
number_behind k q =
    let s = drop k q in and_then (stoull s) λ a. some (a, drop (length (to_string a)) s)

-- The two pairs that a condition names.
abbrev named_pairs : Text → Option (Ends × Ends)
named_pairs q = and_then (number_behind 12 q) λ (a, q). and_then (number_behind 16 q) λ (b, q).
    and_then (number_behind 17 q)
      λ (c, q). and_then (number_behind 16 q) λ (d, q). some ((a, b), (c, d))

abbrev is_update : Text → Bool
is_update [] = false
is_update (c ∷ q) = c == b'U'

abbrev is_delete : Text → Bool
is_delete [] = false
is_delete (c ∷ q) = c == b'D'

abbrev insert_row : Bindings → Tables → Option Tables
insert_row ((_, string s) ∷ (_, uint64 a) ∷ (_, uint64 b) ∷ _) t = some (record t {
  friendships = t.friendships ++ record { friendship_1 = a; friendship_2 = b; status = s } ∷ [];
})
insert_row _ t = none

abbrev first_text : Bindings → Text
first_text ((_, string s) ∷ _) = s
first_text _ = []

abbrev first_number : Bindings → ℕ
first_number ((_, uint64 n) ∷ _) = n
first_number _ = 0

abbrev second_number : Bindings → ℕ
second_number (_ ∷ bs) = first_number bs
second_number _ = 0

abbrev second_text : Bindings → Text
second_text (_ ∷ bs) = first_text bs
second_text _ = []

abbrev third_text : Bindings → Text
third_text (_ ∷ bs) = second_text bs
third_text _ = []

abbrev set_text : Text
set_text = literal "UPDATE friendships SET status = ?, user_id1 = ?, user_id2 = ? WHERE "

abbrev delete_text : Text
delete_text = literal "DELETE FROM friendships WHERE "

abbrev delete_pairs : Option (Ends × Ends) → Tables → Option Tables
delete_pairs pairs t =
    and_then pairs
      λ (p, q). some (record t { friendships = keep_if (λ r. not (is_either p q r)) t.friendships })

abbrev set_pairs : Option (Ends × Ends) → Bindings → Tables → Option Tables
set_pairs pairs bs t = and_then pairs λ (p, q). and_then (stoull (second_text bs)) λ a.
    and_then (stoull (third_text bs)) λ b.
      some (record t {
        friendships = map (set_ends (is_either p q) a b (first_text bs)) t.friendships;
      })

abbrev run_statement : Tables → Text → Bindings → Option Tables
run_statement t q bs =
    if is_delete q
    then delete_pairs (named_pairs (drop (length delete_text) q)) t
    else if is_update q
    then set_pairs (named_pairs (drop (length set_text) q)) bs t
    else insert_row bs t

abbrev pub execute_update : Tables → Text → Bindings → Option Tables
execute_update t q bs =
    let result = run_statement t q bs in if ltb (length bs) (placeholders q) then none else result

abbrev has_name : Text → UsersTableData → Bool
has_name name u = text_eq u.username name

abbrev has_id : Text → UsersTableData → Bool
has_id id u = text_eq (to_string u.id) id

unfoldable pub rows_of : Tables → Text → Bindings → List TableRow
unfolding text_eq
rows_of t q bs =
    if text_eq q (friendship_query accepted)
    then (map friendship_row
        (keep_if (has_end (first_number bs) (second_number bs) accepted) t.friendships))
    else if text_eq q (friendship_query pending)
    then (map friendship_row
        (keep_if (has_end (first_number bs) (second_number bs) pending) t.friendships))
    else if text_eq q (literal "SELECT * FROM users WHERE username = ?")
    then map user_row (keep_if (has_name (first_text bs)) t.users)
    else if text_eq q (literal "SELECT * FROM users WHERE id = ?")
    then map user_row (keep_if (has_id (first_text bs)) t.users)
    else map user_row t.users

abbrev pub sample_connector : Connector
sample_connector = record {
  Db = Tables;
  Row = TableRow;
  prepares = λ t q. true;
  execute_update = execute_update;
  execute_query = λ t q bs. some (rows_of t q bs);
  get_string = λ r c.
      if Text.◌==◌ c "username"
      then r.username
      else if Text.◌==◌ c "password"
      then r.password
      else r.email;
  get_int = λ r c. r.id;
  get_uint64 = λ r c.
      if Text.◌==◌ c "user_id1"
      then r.user_id1
      else if Text.◌==◌ c "user_id2"
      then r.user_id2
      else r.id;
}

pub sample_connector-ChecksParameters : ChecksParameters sample_connector
sample_connector-ChecksParameters = record { unset = λ t q bs h. ground arith }

named_pairs-either_pair :
    (p q : Ends) → AreIds p → AreIds q → named_pairs (either_pair p q) ≡ some (p, q)
named_pairs-either_pair p q hp hq =
    let fourth : Text = literal " AND user_id2 = " ++ (to_string q.1 ++ literal ")") in
    let third : Text = literal ") OR (user_id1 = " ++ (to_string q.0 ++ fourth) in
    let second : Text = literal " AND user_id2 = " ++ (to_string p.1 ++ third) in
    let e : either_pair p q ≡ literal "(user_id1 = " ++ (to_string p.0 ++ second) =
      simp append_assoc in
    rw (
      e,
      stoull-to_string_before p.0 b' ' _ hp.0 refl,
      drop-append (to_string p.0) second,
      stoull-to_string_before p.1 b')' _ hp.1 refl,
      drop-append (to_string p.1) third,
      stoull-to_string_before q.0 b' ' _ hq.0 refl,
      drop-append (to_string q.0) fourth,
      stoull-to_string_before q.1 b')' _ hq.1 refl,
    )

rows_ends :
    (t : List FriendShipTableData)
    → map (row_ends sample_connector) (map friendship_row t) ≡ map ends t
rows_ends [] = refl
rows_ends (r ∷ t) = rw (rows_ends t)

run_statement_of_some :
    (t t' : Tables) (q : Text) (bs : Bindings)
    → execute_update t q bs ≡ some t'
    → run_statement t q bs ≡ some t'
run_statement_of_some t t' q bs h = ground arith

same_friendships : (t t' : Tables) → some t ≡ some t' → t'.friendships ≡ t.friendships
same_friendships t t' e = rw (some-injective t t' e) refl

selected_rows :
    (t : Tables) (x y : ℕ) (status : Text)
    → (status ≡ accepted) ⊎ (status ≡ pending)
    → rows_of t (friendship_query status) ((1, uint64 x) ∷ (2, uint64 y) ∷ [])
      ≡ map friendship_row (keep_if (has_end x y status) t.friendships)
unfolding rows_of text_eq
selected_rows t x y status (inl e) = rw e refl
selected_rows t x y status (inr e) = rw e refl

abbrev pub friendships_of : Tables → List FriendShipTableData
friendships_of t = t.friendships

pub sample_connector-IsFriendTable : IsFriendTable sample_connector friendships_of
sample_connector-IsFriendTable = record {
  inserted = λ t t' r e.
      same_friendships (record t { friendships = t.friendships ++ r ∷ [] }) t'
        (run_statement_of_some t t' friendship_insert
          ((1, string r.status) ∷ (2, uint64 r.friendship_1) ∷ (3, uint64 r.friendship_2) ∷ []) e);
  updated = λ t t' p q a b status hp hq hab e.
      let h =
        run_statement_of_some t t' (set_where (either_pair p q))
          ((1, string status) ∷ (2, string (to_string a)) ∷ (3, string (to_string b)) ∷ []) e in
      same_friendships _ t' (
        rw
          (
            drop-append set_text (either_pair p q),
            named_pairs-either_pair p q hp hq,
            stoull-to_string a hab.0,
            stoull-to_string b hab.1,
          )
          at h);
  deleted = λ t t' p q hp hq e.
      let h = run_statement_of_some t t' (delete_where (either_pair p q)) [] e in
      same_friendships _ t'
        (rw (drop-append delete_text (either_pair p q), named_pairs-either_pair p q hp hq) at h);
  selected = λ t rows x y status known e.
      let same = some-injective _ _ e in
      rw
        (
          sym same,
          selected_rows t x y status known,
          rows_ends (keep_if (has_end x y status) t.friendships),
        )
        (Perm.refl _);
}
