-- ===== src/MysqlInteractor/Friendships/Lists.antt =====
-- The list of friends and the list of applicants of a user, as the table gives them.
use mathlib.Core.Logic.Or
use mathlib.Core.HLevel.{⊥_prop}
use mathlib.Core.List.{Perm, Mem, mem-cons, not-mem-nil, mem-cons_self, mem-cons_of_mem, filter_map}
use mathlib.Core.List.Perm
use app_server.Base.{
  ℕ, ◌≡◌, ◌≢◌, inl, inr, refl, true, false, not, Option, none, some, List, [], ◌∷◌, ◌++◌, map,
  keep_if, any, text_eq_refl, ◌==◌, if◌then◌else◌, Bool-cases, arith, done,
}
use app_server.MysqlInteractor.{Connector, uint64, new_friend_ship_dao}
use app_server.MysqlInteractor.FriendShipDao.{
  FriendShipTableData, status_query, friend_ids, apply_ids, select_all_friend_ship,
  select_all_friend_apply,
}
use app_server.MysqlInteractor.Statements.{friendship_query}
use app_server.MysqlInteractor.Friendships.{
  accepted, pending, Ends, ends, row_ends, joins, is_for, set_pair, IsFriendTable,
}

-- The other user of a pair.
abbrev pub other : ℕ → Ends → ℕ
other id (a, b) = if a == id then b else a

-- The user who asked, unless that is the user whose list it is.
abbrev pub applicant : ℕ → Ends → Option ℕ
applicant id (a, b) = if a == id then none else some a

unfoldable pub friends : ℕ → List FriendShipTableData → List ℕ
friends id t = map (other id) (map ends (keep_if (is_for id accepted) t))

unfoldable pub applicants : ℕ → List FriendShipTableData → List ℕ
applicants id t = filter_map (applicant id) (map ends (keep_if (is_for id pending) t))

friend_ids-map :
    (C : Connector) (id : ℕ) (rows : List C.Row)
    → friend_ids C id rows ≡ map (other id) (map (row_ends C) rows)
unfolding friend_ids
friend_ids-map C id [] = refl
friend_ids-map C id (row ∷ rows) = rw (friend_ids-map C id rows)

apply_ids-filter_map :
    (C : Connector) (id : ℕ) (rows : List C.Row)
    → apply_ids C id rows ≡ filter_map (applicant id) (map (row_ends C) rows)
unfolding apply_ids filter_map
apply_ids-filter_map C id [] = refl
apply_ids-filter_map C id (row ∷ rows) = ground (arith, apply_ids-filter_map C id rows)

module _ {C : Connector} {table : C.Db → List FriendShipTableData} (laws : IsFriendTable C table)
    (c : ℕ) (id : ℕ) (db : C.Db) (rows : List C.Row) where
  -- Where MySQL prepares and executes the query, the list of friends is, in some order, the other
  -- users of the accepted rows of the user.
  pub select_all_friend_ship-perm :
      C.prepares db (friendship_query accepted) ≡ true
      → C.execute_query db (friendship_query accepted) ((1, uint64 id) ∷ (2, uint64 id) ∷ [])
        ≡ some rows
      → (ids : List ℕ) × (select_all_friend_ship C (new_friend_ship_dao (some c)) id db ≡ done ids)
        × Perm ids (friends id (table db))
  unfolding select_all_friend_ship status_query new_friend_ship_dao
  select_all_friend_ship-perm prepared queried = (
    friend_ids C id rows,
    ground arith,
    rw (friend_ids-map C id rows) (
        unfold friends in
        Perm.map (other id) (laws.selected db rows id id accepted (inl refl) queried)),
  )

  -- Where MySQL prepares and executes the query, the list of applicants is, in some order, the
  -- users who made the pending requests to the user; the user's own requests are not in it.
  select_all_friend_apply-perm :
      C.prepares db (friendship_query pending) ≡ true
      → C.execute_query db (friendship_query pending) ((1, uint64 id) ∷ (2, uint64 id) ∷ [])
        ≡ some rows
      → (ids : List ℕ) × (select_all_friend_apply C (new_friend_ship_dao (some c)) id db ≡ done ids)
        × Perm ids (applicants id (table db))
  unfolding select_all_friend_apply status_query new_friend_ship_dao
  select_all_friend_apply-perm prepared queried = (
    apply_ids C id rows,
    ground arith,
    rw (apply_ids-filter_map C id rows) (
        unfold applicants in
        Perm.filter_map (applicant id) (laws.selected db rows id id pending (inr refl) queried)),
  )

mem-friends_head :
    (x id : ℕ) (r : FriendShipTableData) (t : List FriendShipTableData)
    → is_for id accepted r ≡ true
    → other id (ends r) ≡ x
    → Mem x (friends id (r ∷ t))
unfolding friends
mem-friends_head x id r t h e = rw (h, e) mem-cons_self

mem-friends_tail :
    (x id : ℕ) (r : FriendShipTableData) (t : List FriendShipTableData)
    → Mem x (friends id t)
    → Mem x (friends id (r ∷ t))
unfolding friends
mem-friends_tail x id r t m = elim (Bool-cases (is_for id accepted r)) [
  | inl kept ↦ rw kept (mem-cons_of_mem _ m)
  | inr dropped ↦ rw dropped m
]

-- A pair that was accepted stands in the lists of both.
pub mem-friends-set_pair :
    (a b : ℕ) (t : List FriendShipTableData)
    → any (joins a b) t ≡ true
    → Mem a (friends b (map (set_pair a b accepted) t))
      × Mem b (friends a (map (set_pair a b accepted) t))
mem-friends-set_pair a b [] h = cc
mem-friends-set_pair a b (r ∷ t) h = elim (Bool-cases (joins a b r)) [
  | inl joined ↦
      let same = text_eq_refl accepted in
      rw joined (
        mem-friends_head a b _ _ (ground (arith, same)) (ground arith),
        mem-friends_head b a _ _ (ground (arith, same)) (ground arith),
      )
  | inr apart ↦
      let (m, m') = mem-friends-set_pair a b t (ground arith) in
      (mem-friends_tail a b _ _ m, mem-friends_tail b a _ _ m')
]

-- Where no row joins two users, neither is a friend of the other.
pub not-mem-friends :
    (a b : ℕ) (t : List FriendShipTableData) → any (joins a b) t ≡ false → ¬ Mem a (friends b t)
unfolding friends
not-mem-friends a b [] h m = not-mem-nil m
not-mem-friends a b (r ∷ t) h m = elim (Bool-cases (is_for b accepted r)) [
  | inl kept ↦
      Or.elim ⊥_prop (mem-cons.0 (rw kept at m)) (λ e. ground arith)
        (not-mem-friends a b t (ground arith))
  | inr dropped ↦ not-mem-friends a b t (ground arith) (rw dropped at m)
]

-- Nor an applicant.
pub not-mem-applicants :
    (a b : ℕ) (t : List FriendShipTableData) → any (joins a b) t ≡ false → ¬ Mem a (applicants b t)
unfolding applicants filter_map
not-mem-applicants a b [] h m = not-mem-nil m
not-mem-applicants a b (r ∷ t) h m = elim (Bool-cases (is_for b pending r)) [
  | inr dropped ↦ not-mem-applicants a b t (ground arith) (rw dropped at m)
  | inl kept ↦ elim (Bool-cases (r.friendship_1 == b)) [
    | inl own ↦ not-mem-applicants a b t (ground arith) (rw (kept, own) at m)
    | inr asked ↦
        Or.elim ⊥_prop (mem-cons.0 (rw (kept, asked) at m)) (λ e. ground arith)
          (not-mem-applicants a b t (ground arith))
  ]
]

pub any-keep_if :
    (a b : ℕ) (t : List FriendShipTableData)
    → any (joins a b) (keep_if (λ r. not (joins a b r)) t) ≡ false
any-keep_if a b [] = refl
any-keep_if a b (r ∷ t) = ground (arith, any-keep_if a b t)

pub joins_comm : (a b : ℕ) (t : List FriendShipTableData) → any (joins a b) t ≡ any (joins b a) t
joins_comm a b [] = refl
joins_comm a b (r ∷ t) = ground (arith, joins_comm a b t)

mem-applicants_head :
    (a b : ℕ) (r : FriendShipTableData) (t : List FriendShipTableData)
    → is_for b pending r ≡ true
    → (r.friendship_1 == b) ≡ false
    → r.friendship_1 ≡ a
    → Mem a (applicants b (r ∷ t))
unfolding applicants filter_map
mem-applicants_head a b r t h ne e = rw (h, ne, e) mem-cons_self

mem-applicants_tail :
    (a b : ℕ) (r : FriendShipTableData) (t : List FriendShipTableData)
    → Mem a (applicants b t)
    → Mem a (applicants b (r ∷ t))
unfolding applicants filter_map
mem-applicants_tail a b r t m = elim (Bool-cases (is_for b pending r)) [
  | inr dropped ↦ rw dropped m
  | inl kept ↦ elim (Bool-cases (r.friendship_1 == b)) [
    | inl own ↦ rw (kept, own) m
    | inr asked ↦ rw (kept, asked) (mem-cons_of_mem _ m)
  ]
]

-- A request stands in the list of the user whom it asks.
pub mem-applicants-append :
    (a b : ℕ) (t : List FriendShipTableData)
    → a ≢ b
    → Mem a
        (applicants b (t ++ record { friendship_1 = a; friendship_2 = b; status = pending } ∷ []))
mem-applicants-append a b [] ne =
    let same = text_eq_refl pending in
    mem-applicants_head a b _ [] (ground (arith, same)) (ground arith) refl
mem-applicants-append a b (r ∷ t) ne = mem-applicants_tail a b r _ (mem-applicants-append a b t ne)
