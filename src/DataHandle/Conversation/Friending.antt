-- ===== src/DataHandle/Conversation/Friending.antt =====
-- Any sequence of friend requests, answers and deletions, as operations on the table of friendships.
use mathlib.Core.List.{Mem}
use app_server.MysqlInteractor.Friendships.Lists.{friends, mem-friends-set_pair}
use app_server.Base.{
  any, ℕ, ◌≡◌, refl, ap, ◌∙◌, some, true, false, List, [], ◌∷◌, ◌++◌, map, done, arith, Text,
}
use app_server.Packet.{TcpPacket}
use app_server.Decimal.{to_string}
use app_server.Message.{message_code, add_friend_request, friend_confirm, delete_friend}
use app_server.Message.AddFriendRequest
use app_server.Message.FriendConfirm
use app_server.Message.DeleteFriend
use app_server.UserConnectionManager.{select_user}
use app_server.MysqlInteractor.{Bindings, string, uint64, new_friend_ship_dao}
use app_server.MysqlInteractor.FriendShipDao.{FriendShipTableData}
use app_server.MysqlInteractor.Statements.{friendship_insert, friendship_update, friendship_delete}
use app_server.MysqlInteractor.Friendships.{IsFriendTable, joins, set_pair, accepted, pending}
use app_server.DataHandle.{Env, met, World, handle_data}
use app_server.DataHandle.Incoming.{Carries}
use app_server.DataHandle.Dispatch.{handler, handle_data-message_code}
use app_server.DataHandle.Requests.{request_stored}
use app_server.DataHandle.Friendships.{confirm_stored, refusal_stored, deletion_stored}
use app_server.MysqlInteractor.Friendships.Apart.{IsApart, without-IsApart, without}
use app_server.DataHandle.Conversation.{Arrival, handle_all}

-- What a user wants: to be the friend of another, to accept or refuse another, or to end it.
pub data Wish : Type 0 where
  ask accept refuse leave : ℕ → ℕ → Wish

-- The rows afterwards. The first id is the one of the user who is asked, or was the friend.
unfoldable pub granted : Wish → List FriendShipTableData → List FriendShipTableData
granted (ask friend own) t =
    t ++ record { friendship_1 = own; friendship_2 = friend; status = pending } ∷ []
granted (accept friend own) t = map (set_pair friend own accepted) t
granted (refuse friend own) t = without friend own t
granted (leave friend own) t = without friend own t

unfoldable pub all_granted : List Wish → List FriendShipTableData → List FriendShipTableData
all_granted [] t = t
all_granted (h ∷ hs) t = all_granted hs (granted h t)

module _ (E : Env) where
  open E use {json, connector}

  -- The packet is well formed and says this.
  pub data Says (p : TcpPacket) : Wish → Type 0 where
    asks :
        (i : AddFriendRequest.Info)
        → p.func_id ≡ message_code add_friend_request
        → Carries json (AddFriendRequest.info_from_json json) p i
        → AddFriendRequest.IsInfo i
        → Says p (ask i.friend_id i.own_id)
    accepts :
        (i : FriendConfirm.Info)
        → p.func_id ≡ message_code friend_confirm
        → Carries json (FriendConfirm.info_from_json json) p i
        → FriendConfirm.IsInfo i
        → i.success ≡ true
        → Says p (accept i.friend_id i.own_id)
    refuses :
        (i : FriendConfirm.Info)
        → p.func_id ≡ message_code friend_confirm
        → Carries json (FriendConfirm.info_from_json json) p i
        → FriendConfirm.IsInfo i
        → i.success ≡ false
        → Says p (refuse i.friend_id i.own_id)
    leaves :
        (i : DeleteFriend.Info)
        → p.func_id ≡ message_code delete_friend
        → Carries json (DeleteFriend.info_from_json json) p i
        → DeleteFriend.IsInfo i
        → Says p (leave i.friend_id i.own_id)

  -- MySQL prepares and executes a statement.
  abbrev pub Executes : connector.Db → Text → Bindings → connector.Db → Type 0
  Executes db query bs db' =
      (connector.prepares db query ≡ true) × (connector.execute_update db query bs ≡ some db')

  -- MySQL executes the statement of a wish. A user who is asked has a registered socket, which is no
  -- longer connected.
  abbrev pub Grants : Arrival → Wish → World connector → connector.Db → Type 0
  Grants a (ask friend own) w db =
      Executes w.db friendship_insert
        ((1, string pending) ∷ (2, uint64 own) ∷ (3, uint64 friend) ∷ []) db
      × ((s : ℕ) × (select_user friend w.manager ≡ some s) × (a.moment.connected s ≡ false))
  Grants a (accept friend own) w db =
      Executes w.db (friendship_update friend own)
        ((1, string accepted) ∷ (2, string (to_string friend)) ∷ (3, string (to_string own)) ∷ [])
        db
  Grants a (refuse friend own) w db = Executes w.db (friendship_delete friend own) [] db
  Grants a (leave friend own) w db = Executes w.db (friendship_delete friend own) [] db

  -- Packets with the wishes that they say, from a world to the one after them.
  pub data Granted : List Arrival → List Wish → World connector → World connector → Type 0 where
    finish : {w : World connector} → Granted [] [] w w
    grant :
        {rest : List Arrival} {w w' : World connector} (a : Arrival) (h : Wish) (hs : List Wish)
        (db : connector.Db)
        → Says a.packet h
        → Grants a h w db
        → Granted rest hs (record w { db = db }) w'
        → Granted (a ∷ rest) (h ∷ hs) w w'

all_granted-last :
    (before : List Wish) (friend own : ℕ) (t : List FriendShipTableData)
    → all_granted (before ++ leave friend own ∷ []) t ≡ without friend own (all_granted before t)
unfolding all_granted granted
all_granted-last [] friend own t = refl
all_granted-last (h ∷ hs) friend own t = all_granted-last hs friend own (granted h t)

module _ (E : Env) (c : ℕ) (dao : E.friend_ship_dao ≡ new_friend_ship_dao (some c))
    {table : E.connector.Db → List FriendShipTableData}
    (laws : IsFriendTable E.connector table) where
  -- One packet.
  pub wish_granted :
      (a : Arrival) (h : Wish) (w : World E.connector) (db : E.connector.Db)
      → Says E a.packet h
      → Grants E a h w db
      → (handle_data (met E a.moment) a.packet a.client w ≡ done (record w { db = db }))
        × (table db ≡ granted h (table w.db))
  unfolding handler granted
  wish_granted a _ w db (asks i f says fits) ((prepared, executed), (s, found, offline)) =
      let (handles, now) =
        request_stored (met E a.moment) a.packet i c a.client s w db dao table laws says fits
          prepared executed found offline in
      (
        handle_data-message_code (met E a.moment) add_friend_request a.packet a.client w f
            ∙ handles,
        now,
      )
  wish_granted a _ w db (accepts i f says fits agreed) (prepared, executed) =
      let (handles, now) =
        confirm_stored (met E a.moment) a.packet i c a.client w db dao table laws says fits agreed
          prepared executed in
      (
        handle_data-message_code (met E a.moment) friend_confirm a.packet a.client w f ∙ handles,
        now,
      )
  wish_granted a _ w db (refuses i f says fits refused) (prepared, executed) =
      let (handles, now) =
        refusal_stored (met E a.moment) a.packet i c a.client w db dao table laws says fits refused
          prepared executed in
      (
        handle_data-message_code (met E a.moment) friend_confirm a.packet a.client w f ∙ handles,
        now,
      )
  wish_granted a _ w db (leaves i f says fits) (prepared, executed) =
      let (handles, now) =
        deletion_stored (met E a.moment) a.packet i c a.client w db dao table laws says fits
          prepared executed in
      (handle_data-message_code (met E a.moment) delete_friend a.packet a.client w f ∙ handles, now)

  -- Any sequence of well-formed packets that request a friendship of a user who is registered but
  -- away, accept, refuse or delete one, where MySQL prepares and executes the statement of each, is
  -- handled to its end and changes the rows of the table as these wishes do one after the other;
  -- the connections stay, and nothing is sent.
  pub all_granted-handle_all :
      {arrivals : List Arrival} {hs : List Wish} {w w' : World E.connector}
      → Granted E arrivals hs w w'
      → (handle_all E arrivals w ≡ done w')
        × (table w'.db ≡ all_granted hs (table w.db))
        × (w'.manager ≡ w.manager)
        × (w'.scheduled ≡ w.scheduled)
  unfolding handle_all all_granted
  all_granted-handle_all finish = (refl, refl, refl, refl)
  all_granted-handle_all (grant a h hs db says grants more) =
      let (handles, now) = wish_granted a h _ db says grants in
      let (all, table', manager, scheduled) = all_granted-handle_all more in
      (rw handles all, table' ∙ ap (all_granted hs) now, manager, scheduled)

joins_asked :
    (own friend : ℕ) (t : List FriendShipTableData)
    → any
        (joins own friend)
        (t ++ record { friendship_1 = own; friendship_2 = friend; status = pending } ∷ [])
      ≡ true
joins_asked own friend [] = ground arith
joins_asked own friend (r ∷ t) = ground (arith, joins_asked own friend t)

-- A request for a user who is registered but away, which that user then accepts, where MySQL
-- prepares and executes both statements: both packets are handled to their end, and each user is
-- then in the other's list of friends, whatever rows the table had before.
pub request_then_accept :
    (E : Env) (c : ℕ) (arrivals : List Arrival) (friend own : ℕ) (w w' : World E.connector)
    → E.friend_ship_dao ≡ new_friend_ship_dao (some c)
    → (table : E.connector.Db → List FriendShipTableData) → IsFriendTable E.connector table
    → Granted E arrivals (ask friend own ∷ accept own friend ∷ []) w w'
    → (handle_all E arrivals w ≡ done w')
      × Mem own (friends friend (table w'.db))
      × Mem friend (friends own (table w'.db))
unfolding all_granted granted
request_then_accept E c arrivals friend own w w' dao table laws steps =
    let (handles, now, _, _) = all_granted-handle_all E c dao laws steps in
    let asked =
      table w.db ++ record { friendship_1 = own; friendship_2 = friend; status = pending } ∷ [] in
    let (m, m') = mem-friends-set_pair own friend asked (joins_asked own friend (table w.db)) in
    (handles, rw now m, rw now m')

-- Whatever users did before, after a last packet that deletes a friendship its two users are apart: neither is in
-- the other's list of friends or of applicants.
leave_is_last :
    (E : Env) (c : ℕ) (arrivals : List Arrival) (before : List Wish) (friend own : ℕ)
    (w w' : World E.connector)
    → E.friend_ship_dao ≡ new_friend_ship_dao (some c)
    → (table : E.connector.Db → List FriendShipTableData) → IsFriendTable E.connector table
    → Granted E arrivals (before ++ leave friend own ∷ []) w w'
    → (handle_all E arrivals w ≡ done w') × IsApart friend own (table w'.db)
leave_is_last E c arrivals before friend own w w' dao table laws steps =
    let (handles, now, _, _) = all_granted-handle_all E c dao laws steps in
    (
      handles,
      rw (now, all_granted-last before friend own (table w.db)) (without-IsApart friend own _),
    )
