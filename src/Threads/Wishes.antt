-- ===== src/Threads/Wishes.antt =====
-- Handlers of packets about friendships: the one statement that each may execute.
use app_server.Base.{
  ℕ, ◌<◌, ◌^◌, ◌≡◌, ◌∙◌, refl, sym, Bool, true, false, some, List, [], ◌∷◌, Text, done, or_fault,
  null, if◌then◌else◌,
}
use app_server.Packet.{TcpPacket}
use app_server.Decimal.{to_string, stoull-to_string}
use app_server.Message.{message_code}
use app_server.Message.AddFriendRequest
use app_server.Message.FriendConfirm
use app_server.Message.DeleteFriend
use app_server.MysqlConnectPool.{ConnectionPtr}
use app_server.MysqlInteractor.{Connector, Dao, Bindings, string, uint64, new_friend_ship_dao}
use app_server.UserConnectionManager.{SocketPtr}
use app_server.MysqlInteractor.FriendShipDao
use app_server.MysqlInteractor.FriendShipDao.{FriendShipTableData}
use app_server.MysqlInteractor.Statements.{friendship_insert, friendship_update, friendship_delete}
use app_server.MysqlInteractor.Friendships.{IsFriendTable, accepted, pending}
use app_server.MysqlInteractor.Friendships.Apart.{without}
use app_server.DataHandle.{Env}
use app_server.DataHandle.Incoming.{Carries}
use app_server.DataHandle.Friends.{request_row, cast-request}
use app_server.DataHandle.Friendships.{cast-confirm, cast-delete}
use app_server.DataHandle.Conversation.Friending.{
  Wish, ask, accept, refuse, leave, granted, Says, asks, accepts, refuses, leaves,
}
use app_server.Threads
use app_server.Threads.{Program, returns, selects, updates, lift}
use app_server.Threads.Updates.{
  IsQuiet, UpdatesOnce, bind-IsQuiet, if-IsQuiet, lift-IsQuiet, bind-UpdatesOnce,
  bind-UpdatesOnce_after,
}
use app_server.Threads.Quiet.{returns-IsQuiet, prepare-IsQuiet, selects-IsQuiet, inform-IsQuiet}
use app_server.Threads.Statements.{
  run_update_steps, insert_steps, change_friend_ship_status_steps, remove_friendship_steps,
}
use app_server.Threads.Handlers.{
  handle_data_steps, inform_steps, handle_add_friend_req_steps, handle_delete_friend_steps,
  handle_friend_confirm_steps,
}

-- Executing the statement grants the wish.
abbrev pub Means :
    (C : Connector) → (C.Db → List FriendShipTableData) → Wish → Text → Bindings → Type 0
Means C table h query bs =
    (db db' : C.Db) → C.execute_update db query bs ≡ some db' → table db' ≡ granted h (table db)

module _ (C : Connector) (P : Text → Bindings → Type 0) (query : Text) (bs : Bindings)
    (h : P query bs) where
  execute-UpdatesOnce :
      (prepared : Bool)
      → UpdatesOnce {C = C} P (
          if prepared
          then Threads.◌>>=◌ (lift (done bs)) (λ bs. updates query bs returns)
          else returns false)
  unfolding lift UpdatesOnce IsQuiet Threads.◌>>=◌
  execute-UpdatesOnce true = (h, λ b. tt)
  execute-UpdatesOnce false = tt

  run_update-UpdatesOnce : (dao : Dao) → UpdatesOnce P (run_update_steps C dao query (done bs))
  unfolding run_update_steps
  run_update-UpdatesOnce dao =
      bind-UpdatesOnce_after P _ _ (prepare-IsQuiet C dao query) execute-UpdatesOnce

module _ (E : Env) (p : TcpPacket) (client : ℕ) where
  accepts_steps :
      (i : FriendConfirm.Info)
      → Carries E.json (FriendConfirm.info_from_json E.json) p i
      → i.success ≡ true
      → handle_friend_confirm_steps E p client
        ≡ Threads.◌>>=◌
            (change_friend_ship_status_steps E.connector E.friend_ship_dao i.friend_id i.own_id
              accepted)
            (λ success. returns tt)
  unfolding handle_friend_confirm_steps lift Threads.◌>>=◌
  accepts_steps i h agreed = rw (h.reads, cast-confirm E p i h, agreed)

  refuses_steps :
      (i : FriendConfirm.Info)
      → Carries E.json (FriendConfirm.info_from_json E.json) p i
      → i.success ≡ false
      → handle_friend_confirm_steps E p client
        ≡ Threads.◌>>=◌
            (remove_friendship_steps E.connector E.friend_ship_dao i.friend_id i.own_id)
            (λ success. returns tt)
  unfolding handle_friend_confirm_steps lift Threads.◌>>=◌
  refuses_steps i h refused = rw (h.reads, cast-confirm E p i h, refused)

  leaves_steps :
      (i : DeleteFriend.Info)
      → Carries E.json (DeleteFriend.info_from_json E.json) p i
      → handle_delete_friend_steps E p client
        ≡ Threads.◌>>=◌
            (remove_friendship_steps E.connector E.friend_ship_dao i.friend_id i.own_id)
            (λ success. returns tt)
  unfolding handle_delete_friend_steps lift Threads.◌>>=◌
  leaves_steps i h = rw (h.reads, cast-delete E p i h)

  -- What a request does after its insertion.
  asks_rest : AddFriendRequest.Info → SocketPtr → Program E.connector (Unit {0})
  asks_rest i found =
      Threads.◌>>=◌ (lift (or_fault null found))
        (λ friend. if E.connected friend then inform_steps E i.own_id friend else returns tt)

  asks_steps :
      (i : AddFriendRequest.Info)
      → Carries E.json (AddFriendRequest.info_from_json E.json) p i
      → handle_add_friend_req_steps E p client
        ≡ Threads.◌>>=◌
            (insert_steps E.connector E.friend_ship_dao
              (FriendShipDao.map_record_to_colums (request_row E p i)))
            (λ success. Threads.◌>>=◌ (selects i.friend_id returns) (asks_rest i))
  unfolding handle_add_friend_req_steps lift Threads.◌>>=◌ asks_rest
  asks_steps i h = rw (h.reads, cast-request E p i h)

  asks_rest-IsQuiet : (i : AddFriendRequest.Info) (found : SocketPtr) → IsQuiet (asks_rest i found)
  unfolding asks_rest
  asks_rest-IsQuiet i found = bind-IsQuiet _ _ (lift-IsQuiet E.connector _) (λ friend.
      if-IsQuiet _ _ _ (inform-IsQuiet E i.own_id friend) (returns-IsQuiet E.connector tt))

-- Which handler runs.
module _ (E : Env) (p : TcpPacket) (client : ℕ) where
  request_steps :
      p.func_id ≡ 0x08 → handle_data_steps E p client ≡ handle_add_friend_req_steps E p client
  unfolding handle_data_steps
  request_steps f = rw f

  deletion_steps :
      p.func_id ≡ 0xa → handle_data_steps E p client ≡ handle_delete_friend_steps E p client
  unfolding handle_data_steps
  deletion_steps f = rw f

  confirmation_steps :
      p.func_id ≡ 0x0b → handle_data_steps E p client ≡ handle_friend_confirm_steps E p client
  unfolding handle_data_steps
  confirmation_steps f = rw f

module _ (E : Env) (c : ConnectionPtr) (dao : E.friend_ship_dao ≡ new_friend_ship_dao c)
    {table : E.connector.Db → List FriendShipTableData}
    (laws : IsFriendTable E.connector table) where
  remove-UpdatesOnce :
      (h : Wish) (a b : ℕ)
      → a < 2 ^ 64
      → b < 2 ^ 64
      → ((t : List FriendShipTableData) → granted h t ≡ without a b t)
      → UpdatesOnce (Means E.connector table h) (
          Threads.◌>>=◌
            (remove_friendship_steps E.connector E.friend_ship_dao a b)
            (λ success. returns tt))
  unfolding remove_friendship_steps new_friend_ship_dao
  remove-UpdatesOnce h a b ha hb means = rw dao (
      bind-UpdatesOnce _ _ _
        (run_update-UpdatesOnce E.connector _ (friendship_delete a b) []
          (λ db db' e.
            laws.deleted db db' (a, b) (b, a) (ha, hb) (hb, ha) e ∙ sym (means (table db)))
          (new_friend_ship_dao c))
        (λ success. returns-IsQuiet E.connector tt))

  change-UpdatesOnce :
      (a b : ℕ)
      → a < 2 ^ 64
      → b < 2 ^ 64
      → UpdatesOnce (Means E.connector table (accept a b)) (
          Threads.◌>>=◌
            (change_friend_ship_status_steps E.connector E.friend_ship_dao a b accepted)
            (λ success. returns tt))
  unfolding change_friend_ship_status_steps new_friend_ship_dao granted
  change-UpdatesOnce a b ha hb = rw dao (
      bind-UpdatesOnce _ _ _
        (run_update-UpdatesOnce E.connector _ (friendship_update a b)
          ((1, string accepted) ∷ (2, string (to_string a)) ∷ (3, string (to_string b)) ∷ [])
          (λ db db' e. laws.updated db db' (a, b) (b, a) a b accepted (ha, hb) (hb, ha) (ha, hb) e)
          (new_friend_ship_dao c))
        (λ success. returns-IsQuiet E.connector tt))

  insert-UpdatesOnce :
      (a b : ℕ) (k : Bool → Program E.connector (Unit {0}))
      → a < 2 ^ 64
      → b < 2 ^ 64
      → ((success : Bool) → IsQuiet (k success))
      → UpdatesOnce (Means E.connector table (ask a b)) (
          Threads.◌>>=◌
            (insert_steps E.connector E.friend_ship_dao (
              FriendShipDao.map_record_to_colums
                (record { friendship_1 = b; friendship_2 = a; status = pending })))
            k)
  unfolding insert_steps FriendShipDao.map_record_to_colums new_friend_ship_dao granted
  insert-UpdatesOnce a b k ha hb rest =
      rw (dao, stoull-to_string a ha, stoull-to_string b hb)
        (bind-UpdatesOnce _ _ _
          (run_update-UpdatesOnce E.connector _ friendship_insert
            ((1, string pending) ∷ (2, uint64 b) ∷ (3, uint64 a) ∷ [])
            (λ db db' e. laws.inserted db db' _ e) (new_friend_ship_dao c))
          rest)

  -- The handler of a packet that says a wish executes at most one statement, and that one grants it.
  pub wish-UpdatesOnce :
      (p : TcpPacket) (client : ℕ) (h : Wish)
      → Says E p h
      → UpdatesOnce (Means E.connector table h) (handle_data_steps E p client)
  unfolding granted message_code asks_rest
  wish-UpdatesOnce p client _ (asks i f says fits) =
      rw (request_steps E p client f, asks_steps E p client i says)
        (insert-UpdatesOnce i.friend_id i.own_id _ fits.friend_id fits.own_id
          (λ success. selects-IsQuiet _ _ (asks_rest-IsQuiet E p client i)))
  wish-UpdatesOnce p client _ (accepts i f says fits agreed) =
      rw (confirmation_steps E p client f, accepts_steps E p client i says agreed)
        (change-UpdatesOnce i.friend_id i.own_id fits.friend_id fits.own_id)
  wish-UpdatesOnce p client _ (refuses i f says fits refused) =
      rw (confirmation_steps E p client f, refuses_steps E p client i says refused)
        (remove-UpdatesOnce (refuse i.friend_id i.own_id) i.friend_id i.own_id fits.friend_id
          fits.own_id (λ t. refl))
  wish-UpdatesOnce p client _ (leaves i f says fits) =
      rw (deletion_steps E p client f, leaves_steps E p client i says)
        (remove-UpdatesOnce (leave i.friend_id i.own_id) i.friend_id i.own_id fits.friend_id
          fits.own_id (λ t. refl))
