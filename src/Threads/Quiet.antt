-- ===== src/Threads/Quiet.antt =====
-- Handlers that change nothing in the database, between any of their steps.
use app_server.Base.{
  ℕ, ◌≡◌, ◌≢◌, Bool, true, false, if◌then◌else◌, Option, none, some, List, [], ◌∷◌, Text, Bytes,
  ◌==◌, arith, or_fault, thrown, null,
}
use app_server.Packet.{TcpPacket, reply}
use app_server.Environment.{Env}
use app_server.Message.{Memory}
use app_server.UserConnectionManager.{SocketPtr}
use app_server.MysqlInteractor.{Connector, Dao, Bindings}
use app_server.MysqlInteractor.UsersDao.{UsersTableData}
use app_server.Threads
use app_server.Threads.{Program, returns, selects, adds, generates, prepares, queries, faults, lift}
use app_server.Threads.Updates.{IsQuiet, bind-IsQuiet, if-IsQuiet, elim-IsQuiet, lift-IsQuiet}
use app_server.Threads.Statements.{
  prepare_statement_steps, run_query_steps, select_info_due_user_name_steps,
  select_info_due_id_steps, get_all_user_public_info_steps, select_all_friend_ship_steps,
  select_all_friend_apply_steps,
}
use app_server.Threads.Handlers.{
  sends, handle_data_steps, handle_chat_message_steps, handle_login_message_steps,
  handle_verify_code_steps, inform_steps, log_in_steps, private_info_of_steps,
  public_infos_of_steps,
}

test-ne : (a b : ℕ) → a ≢ b → (a == b) ≡ false
test-ne a b h = ground arith

else-IsQuiet :
    {C : Connector} {A : Type 0} (b : Bool) (m n : Program C A)
    → b ≡ false
    → IsQuiet n
    → IsQuiet (if b then m else n)
else-IsQuiet true m n other second = cc
else-IsQuiet false m n other second = second

pub returns-IsQuiet : {A : Type 0} (C : Connector) (a : A) → IsQuiet {C = C} (returns a)
unfolding IsQuiet
returns-IsQuiet C a = tt

module _ (C : Connector) (dao : Dao) where
  pub prepare-IsQuiet : (query : Text) → IsQuiet (prepare_statement_steps C dao query)
  unfolding prepare_statement_steps IsQuiet
  prepare-IsQuiet query =
      elim dao.connection
        as (λ o. IsQuiet (elim o as (λ _. Program C Bool) [
          | none ↦ faults null
          | some c ↦ prepares query returns
        ])) [ none ↦ tt | some c ↦ λ b. tt ]

  queries-IsQuiet : (query : Text) (bs : Bindings) → IsQuiet {C = C} (queries query bs returns)
  unfolding IsQuiet
  queries-IsQuiet query bs r = tt

  run_query-IsQuiet : (query : Text) (bs : Bindings) → IsQuiet (run_query_steps C dao query bs)
  unfolding run_query_steps
  run_query-IsQuiet query bs =
      bind-IsQuiet _ _ (prepare-IsQuiet query)
        (λ b. if-IsQuiet b _ _ (queries-IsQuiet query bs) (returns-IsQuiet C none))

  converted-IsQuiet :
      {A : Type 0} (query : Text) (bs : Bindings) (g : Option (List C.Row) → A)
      → IsQuiet (Threads.◌>>=◌ (run_query_steps C dao query bs) (λ r. returns (g r)))
  converted-IsQuiet query bs g =
      bind-IsQuiet _ _ (run_query-IsQuiet query bs) (λ r. returns-IsQuiet C (g r))

  select_name-IsQuiet :
      (memory : Memory) (name : Text) → IsQuiet (select_info_due_user_name_steps C memory dao name)
  unfolding select_info_due_user_name_steps
  select_name-IsQuiet memory name = converted-IsQuiet _ _ _

  pub select_id-IsQuiet :
      (memory : Memory) (id : ℕ) → IsQuiet (select_info_due_id_steps C memory dao id)
  unfolding select_info_due_id_steps
  select_id-IsQuiet memory id = converted-IsQuiet _ _ _

  all_users-IsQuiet : IsQuiet (get_all_user_public_info_steps C dao)
  unfolding get_all_user_public_info_steps
  all_users-IsQuiet = converted-IsQuiet _ _ _

  friends-IsQuiet : (id : ℕ) → IsQuiet (select_all_friend_ship_steps C dao id)
  unfolding select_all_friend_ship_steps
  friends-IsQuiet id = converted-IsQuiet _ _ _

  applications-IsQuiet : (id : ℕ) → IsQuiet (select_all_friend_apply_steps C dao id)
  unfolding select_all_friend_apply_steps
  applications-IsQuiet id = converted-IsQuiet _ _ _

module _ {C : Connector} {B : Type 0} where
  pub selects-IsQuiet :
      (uid : ℕ) (f : SocketPtr → Program C B)
      → ((r : SocketPtr) → IsQuiet (f r))
      → IsQuiet (Threads.◌>>=◌ (selects uid returns) f)
  unfolding IsQuiet Threads.◌>>=◌
  selects-IsQuiet uid f h = h

  generates-IsQuiet :
      (f : ℕ → Program C B)
      → ((n : ℕ) → IsQuiet (f n))
      → IsQuiet (Threads.◌>>=◌ (generates returns) f)
  unfolding IsQuiet Threads.◌>>=◌
  generates-IsQuiet f h = h

  adds-IsQuiet :
      (place uid : ℕ) (c : SocketPtr) (f : Unit {0} → Program C B)
      → IsQuiet (f tt)
      → IsQuiet (Threads.◌>>=◌ (adds place uid c (returns tt)) f)
  unfolding IsQuiet Threads.◌>>=◌
  adds-IsQuiet place uid c f h = h

module _ (E : Env) where
  sends-IsQuiet : (c : ℕ) (bytes : Bytes) → IsQuiet (sends E c bytes)
  unfolding IsQuiet
  sends-IsQuiet c bytes = tt

  answers-IsQuiet :
      (f c : ℕ) (j : E.json.Json)
      → IsQuiet (
          Threads.◌>>=◌
            (lift {C = E.connector} (or_fault thrown (E.json.dump j)))
            (λ body. Threads.◌>>=◌ (lift (reply E.memory.array f body)) (sends E c)))
  answers-IsQuiet f c j =
      bind-IsQuiet _ _ (lift-IsQuiet E.connector _)
        (λ body. bind-IsQuiet _ _ (lift-IsQuiet E.connector _) (sends-IsQuiet c))

  public_infos-IsQuiet : (ids : List ℕ) → IsQuiet (public_infos_of_steps E ids)
  unfolding public_infos_of_steps
  public_infos-IsQuiet [] = returns-IsQuiet E.connector []
  public_infos-IsQuiet (id ∷ ids) =
      bind-IsQuiet _ _ (select_id-IsQuiet E.connector E.users_dao E.memory id)
        (λ user. bind-IsQuiet _ _ (public_infos-IsQuiet ids) (λ l. returns-IsQuiet E.connector _))

  private_info-IsQuiet : (user : UsersTableData) → IsQuiet (private_info_of_steps E user)
  unfolding private_info_of_steps
  private_info-IsQuiet user =
      bind-IsQuiet _ _ (friends-IsQuiet E.connector E.friend_ship_dao user.id) (λ friends.
        bind-IsQuiet _ _ (public_infos-IsQuiet friends) (λ friend_list.
          bind-IsQuiet _ _ (applications-IsQuiet E.connector E.friend_ship_dao user.id)
            (λ applications.
              bind-IsQuiet _ _ (public_infos-IsQuiet applications)
                (λ l. returns-IsQuiet E.connector _))))

  log_in-IsQuiet : (user : UsersTableData) (c : ℕ) → IsQuiet (log_in_steps E user c)
  unfolding log_in_steps
  log_in-IsQuiet user c = bind-IsQuiet _ _ (private_info-IsQuiet user) (λ private_info.
      bind-IsQuiet _ _ (all_users-IsQuiet E.connector E.users_dao) (λ cache.
        bind-IsQuiet _ _ (lift-IsQuiet E.connector _) (λ body.
          bind-IsQuiet _ _ (lift-IsQuiet E.connector _) (λ body_cache.
            bind-IsQuiet _ _ (lift-IsQuiet E.connector _) (λ res.
              bind-IsQuiet _ _ (lift-IsQuiet E.connector _) (λ packet_cache. adds-IsQuiet _ _ _ _ (
                bind-IsQuiet _ _ (lift-IsQuiet E.connector _) (λ bytes.
                  bind-IsQuiet _ _ (sends-IsQuiet c bytes) (λ sent.
                    bind-IsQuiet _ _ (lift-IsQuiet E.connector _) (sends-IsQuiet c))))))))))

  pub inform-IsQuiet : (own friend : ℕ) → IsQuiet (inform_steps E own friend)
  unfolding inform_steps
  inform-IsQuiet own friend =
      bind-IsQuiet _ _ (select_id-IsQuiet E.connector E.users_dao E.memory own)
        (λ user. answers-IsQuiet 0xc friend _)

  module _ (p : TcpPacket) (c : ℕ) where
    chat-IsQuiet : IsQuiet (handle_chat_message_steps E p c)
    unfolding handle_chat_message_steps
    chat-IsQuiet = bind-IsQuiet _ _ (lift-IsQuiet E.connector _) (λ source.
        selects-IsQuiet _ _ (λ found.
          elim-IsQuiet found _ _ (bind-IsQuiet _ _ (lift-IsQuiet E.connector _) (sends-IsQuiet c))
            (λ receiver. answers-IsQuiet 0x01 receiver _)))

    verify-IsQuiet : IsQuiet (handle_verify_code_steps E p c)
    unfolding handle_verify_code_steps
    verify-IsQuiet = bind-IsQuiet _ _ (lift-IsQuiet E.connector _) (λ source.
        generates-IsQuiet _ (λ n. if-IsQuiet _ _ _ (answers-IsQuiet 0x07 c _) (sends-IsQuiet c _)))

    login-IsQuiet : IsQuiet (handle_login_message_steps E p c)
    unfolding handle_login_message_steps
    login-IsQuiet = bind-IsQuiet _ _ (lift-IsQuiet E.connector _) (λ source.
        bind-IsQuiet _ _ (select_name-IsQuiet E.connector E.users_dao E.memory _)
          (λ user. if-IsQuiet _ _ _ (log_in-IsQuiet user c) (returns-IsQuiet E.connector tt)))

    -- A packet that is neither a registration nor about a friendship.
    pub handle_data_steps-IsQuiet :
        p.func_id ≢ 0x04
        → p.func_id ≢ 0x08
        → p.func_id ≢ 0xa
        → p.func_id ≢ 0x0b
        → IsQuiet (handle_data_steps E p c)
    unfolding handle_data_steps
    handle_data_steps-IsQuiet r s t u = if-IsQuiet _ _ _ chat-IsQuiet (
        if-IsQuiet _ _ _ login-IsQuiet (
          else-IsQuiet _ _ _ (test-ne p.func_id 0x04 r) (
            if-IsQuiet _ _ _ verify-IsQuiet (
              else-IsQuiet _ _ _ (test-ne p.func_id 0x08 s) (
                else-IsQuiet _ _ _ (test-ne p.func_id 0xa t) (
                  else-IsQuiet _ _ _ (test-ne p.func_id 0x0b u)
                    (returns-IsQuiet E.connector tt)))))))
