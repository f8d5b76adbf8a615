-- ===== src/DataHandle/Nulls.antt =====
-- Which packets make a handler of src/MyTcpServer/src/DataHandle.cpp dereference a null pointer.
use app_server.Base.{
  ℕ, zero, suc, ◌≡◌, ◌∙◌, sym, none, some, List, [], ◌∷◌, Bytes, Text, done, fault, null, thrown,
  or_fault, ◌>>=◌, arith, false, inl, inr, Option-cases, Bool-cases, ◌==◌, IsNullFree,
  bind-IsNullFree, bind_null, done-IsNullFree, elim-IsNullFree, if-IsNullFree, else-IsNullFree,
}
use app_server.Packet.{TcpPacket, c_string, serialize, answer, reply, new_packet}
use app_server.Message.{message_code, add_friend_request}
use app_server.Message.AddFriendRequest
use app_server.UserConnectionManager.{select_user}
use app_server.MysqlInteractor.UsersDao.{UsersTableData}
use app_server.MysqlInteractor.Connected.{
  insert-IsNullFree, remove-IsNullFree, change-IsNullFree, select_name-IsNullFree,
  select_id-IsNullFree, all_users-IsNullFree, friends-IsNullFree, applications-IsNullFree,
}
use app_server.DataHandle.Dispatch.{handler, handle_data-message_code}
use app_server.DataHandle.{
  Env, World, handle_data, handle_chat_message, handle_login_message, handle_reg_message,
  respond_reg, handle_verify_code, handle_add_friend_req, inform, handle_delete_friend,
  handle_friend_confirm, log_in, private_info_of, public_infos_of,
}

c_string-IsNullFree : (bs : Bytes) → IsNullFree (c_string bs)
unfolding c_string
c_string-IsNullFree [] h = cc
c_string-IsNullFree (zero ∷ bs) h = cc
c_string-IsNullFree (suc n ∷ bs) h = let rest = c_string-IsNullFree bs in ground arith

serialize-IsNullFree : (p : TcpPacket) → IsNullFree (serialize p)
unfolding serialize
serialize-IsNullFree p h = ground arith

answer-IsNullFree : (memory : Bytes) (f : ℕ) (body : Text) → IsNullFree (answer memory f body)
unfolding answer new_packet
answer-IsNullFree memory f body h = ground arith

reply-IsNullFree : (memory : Bytes) (f : ℕ) (body : Text) → IsNullFree (reply memory f body)
unfolding reply
reply-IsNullFree memory f body h =
    bind-IsNullFree (answer memory f body) serialize (answer-IsNullFree memory f body)
      serialize-IsNullFree h

-- The user whom a text asks for.
abbrev pub asked_user : Env → Text → ℕ
asked_user E source = AddFriendRequest.get_friend_id (
    AddFriendRequest.cast_from_string E.json source
      (AddFriendRequest.new_message (E.stamp 0) [] 0 [] 0))

-- The packet has this text, and it asks for a user without a registered socket.
abbrev pub AsksUnregistered : (E : Env) → TcpPacket → World E.connector → Text → Type 0
AsksUnregistered E p w source =
    (c_string p.body ≡ done source) × (select_user (asked_user E source) w.manager ≡ none)

module _ (E : Env) (a b : ℕ) (users : E.users_dao.connection ≡ some a)
    (friendships : E.friend_ship_dao.connection ≡ some b) where
  dumped-IsNullFree : (j : E.json.Json) → IsNullFree (or_fault thrown (E.json.dump j))
  dumped-IsNullFree j h = elim (Option-cases (E.json.dump j)) [
    | inl n ↦ ground arith
    | inr (t, s) ↦ ground arith
  ]

  answers-IsNullFree :
      (j : E.json.Json) (f : ℕ) (k : Bytes → World E.connector)
      → IsNullFree (
          or_fault thrown (E.json.dump j) >>= λ body.
          reply E.memory.array f body >>= λ bytes. done (k bytes))
  answers-IsNullFree j f k = bind-IsNullFree _ _ (dumped-IsNullFree j) (λ body.
      bind-IsNullFree _ _ (reply-IsNullFree E.memory.array f body) (λ bytes. done-IsNullFree _))

  public_infos-IsNullFree :
      (ids : List ℕ) (db : E.connector.Db) → IsNullFree (public_infos_of E ids db)
  unfolding public_infos_of
  public_infos-IsNullFree [] db = done-IsNullFree []
  public_infos-IsNullFree (id ∷ ids) db =
      bind-IsNullFree _ _ (select_id-IsNullFree E.connector E.users_dao a users E.memory id db)
        (λ user. bind-IsNullFree _ _ (public_infos-IsNullFree ids db) (λ rest. done-IsNullFree _))

  private_info-IsNullFree :
      (user : UsersTableData) (db : E.connector.Db) → IsNullFree (private_info_of E user db)
  unfolding private_info_of
  private_info-IsNullFree user db =
      bind-IsNullFree _ _
        (friends-IsNullFree E.connector E.friend_ship_dao b friendships user.id db)
        (λ friends. bind-IsNullFree _ _ (public_infos-IsNullFree friends db) (λ list.
          bind-IsNullFree _ _
            (applications-IsNullFree E.connector E.friend_ship_dao b friendships user.id db)
            (λ applications.
              bind-IsNullFree _ _ (public_infos-IsNullFree applications db)
                (λ l. done-IsNullFree _))))

  log_in-IsNullFree :
      (user : UsersTableData) (c : ℕ) (w : World E.connector) → IsNullFree (log_in E user c w)
  unfolding log_in
  log_in-IsNullFree user c w =
      bind-IsNullFree _ _ (private_info-IsNullFree user w.db) (λ private_info.
        bind-IsNullFree _ _ (all_users-IsNullFree E.connector E.users_dao a users w.db) (λ cache.
          bind-IsNullFree _ _ (dumped-IsNullFree _) (λ body.
            bind-IsNullFree _ _ (dumped-IsNullFree _) (λ body_cache.
              bind-IsNullFree _ _ (answer-IsNullFree _ _ body) (λ res.
                bind-IsNullFree _ _ (answer-IsNullFree _ _ body_cache) (λ packet_cache.
                  bind-IsNullFree _ _ (serialize-IsNullFree res) (λ bytes.
                    bind-IsNullFree _ _ (serialize-IsNullFree packet_cache)
                      (λ l. done-IsNullFree _))))))))

  inform-IsNullFree : (own friend : ℕ) (w : World E.connector) → IsNullFree (inform E own friend w)
  unfolding inform
  inform-IsNullFree own friend w =
      bind-IsNullFree _ _ (select_id-IsNullFree E.connector E.users_dao a users E.memory own w.db)
        (λ user. answers-IsNullFree _ 0xc _)

  module _ (p : TcpPacket) (c : ℕ) (w : World E.connector) where
    chat-IsNullFree : IsNullFree (handle_chat_message E p c w)
    unfolding handle_chat_message
    chat-IsNullFree = bind-IsNullFree _ _ (c_string-IsNullFree p.body) (λ source.
        elim-IsNullFree (select_user _ w.manager) _ _
          (bind-IsNullFree _ _ (serialize-IsNullFree p) (λ bytes. done-IsNullFree _))
          (λ receiver. answers-IsNullFree _ 0x01 _))

    login-IsNullFree : IsNullFree (handle_login_message E p c w)
    unfolding handle_login_message
    login-IsNullFree = bind-IsNullFree _ _ (c_string-IsNullFree p.body) (λ source.
        bind-IsNullFree _ _ (select_name-IsNullFree E.connector E.users_dao a users E.memory _ w.db)
          (λ user h. let inside = log_in-IsNullFree user c w in ground arith))

    reg-IsNullFree : IsNullFree (handle_reg_message E p c w)
    unfolding handle_reg_message respond_reg
    reg-IsNullFree = bind-IsNullFree _ _ (c_string-IsNullFree p.body) (λ source.
        bind-IsNullFree _ _ (insert-IsNullFree E.connector E.users_dao a users _ w.db)
          (λ r. if-IsNullFree r.0 _ _ (answers-IsNullFree _ 0x05 _) (answers-IsNullFree _ 0x05 _)))

    verify-IsNullFree : IsNullFree (handle_verify_code E p c w)
    unfolding handle_verify_code
    verify-IsNullFree =
        bind-IsNullFree _ _ (c_string-IsNullFree p.body)
          (λ source. if-IsNullFree _ _ _ (answers-IsNullFree _ 0x07 _) (done-IsNullFree _))

    delete-IsNullFree : IsNullFree (handle_delete_friend E p c w)
    unfolding handle_delete_friend
    delete-IsNullFree = bind-IsNullFree _ _ (c_string-IsNullFree p.body) (λ source.
        bind-IsNullFree _ _ (remove-IsNullFree E.connector E.friend_ship_dao b friendships _ _ w.db)
          (λ r. done-IsNullFree _))

    confirm-IsNullFree : IsNullFree (handle_friend_confirm E p c w)
    unfolding handle_friend_confirm
    confirm-IsNullFree = bind-IsNullFree _ _ (c_string-IsNullFree p.body) (λ source.
        if-IsNullFree _ _ _
          (bind-IsNullFree _ _
            (change-IsNullFree E.connector E.friend_ship_dao b friendships _ _ _ w.db)
            (λ r. done-IsNullFree _))
          (bind-IsNullFree _ _
            (remove-IsNullFree E.connector E.friend_ship_dao b friendships _ _ w.db)
            (λ r. done-IsNullFree _)))

    request_null :
        handle_add_friend_req E p c w ≡ fault null → (source : Text) × AsksUnregistered E p w source
    unfolding handle_add_friend_req
    request_null h =
        let (source, read, h₁) = bind_null (c_string p.body) _ (c_string-IsNullFree p.body) h in
        let inserted = insert-IsNullFree E.connector E.friend_ship_dao b friendships _ w.db in
        let (r, _, h₂) = bind_null _ _ inserted h₁ in
        elim (Option-cases (select_user (asked_user E source) w.manager)) [
          | inl free ↦ (source, (read, free))
          | inr (friend, found) ↦
              let known : IsNullFree (or_fault null (select_user (asked_user E source) w.manager)) =
                rw found (done-IsNullFree friend) in
              absurd (
                bind-IsNullFree _ _ known
                  (λ f. if-IsNullFree _ _ _ (inform-IsNullFree _ f _) (done-IsNullFree _)) h₂)
        ]

  handle_data-IsNullFree :
      (p : TcpPacket) (c : ℕ) (w : World E.connector)
      → (p.func_id == 0x08) ≡ false
      → IsNullFree (handle_data E p c w)
  unfolding handle_data
  handle_data-IsNullFree p c w other = if-IsNullFree _ _ _ (chat-IsNullFree p c w) (
      if-IsNullFree _ _ _ (login-IsNullFree p c w) (
        if-IsNullFree _ _ _ (reg-IsNullFree p c w) (
          if-IsNullFree _ _ _ (verify-IsNullFree p c w) (
            else-IsNullFree _ _ _ other (
              if-IsNullFree _ _ _ (delete-IsNullFree p c w)
                (if-IsNullFree _ _ _ (confirm-IsNullFree p c w) (done-IsNullFree w)))))))

  -- A packet whose handling dereferences a null pointer, where both data access objects have a
  -- connection, is a friend request, and the user that its text asks for has no registered socket.
  pub handle_data_null :
      (p : TcpPacket) (c : ℕ) (w : World E.connector)
      → handle_data E p c w ≡ fault null
      → (p.func_id ≡ message_code add_friend_request)
        × ((source : Text) × AsksUnregistered E p w source)
  unfolding message_code handler
  handle_data_null p c w h = elim (Bool-cases (p.func_id == 0x08)) [
    | inl same ↦
        let code : p.func_id ≡ 0x08 = ground arith in
        (
          code,
          request_null p c w (sym (handle_data-message_code E add_friend_request p c w code) ∙ h),
        )
    | inr other ↦ absurd (handle_data-IsNullFree p c w other h)
  ]
