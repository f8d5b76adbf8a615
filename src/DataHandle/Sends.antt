-- ===== src/DataHandle/Sends.antt =====
-- What the handlers schedule, by the socket that it reads.
use app_server.Base.{
  ℕ, ◌+◌, ◌≡◌, Bool, false, some, List, [], ◌∷◌, ◌++◌, Bytes, done, arith, ◌==◌, if◌then◌else◌,
}
use app_server.Packet.{TcpPacket}
use app_server.UserConnectionManager.{SocketPtr}
use app_server.DataHandle.{
  Env, World, Task, send, watch_read, handle_data, handle_chat_message, handle_login_message,
  handle_reg_message, respond_reg, handle_verify_code, handle_add_friend_req, inform,
  handle_delete_friend, handle_friend_confirm, log_in,
}

-- How many elements pass a test.
unfoldable pub count_if {ℓ} : {A : Type ℓ} → (A → Bool) → List A → ℕ
count_if p [] = 0
count_if p (x ∷ xs) = (if p x then 1 else 0) + count_if p xs

pub count_if-append {ℓ} :
    {A : Type ℓ} (p : A → Bool) (xs ys : List A)
    → count_if p (xs ++ ys) ≡ count_if p xs + count_if p ys
unfolding count_if
count_if-append p [] ys = omega arith
count_if-append p (x ∷ xs) ys = omega (arith, count_if-append p xs ys)

pub count_if-middle {ℓ} :
    {A : Type ℓ} (p : A → Bool) (x : A) (xs ys : List A)
    → count_if p (xs ++ x ∷ ys) ≡ (if p x then 1 else 0) + count_if p (xs ++ ys)
unfolding count_if
count_if-middle p x xs ys = omega (arith, count_if-append p xs (x ∷ ys), count_if-append p xs ys)

pub count_if-last {ℓ} :
    {A : Type ℓ} (p : A → Bool) (x : A) (xs : List A)
    → count_if p (xs ++ x ∷ []) ≡ count_if p xs + (if p x then 1 else 0)
unfolding count_if
count_if-last p x xs = omega (arith, count_if-append p xs (x ∷ []))

-- The task is to watch this socket for reading.
abbrev pub is_reader : ℕ → Task → Bool
is_reader c (watch_read (some d)) = c == d
is_reader c _ = false

module _ (d : ℕ) where
  count-send :
      (p : SocketPtr) (b : Bytes) (ts : List Task)
      → count_if (is_reader d) (ts ++ send p b ∷ []) ≡ count_if (is_reader d) ts
  unfolding count_if
  count-send p b ts = omega (arith, count_if-append (is_reader d) ts (send p b ∷ []))

module _ (E : Env) (p : TcpPacket) (c d : ℕ) (w w' : World E.connector) where
  chat_readers :
      handle_chat_message E p c w ≡ done w'
      → count_if (is_reader d) w'.scheduled ≡ count_if (is_reader d) w.scheduled
  unfolding handle_chat_message
  chat_readers h = grind (arith, count-send d)

  verify_readers :
      handle_verify_code E p c w ≡ done w'
      → count_if (is_reader d) w'.scheduled ≡ count_if (is_reader d) w.scheduled
  unfolding handle_verify_code
  verify_readers h = grind (arith, count-send d)

  add_friend_readers :
      handle_add_friend_req E p c w ≡ done w'
      → count_if (is_reader d) w'.scheduled ≡ count_if (is_reader d) w.scheduled
  unfolding handle_add_friend_req inform
  add_friend_readers h = grind (arith, count-send d)

  reg_readers :
      handle_reg_message E p c w ≡ done w'
      → count_if (is_reader d) w'.scheduled ≡ count_if (is_reader d) w.scheduled
  unfolding handle_reg_message respond_reg
  reg_readers h = grind (arith, count-send d)

  delete_readers :
      handle_delete_friend E p c w ≡ done w'
      → count_if (is_reader d) w'.scheduled ≡ count_if (is_reader d) w.scheduled
  unfolding handle_delete_friend
  delete_readers h = ground arith

  confirm_readers :
      handle_friend_confirm E p c w ≡ done w'
      → count_if (is_reader d) w'.scheduled ≡ count_if (is_reader d) w.scheduled
  unfolding handle_friend_confirm
  confirm_readers h = ground arith

  login_readers :
      handle_login_message E p c w ≡ done w'
      → count_if (is_reader d) w'.scheduled ≡ count_if (is_reader d) w.scheduled
  unfolding handle_login_message log_in
  login_readers h = grind (arith, count-send d)

  -- No packet makes its handler watch a socket.
  pub handle_data-readers :
      handle_data E p c w ≡ done w'
      → count_if (is_reader d) w'.scheduled ≡ count_if (is_reader d) w.scheduled
  unfolding handle_data
  handle_data-readers h = ground (
    arith, chat_readers, verify_readers, add_friend_readers, reg_readers, delete_readers,
    confirm_readers, login_readers,
  )
