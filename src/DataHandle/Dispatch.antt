-- ===== src/DataHandle/Dispatch.antt =====
-- Which handler runs for a packet.
use app_server.Base.{
  ℕ, ◌<◌, ◌≡◌, ◌≢◌, ◌∙◌, refl, Bool, true, false, Outcome, done, fault, overflow, All, arith,
}
use app_server.Packet.{TcpPacket, c_string}
use app_server.Packet.Replies.{c_string_unterminated}
use app_server.Message.{
  MessageType, chat, log_request, reg_request, send_verify_code, add_friend_request, delete_friend,
  friend_confirm, message_code,
}
use app_server.DataHandle.{
  Env, World, handle_data, handle_chat_message, handle_login_message, handle_reg_message,
  handle_verify_code, handle_add_friend_req, handle_delete_friend, handle_friend_confirm,
}

-- The types of messages that a client sends.
abbrev pub is_handled : MessageType → Bool
is_handled chat = true
is_handled log_request = true
is_handled reg_request = true
is_handled send_verify_code = true
is_handled add_friend_request = true
is_handled delete_friend = true
is_handled friend_confirm = true
is_handled _ = false

module _ (E : Env) where
  -- The handler that each type of message has; the types that the server sends have none.
  unfoldable pub handler :
      MessageType → TcpPacket → ℕ → World E.connector → Outcome (World E.connector)
  handler chat p c w = handle_chat_message E p c w
  handler log_request p c w = handle_login_message E p c w
  handler reg_request p c w = handle_reg_message E p c w
  handler send_verify_code p c w = handle_verify_code E p c w
  handler add_friend_request p c w = handle_add_friend_req E p c w
  handler delete_friend p c w = handle_delete_friend E p c w
  handler friend_confirm p c w = handle_friend_confirm E p c w
  handler _ p c w = done w

  handler_unterminated :
      (t : MessageType) (p : TcpPacket) (c : ℕ) (w : World E.connector)
      → is_handled t ≡ true
      → c_string p.body ≡ fault overflow
      → handler t p c w ≡ fault overflow
  unfolding handler handle_chat_message handle_login_message handle_reg_message handle_verify_code
      handle_add_friend_req handle_delete_friend handle_friend_confirm
  handler_unterminated chat p c w has e = rw e refl
  handler_unterminated log_request p c w has e = rw e refl
  handler_unterminated reg_request p c w has e = rw e refl
  handler_unterminated send_verify_code p c w has e = rw e refl
  handler_unterminated add_friend_request p c w has e = rw e refl
  handler_unterminated delete_friend p c w has e = rw e refl
  handler_unterminated friend_confirm p c w has e = rw e refl
  handler_unterminated _ p c w has e = cc

  -- A packet whose function number is the code of a type of message runs the handler of that type,
  -- and changes nothing where the type is one that only the server sends.
  pub handle_data-message_code :
      (t : MessageType) (p : TcpPacket) (c : ℕ) (w : World E.connector)
      → p.func_id ≡ message_code t
      → handle_data E p c w ≡ handler t p c w
  unfolding handle_data handler message_code
  handle_data-message_code chat p c w e = rw e
  handle_data-message_code _ p c w e = rw e

  -- A packet of a type that has a handler, whose array is full of bytes that are not NUL, makes the
  -- handler read past the array for the end of the string.
  handle_data_unterminated :
      (t : MessageType) (p : TcpPacket) (c : ℕ) (w : World E.connector)
      → is_handled t ≡ true
      → p.func_id ≡ message_code t
      → All (λ b. 0 < b) p.body
      → handle_data E p c w ≡ fault overflow
  handle_data_unterminated t p c w has f full =
      handle_data-message_code t p c w f
      ∙ handler_unterminated t p c w has (c_string_unterminated p.body full)

  -- A packet with a number of no message type changes nothing and sends nothing.
  handle_data_unknown :
      (p : TcpPacket) (c : ℕ) (w : World E.connector)
      → ((t : MessageType) → p.func_id ≢ message_code t)
      → handle_data E p c w ≡ done w
  unfolding handle_data message_code
  handle_data_unknown p c w h = ground (
    arith,
    h chat,
    h log_request,
    h reg_request,
    h send_verify_code,
    h add_friend_request,
    h delete_friend,
    h friend_confirm,
  )
