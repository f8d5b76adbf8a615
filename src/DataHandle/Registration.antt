-- ===== src/DataHandle/Registration.antt =====
-- Verification codes and registration.
use app_server.Base.{
  ℕ, suc, [], ◌≡◌, ◌<◌, some, Bool, true, false, done, Bytes, Text, literal, length, arith, ◌∙◌,
}
use app_server.Packet.{TcpPacket, ByteArray, IsByteArray, body_capacity, reply}
use app_server.Json.{IsJsonLibrary}
use app_server.Message.{Message}
use app_server.Message.VerifyCode
use app_server.Message.VerifyCodeRes
use app_server.Message.RegisterRequest
use app_server.Message.RegisterResponse
use app_server.MysqlInteractor.{new_users_dao, insert}
use app_server.MysqlInteractor.UsersDao
use app_server.MysqlInteractor.UsersDao.{UsersTableData, new_user}
use app_server.MysqlInteractor.Statements.{ChecksParameters, insert_user_fails}
use app_server.DataHandle.{
  Env, World, schedule, send, handle_verify_code, handle_reg_message, respond_reg,
}
use app_server.DataHandle.Incoming.{Carries, cast_info-some}
use app_server.DataHandle.Delivery.{Delivers, Delivers-reply}

module _ (E : Env) (packet : TcpPacket) (i : VerifyCode.Info) where
  cast-verify :
      (h : Carries E.json (VerifyCode.info_from_json E.json) packet i)
      → VerifyCode.cast_from_string E.json h.source (VerifyCode.new_message (E.stamp 0) [])
        ≡ record (VerifyCode.new_message (E.stamp 0) []) { info = i }
  unfolding VerifyCode.cast_from_string
  cast-verify h = cast_info-some E.json (VerifyCode.info_from_json E.json) h.source _ i h.casts

  verify_sent :
      (client : ℕ) (w : World E.connector) (body : Text) (bytes : Bytes)
      → Carries E.json (VerifyCode.info_from_json E.json) packet i
      → E.send_email w.codes i.email (E.generate_verification_code w.codes) ≡ true
      → E.json.dump (
          VerifyCodeRes.to_json E.json
            (VerifyCodeRes.new_message (E.stamp 1) (E.generate_verification_code w.codes)))
        ≡ some body
      → reply E.memory.array 0x07 body ≡ done bytes
      → handle_verify_code E packet client w
        ≡ done (schedule (send (some client) bytes) (record w { codes = suc w.codes }))
  unfolding handle_verify_code
  verify_sent client w body bytes h sends dumps replies = ground (arith, h.reads, cast-verify h)

  -- Where the mail cannot be sent, the client gets the single byte '0', without a header.
  verify_code_not_sent :
      (client : ℕ) (w : World E.connector)
      → Carries E.json (VerifyCode.info_from_json E.json) packet i
      → E.send_email w.codes i.email (E.generate_verification_code w.codes) ≡ false
      → handle_verify_code E packet client w
        ≡ done (schedule (send (some client) (literal "0")) (record w { codes = suc w.codes }))
  unfolding handle_verify_code
  verify_code_not_sent client w h sends = ground (arith, h.reads, cast-verify h)

-- A request for a verification code whose mail is sent, where the text of the answer exists and is
-- shorter than the array of a packet, uses up one code and schedules one message to the client that
-- asked: a reader of its bytes finds a code response from which any message object takes exactly
-- the mailed code.
pub verify_code_reaches_client :
    (E : Env) (ba : ByteArray) (packet : TcpPacket) (i : VerifyCode.Info) (client : ℕ)
    (w : World E.connector) (body : Text)
    → IsJsonLibrary E.json
    → IsByteArray ba
    → length E.memory.array ≡ body_capacity
    → Carries E.json (VerifyCode.info_from_json E.json) packet i
    → E.send_email w.codes i.email (E.generate_verification_code w.codes) ≡ true
    → E.json.dump (
        VerifyCodeRes.to_json E.json
          (VerifyCodeRes.new_message (E.stamp 1) (E.generate_verification_code w.codes)))
      ≡ some body
    → length body < body_capacity
    → (bytes : Bytes) × (handle_verify_code E packet client w
        ≡ done (schedule (send (some client) bytes) (record w { codes = suc w.codes })))
      × Delivers ba bytes 0x07 (λ text.
        (n : Message VerifyCodeRes.Info)
        → VerifyCodeRes.cast_from_string E.json text n
          ≡ record n { info = record { code = E.generate_verification_code w.codes } })
unfolding VerifyCodeRes.new_message
verify_code_reaches_client E ba packet i client w body json bytes hm h sends dumps lt =
    let code = E.generate_verification_code w.codes in
    let m = VerifyCodeRes.new_message (E.stamp 1) code in
    let (out, replies, delivers) =
      Delivers-reply bytes
        (λ text.
          (n : Message VerifyCodeRes.Info)
          → VerifyCodeRes.cast_from_string E.json text n
            ≡ record n { info = record { code = code } })
        E.memory.array 0x07 body (omega arith) hm (json.dump-pos _ body dumps) lt
        (λ n. VerifyCodeRes.cast_from_string-dump json m n body dumps) in
    (out, verify_sent E packet i client w body out h sends dumps replies, delivers)

module _ (E : Env) (packet : TcpPacket) (i : RegisterRequest.Info) where
  cast-register :
      (h : Carries E.json (RegisterRequest.info_from_json E.json) packet i)
      → RegisterRequest.cast_from_string E.json h.source
          (RegisterRequest.new_message (E.stamp 0) [] [] [])
        ≡ record (RegisterRequest.new_message (E.stamp 0) [] [] []) { info = i }
  unfolding RegisterRequest.cast_from_string
  cast-register h =
      cast_info-some E.json (RegisterRequest.info_from_json E.json) h.source _ i h.casts

  -- A registration is one insertion, and its result is what the client is told.
  register_responds :
      (client : ℕ) (w : World E.connector) (success : Bool) (db : E.connector.Db)
      → Carries E.json (RegisterRequest.info_from_json E.json) packet i
      → insert E.connector E.users_dao
          (UsersDao.map_record_to_colums (new_user E.memory i.username i.password i.email))
          w.db
        ≡ done (success, db)
      → handle_reg_message E packet client w ≡ respond_reg E success client (record w { db = db })
  unfolding handle_reg_message
  register_responds client w true db h inserts = ground (arith, h.reads, cast-register h)
  register_responds client w false db h inserts = ground (arith, h.reads, cast-register h)

-- With a connector that refuses statements whose parameters are not all set, every registration
-- leaves the database as it is, and, where the text of the answer exists and is shorter than the
-- array of a packet, the client reads a response that says that it failed.
pub registration_fails :
    (E : Env) (ba : ByteArray) (packet : TcpPacket) (i : RegisterRequest.Info) (c client : ℕ)
    (w : World E.connector) (body : Text)
    → IsJsonLibrary E.json
    → IsByteArray ba
    → ChecksParameters E.connector
    → length E.memory.array ≡ body_capacity
    → E.users_dao ≡ new_users_dao (some c)
    → Carries E.json (RegisterRequest.info_from_json E.json) packet i
    → E.json.dump (RegisterResponse.to_json E.json (RegisterResponse.new_message (E.stamp 1) false))
      ≡ some body
    → length body < body_capacity
    → (bytes : Bytes) × (handle_reg_message E packet client w
        ≡ done (schedule (send (some client) bytes) w))
      × Delivers ba bytes 0x05 (λ text.
        (n : Message RegisterResponse.Info)
        → RegisterResponse.cast_from_string E.json text n
          ≡ record n { info = record { success = false } })
unfolding respond_reg RegisterResponse.new_message
registration_fails E ba packet i c client w body json bytes checks hm dao h dumps lt =
    let user = new_user E.memory i.username i.password i.email in
    let m = RegisterResponse.new_message (E.stamp 1) false in
    let (out, replies, delivers) =
      Delivers-reply bytes
        (λ text.
          (n : Message RegisterResponse.Info)
          → RegisterResponse.cast_from_string E.json text n
            ≡ record n { info = record { success = false } })
        E.memory.array 0x05 body (omega arith) hm (json.dump-pos _ body dumps) lt
        (λ n. RegisterResponse.cast_from_string-dump json m n body dumps) in
    let refused = insert_user_fails E.connector c user w.db checks in
    let responds = register_responds E packet i client w false w.db h (rw dao refused) in
    (out, responds ∙ rw (dumps, replies), delivers)
