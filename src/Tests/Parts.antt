-- ===== src/Tests/Parts.antt =====
-- The parts below the handlers at concrete inputs.
use app_server.Base.{true}
use app_server.Message.LoginResponse
use app_server.Message.AddFriendRespone
use app_server.Message.Person.{default_public_info}
use mathlib.Core.List.{Perm}
use app_server.Base.{
  ℕ, ◌≡◌, refl, some, List, [], ◌∷◌, ◌++◌, literal, take, replicate, arith, done, length-replicate,
  ◌>>=◌,
}
use app_server.Packet.{TcpPacket, decode, serialize}
use app_server.Packet.RoundTrip.{IsPacket, received, serialize-decode}
use app_server.Message.{Message, created_base}
use app_server.Message.Chat
use app_server.Message.Person.{PersonalPrivateInfo}
use app_server.UserConnectionManager.{Call, add, delete, change, init, run}
use app_server.UserConnectionManager.Invariant.{run-init-IsValid}
use app_server.UserConnectionManager.Routing.{routes, spec_run, routes-run}
use app_server.MysqlInteractor.{new_friend_ship_dao, uint64}
use app_server.MysqlInteractor.FriendShipDao.{select_all_friend_ship}
use app_server.MysqlInteractor.Statements.{friendship_query}
use app_server.MysqlInteractor.Friendships.{accepted}
use app_server.MysqlInteractor.Friendships.Lists.{friends, select_all_friend_ship-perm}
use app_server.Tests.Streams.{sample_bytes, sample_bytes-IsByteArray}
use app_server.Tests.Tables.{Tables, sample_connector, sample_connector-IsFriendTable, rows_of}
use app_server.Tests.Setting.{sample_env, sample_tables, asked}

abbrev small : TcpPacket
small = record {
  length = 2;
  func_id = 1;
  version = 55;
  reserved = 66;
  body = 104 ∷ 105 ∷ replicate 4094 0;
}

small-IsPacket : IsPacket small
small-IsPacket = record {
  func_id = omega arith;
  version = omega arith;
  reserved = omega arith;
  body = omega (arith, length-replicate {A = ℕ} 4094 0);
  fits = omega arith;
}

serialize-decode_example :
    (serialize small >>= λ bytes. decode sample_bytes (bytes ++ 1 ∷ []))
    ≡ done (received small (take 2 small.body))
serialize-decode_example = serialize-decode sample_bytes-IsByteArray small (1 ∷ []) small-IsPacket

abbrev calls : List Call
calls = add 0 7 (some 70) ∷ add 1 8 (some 80) ∷ add 0 7 (some 71) ∷ delete 8 ∷ change (some 70) ∷ []

routes-run_example : routes (run calls init) 7 ≡ spec_run calls (routes init) 7
unfolding init run
routes-run_example = routes-run calls init 7 (run-init-IsValid [])

abbrev befriended : Tables
befriended = record sample_tables {
  friendships = record asked { status = literal "accepted" } ∷ [];
}

select_all_friend_ship-perm_example :
    (ids : List ℕ) × (select_all_friend_ship sample_connector
        (new_friend_ship_dao (some 1))
        7
        befriended
      ≡ done ids)
    × Perm ids (friends 7 befriended.friendships)
select_all_friend_ship-perm_example =
    select_all_friend_ship-perm sample_connector-IsFriendTable 1 7 befriended
      (rows_of befriended (friendship_query accepted) ((1, uint64 7) ∷ (2, uint64 7) ∷ [])) refl
      refl

abbrev ann_private : PersonalPrivateInfo
ann_private = record { password = literal "pw"; friend_list = []; friend_apply = [] }

abbrev greeting : Message Chat.Info
greeting = record {
  base = created_base (sample_env.stamp 0);
  info = record {
    content = literal "hi";
    sender = literal "bob";
    receiver = literal "ann";
    uid_receiver = 7;
    uid_sender = 8;
  };
}

abbrev other_message : Message Chat.Info
other_message = record greeting { info = record greeting.info { content = [] } }

abbrev response : Message LoginResponse.Info
response = record {
  base = created_base (sample_env.stamp 0);
  info = record { public_info = default_public_info; private_info = ann_private; success = true };
}

abbrev respone : Message AddFriendRespone.Info
respone = record {
  base = created_base (sample_env.stamp 0);
  info = record { public_info = default_public_info; success = true };
}
