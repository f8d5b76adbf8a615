-- ===== src/Threads/Serial.antt =====
-- Handlers in any interleaving change the table of friendships like wishes one after the other.
use mathlib.Core.List.{Perm, perm_middle, append_assoc}
use mathlib.Core.List.Perm
use mathlib.Core.Path.{subst}
use app_server.Base.{◌≡◌, ◌∙◌, sym, ap, refl, ◌⊎◌, inl, inr, some, List, [], ◌∷◌, ◌++◌}
use app_server.Packet.{TcpPacket}
use app_server.MysqlConnectPool.{ConnectionPtr}
use app_server.MysqlInteractor.{Connector, new_friend_ship_dao}
use app_server.MysqlInteractor.FriendShipDao.{FriendShipTableData}
use app_server.MysqlInteractor.Friendships.{IsFriendTable}
use app_server.DataHandle.{Env, Moment, met, World}
use app_server.DataHandle.Conversation.{Arrival}
use app_server.DataHandle.Conversation.Friending.{
  Wish, granted, all_granted, Says, asks, accepts, refuses, leaves,
}
use app_server.DataHandle.Conversation.Followed.{Packets, nothing, wish, other}
use app_server.Threads.{Program, advance}
use app_server.Threads.Updates.{IsQuiet, UpdatesOnce, advance-Rests, advance-Moves}
use app_server.Threads.Quiet.{handle_data_steps-IsQuiet}
use app_server.Threads.Wishes.{Means, wish-UpdatesOnce}
use app_server.Threads.Machine.{Machine, at_rest, Reach, begins, arrives, acts}

all_granted-append :
    (gs : List Wish) (h : Wish) (t : List FriendShipTableData)
    → all_granted (gs ++ h ∷ []) t ≡ granted h (all_granted gs t)
unfolding all_granted
all_granted-append [] h t = refl
all_granted-append (g ∷ gs) h t = all_granted-append gs h (granted g t)

-- What a packet says does not depend on the moment.
Says-met : (E : Env) (k : Moment) (p : TcpPacket) (h : Wish) → Says E p h → Says (met E k) p h
Says-met E k p _ (asks i f says fits) = asks i f says fits
Says-met E k p _ (accepts i f says fits agreed) = accepts i f says fits agreed
Says-met E k p _ (refuses i f says fits refused) = refuses i f says fits refused
Says-met E k p _ (leaves i f says fits) = leaves i f says fits

module _ (C : Connector) (table : C.Db → List FriendShipTableData) where
  -- Each thread makes no update any more, or may still grant the next of these wishes.
  abbrev Owe : List (Program C (Unit {0})) → List Wish → Type 0
  Owe [] hs = hs ≡ []
  Owe (t ∷ ts) hs =
      (IsQuiet t × Owe ts hs)
      ⊎ ((h : Wish) × (rest : List Wish) × (hs ≡ h ∷ rest)
          × UpdatesOnce (Means C table h) t
          × Owe ts rest)

  -- What one access of one thread does to the wishes that are owed.
  abbrev Paid : List (Program C (Unit {0})) → World C → World C → List Wish → Type 0
  Paid ts w w' hs =
      (rest : List Wish) × Owe ts rest
      × (((w'.db ≡ w.db) × (rest ≡ hs))
          ⊎ ((h : Wish) × Perm (h ∷ rest) hs
              × ((w'.db ≡ w.db) ⊎ (table w'.db ≡ granted h (table w.db)))))

  acts-Paid :
      (before after : List (Program C (Unit {0}))) (t : Program C (Unit {0})) (w : World C)
      (r : Program C (Unit {0}) × World C) (hs : List Wish)
      → advance t w ≡ some r
      → Owe (before ++ t ∷ after) hs
      → Paid (before ++ r.0 ∷ after) w r.1 hs
  acts-Paid [] after t w r hs e (inl (q, more)) =
      let rests = advance-Rests t w r q e in (hs, inl (rests.0, more), inl (rests.1, refl))
  acts-Paid [] after t w r hs e (inr (h, rest, split, once, more)) =
      elim (advance-Moves (Means C table h) t w r once e) [
        | inl (once', same) ↦ (hs, inr (h, rest, split, once', more), inl (same, refl))
        | inr (q, either) ↦ (
          rest,
          inl (q, more),
          inr (
            h,
            rw split (Perm.refl (h ∷ rest)),
            elim either [
              | inl same ↦ inl same
              | inr (query, bs, means, executed) ↦ inr (means w.db r.1.db executed)
            ],
          ),
        )
      ]
  acts-Paid (b ∷ before) after t w r hs e (inl (q, more)) =
      let (rest, owe, change) = acts-Paid before after t w r hs e more in
      (rest, inl (q, owe), change)
  acts-Paid (b ∷ before) after t w r hs e (inr (h, rest, split, once, more)) =
      let (rest', owe, change) = acts-Paid before after t w r rest e more in
      (
        h ∷ rest',
        inr (h, rest', refl, once, owe),
        elim change [
          | inl (same, kept) ↦ inl (same, ap (λ l. h ∷ l) kept ∙ sym split)
          | inr (g, perm, either) ↦
              inr (g, rw split (Perm.trans (Perm.swap h g rest') (Perm.cons h perm)), either)
        ],
      )

module _ (E : Env) (c : ConnectionPtr) (dao : E.friend_ship_dao ≡ new_friend_ship_dao c)
    {table : E.connector.Db → List FriendShipTableData} (laws : IsFriendTable E.connector table)
    (w : World E.connector) where
  -- The wishes that the packets said: those that were granted, in this order, and the others, of which some
  -- threads may still grant one each.
  record Account (s : Machine E.connector) (hs : List Wish) : Type 0 where
    given : List Wish
    lost : List Wish
    owed : List Wish
    owe : Owe E.connector table s.threads owed
    all : Perm (given ++ (lost ++ owed)) hs
    now : table s.world.db ≡ all_granted given (table w.db)

  perm_move :
      (gs ls rest ps hs : List Wish) (h : Wish)
      → Perm (h ∷ rest) ps
      → Perm (gs ++ (ls ++ ps)) hs
      → Perm ((gs ++ h ∷ []) ++ (ls ++ rest)) hs
  perm_move gs ls rest ps hs h p q =
      let inner : Perm (h ∷ (ls ++ rest)) (ls ++ ps) =
        Perm.trans (Perm.symm (perm_middle ls rest)) (Perm.append_left ls p) in
      rw (append_assoc gs (h ∷ []) (ls ++ rest)) (Perm.trans (Perm.append_left gs inner) q)

  perm_lose :
      (gs ls rest ps hs : List Wish) (h : Wish)
      → Perm (h ∷ rest) ps
      → Perm (gs ++ (ls ++ ps)) hs
      → Perm (gs ++ (h ∷ (ls ++ rest))) hs
  perm_lose gs ls rest ps hs h p q =
      Perm.trans
        (Perm.append_left gs (Perm.trans (Perm.symm (perm_middle ls rest)) (Perm.append_left ls p)))
        q

  Reach-Account :
      {arrivals : List Arrival} {s : Machine E.connector} {hs : List Wish}
      → Reach E (at_rest w) arrivals s
      → Packets E arrivals hs
      → Account s hs
  unfolding all_granted
  Reach-Account begins nothing = record {
    given = [];
    lost = [];
    owed = [];
    owe = refl;
    all = Perm.refl [];
    now = refl;
  }
  Reach-Account (arrives r a alive) (wish a' h says more) =
      let k = Reach-Account r more in
      record {
        given = k.given;
        lost = k.lost;
        owed = h ∷ k.owed;
        owe = inr (
          h,
          k.owed,
          refl,
          wish-UpdatesOnce (met E a.moment) c dao laws a.packet a.client h
              (Says-met E a.moment a.packet h says),
          k.owe,
        );
        all =
            Perm.trans (Perm.append_left k.given (perm_middle k.lost k.owed))
              (Perm.trans (perm_middle k.given (k.lost ++ k.owed)) (Perm.cons h k.all));
        now = k.now;
      }
  Reach-Account (arrives r a alive) (other a' f4 f8 fa fb more) =
      let k = Reach-Account r more in
      record {
        given = k.given;
        lost = k.lost;
        owed = k.owed;
        owe = inl (handle_data_steps-IsQuiet (met E a.moment) a.packet a.client f4 f8 fa fb, k.owe);
        all = k.all;
        now = k.now;
      }
  Reach-Account {hs} (acts {s} r before after t m e steps alive) packets =
      let k = Reach-Account r packets in
      let owe = subst (λ ts. Owe E.connector table ts k.owed) e k.owe in
      let (rest, owe', change) =
        acts-Paid E.connector table before after t s.world m k.owed steps owe in
      elim change [
        | inl (same, kept) ↦ record {
          given = k.given;
          lost = k.lost;
          owed = k.owed;
          owe = rw kept at owe';
          all = k.all;
          now = ap table same ∙ k.now;
        }
        | inr (h, perm, inl same) ↦ record {
          given = k.given;
          lost = h ∷ k.lost;
          owed = rest;
          owe = owe';
          all = perm_lose k.given k.lost rest k.owed hs h perm k.all;
          now = ap table same ∙ k.now;
        }
        | inr (h, perm, inr grants) ↦ record {
          given = k.given ++ h ∷ [];
          lost = k.lost;
          owed = rest;
          owe = owe';
          all = perm_move k.given k.lost rest k.owed hs h perm k.all;
          now = grants ∙ ap (granted h) k.now ∙ sym (all_granted-append k.given h (table w.db));
        }
      ]

  -- Whatever packets arrive that are either well-formed requests, confirmations, refusals or
  -- deletions, or of another type that is no registration, and however the steps of their handlers
  -- interleave: at every moment the rows of the table of friendships are those at the start changed
  -- by some of the wishes that the packets say, each at most once, one after the other, and in no
  -- other way.
  pub Reach-table :
      {arrivals : List Arrival} {s : Machine E.connector} {hs : List Wish}
      → Reach E (at_rest w) arrivals s
      → Packets E arrivals hs
      → (gs : List Wish) × (rest : List Wish) × Perm (gs ++ rest) hs
        × (table s.world.db ≡ all_granted gs (table w.db))
  Reach-table r packets =
      let k = Reach-Account r packets in (k.given, k.lost ++ k.owed, k.all, k.now)
