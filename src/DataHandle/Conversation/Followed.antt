-- ===== src/DataHandle/Conversation/Followed.antt =====
-- Any sequence of packets, and which of the wishes in it reach the table of friendships.
use app_server.Base.{ℕ, ◌≡◌, ◌≢◌, inl, inr, ap, ◌∙◌, some, List, [], ◌∷◌, done, arith, >>=-eq-done}
use app_server.MysqlInteractor.{new_friend_ship_dao}
use app_server.MysqlInteractor.FriendShipDao.{FriendShipTableData}
use app_server.MysqlInteractor.Friendships.{IsFriendTable}
use app_server.DataHandle.{Env, met, World, handle_data}
use app_server.DataHandle.Conversation.{Arrival, handle_all}
use app_server.DataHandle.Conversation.Friending.{Wish, all_granted, Says}
use app_server.DataHandle.Conversation.Tables.{wish-Decided, other_kept}

-- Packets that are no registrations: a well-formed packet about a friendship, with its wish, or one
-- of the types that leave the database alone.
pub data Packets (E : Env) : List Arrival → List Wish → Type 0 where
  nothing : Packets E [] []
  wish :
      {rest : List Arrival} {hs : List Wish} (a : Arrival) (h : Wish)
      → Says E a.packet h
      → Packets E rest hs
      → Packets E (a ∷ rest) (h ∷ hs)
  other :
      {rest : List Arrival} {hs : List Wish} (a : Arrival)
      → a.packet.func_id ≢ 0x04
      → a.packet.func_id ≢ 0x08
      → a.packet.func_id ≢ 0xa
      → a.packet.func_id ≢ 0x0b
      → Packets E rest hs
      → Packets E (a ∷ rest) hs

-- Some of the wishes, in their order.
pub data Some : List Wish → List Wish → Type 0 where
  end : Some [] []
  granted_too : {gs hs : List Wish} (h : Wish) → Some gs hs → Some (h ∷ gs) (h ∷ hs)
  failed : {gs hs : List Wish} (h : Wish) → Some gs hs → Some gs (h ∷ hs)

module _ (E : Env) (c : ℕ) (dao : E.friend_ship_dao ≡ new_friend_ship_dao (some c))
    {table : E.connector.Db → List FriendShipTableData}
    (laws : IsFriendTable E.connector table) where
  first_handled :
      (a : Arrival) (rest : List Arrival) (w w' : World E.connector)
      → handle_all E (a ∷ rest) w ≡ done w'
      → (v : World E.connector) × (handle_data (met E a.moment) a.packet a.client w ≡ done v)
        × (handle_all E rest v ≡ done w')
  unfolding handle_all
  first_handled a rest w w' h =
      >>=-eq-done (handle_data (met E a.moment) a.packet a.client w) (handle_all E rest) h

  -- Any packets that are either well-formed requests, confirmations, refusals or deletions, or of
  -- another type that is no registration, and that are handled to their end, whether MySQL executes
  -- each statement or not: the rows of the table of friendships change as some of the wishes that
  -- the packets say do, one after the other in their order, and in no other way.
  pub handle_all-table :
      {arrivals : List Arrival} {hs : List Wish} (w w' : World E.connector)
      → Packets E arrivals hs
      → handle_all E arrivals w ≡ done w'
      → (gs : List Wish) × Some gs hs × (table w'.db ≡ all_granted gs (table w.db))
  unfolding all_granted handle_all
  handle_all-table w w' nothing h =
      let same : w'.db ≡ w.db = ground arith in ([], end, ap table same)
  handle_all-table w w' (wish {rest} a h says more) all =
      let (v, handled, others) = first_handled a rest w w' all in
      let (gs, some_of, now) = handle_all-table v w' more others in
      elim (wish-Decided E c dao laws a h w v says handled) [
        | inl kept ↦ (gs, failed h some_of, now ∙ ap (all_granted gs) kept)
        | inr changed ↦ (h ∷ gs, granted_too h some_of, now ∙ ap (all_granted gs) changed)
      ]
  handle_all-table w w' (other {rest} a r s t u more) all =
      let (v, handled, others) = first_handled a rest w w' all in
      let (gs, some_of, now) = handle_all-table v w' more others in
      (gs, some_of, now ∙ ap (all_granted gs) (other_kept E c dao laws a w v r s t u handled))
