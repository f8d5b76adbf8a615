-- ===== src/MysqlInteractor/Friendships/Apart.antt =====
-- The rows of a table without those of a pair of users.
use mathlib.Core.List.{Mem}
use app_server.Base.{ℕ, ◌≡◌, false, not, keep_if, List, any}
use app_server.MysqlInteractor.FriendShipDao.{FriendShipTableData}
use app_server.MysqlInteractor.Friendships.{joins}
use app_server.MysqlInteractor.Friendships.Lists.{
  friends, applicants, not-mem-friends, not-mem-applicants, any-keep_if, joins_comm,
}

-- Neither of the two users is a friend of the other, or an applicant.
pub record IsApart (a b : ℕ) (t : List FriendShipTableData) : Type 0 where
  pub friend : ¬ Mem a (friends b t)
  pub friend' : ¬ Mem b (friends a t)
  pub applicant : ¬ Mem a (applicants b t)
  pub applicant' : ¬ Mem b (applicants a t)

IsApart-of_no_row :
    (a b : ℕ) (t : List FriendShipTableData) → any (joins a b) t ≡ false → IsApart a b t
IsApart-of_no_row a b t h =
    let h' = rw (joins_comm a b t) at h in
    record {
      friend = not-mem-friends a b t h;
      friend' = not-mem-friends b a t h';
      applicant = not-mem-applicants a b t h;
      applicant' = not-mem-applicants b a t h';
    }

abbrev pub without : ℕ → ℕ → List FriendShipTableData → List FriendShipTableData
without a b t = keep_if (λ r. not (joins a b r)) t

pub without-IsApart : (a b : ℕ) (t : List FriendShipTableData) → IsApart a b (without a b t)
without-IsApart a b t = IsApart-of_no_row a b (without a b t) (any-keep_if a b t)
