-- ===== src/MysqlConnectPool/Order.antt =====
-- The order in which connections leave the pool.
use mathlib.Core.List.{append_assoc, append-nil}
use app_server.Base.{
  ℕ, zero, suc, ◌≡◌, ◌≤◌, refl, List, [], ◌∷◌, ◌++◌, length, take, drop, arith, ap, ◌∙◌,
}
use app_server.MysqlConnectPool.{ConnectionPtr, Pool, get_connection, release_connection}

pub get_many : ℕ → Pool → List ConnectionPtr × Pool
get_many zero p = ([], p)
get_many (suc n) p =
    let (c, p') = get_connection p in let (cs, p'') = get_many n p' in (c ∷ cs, p'')

pub release_many : List ConnectionPtr → Pool → Pool
release_many [] p = p
release_many (c ∷ cs) p = release_many cs (release_connection c p)

release_many-connections :
    (cs : List ConnectionPtr) (p : Pool) → (release_many cs p).connections ≡ p.connections ++ cs
unfolding release_many release_connection
release_many-connections [] p = rw append-nil
release_many-connections (c ∷ cs) p =
    release_many-connections cs (release_connection c p) ∙ append_assoc p.connections (c ∷ []) cs

get_many-take :
    (n : ℕ) (xs : List ConnectionPtr) (p : Pool)
    → p.connections ≡ xs
    → n ≤ length xs
    → ((get_many n p).0 ≡ take n xs) × ((get_many n p).1.connections ≡ drop n xs)
unfolding get_many get_connection
get_many-take zero xs p e h = (refl, e)
get_many-take (suc n) [] p e h = absurd (omega arith)
get_many-take (suc n) (x ∷ xs) p e h =
    let q : Pool = record p { connections = xs } in
    let ih = get_many-take n xs q refl (omega arith) in
    rw (e, get_connection) (ap (◌∷◌ x) ih.0, ih.1)

-- Connections that are released one after the other leave the pool in that order, behind those that
-- it held before, for as many calls as there are connections.
get_many-release_many :
    (n : ℕ) (cs : List ConnectionPtr) (p : Pool)
    → n ≤ length (p.connections ++ cs)
    → ((get_many n (release_many cs p)).0 ≡ take n (p.connections ++ cs))
      × ((get_many n (release_many cs p)).1.connections ≡ drop n (p.connections ++ cs))
get_many-release_many n cs p h =
    get_many-take n (p.connections ++ cs) (release_many cs p) (release_many-connections cs p) h
