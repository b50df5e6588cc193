-- ===== src/Cluster/Setting.antt =====
-- include/cql_cluster.hpp: options that are set one after the other.
use uv_client_server.Base.{
  ℕ, ◌<◌, ◌≡◌, ◌≢◌, refl, [], ◌∷◌, Result, ok, err, out_of_bounds, ◌>>=◌, length, arith,
}
use uv_client_server.Memory.{Bytes, load_32}
use uv_client_server.Cluster.{Cluster, option, set_option}

set_commutes :
    (c c₁ c₂ : Cluster) (name other i j : ℕ) (v w : Bytes) (n m : ℕ)
    → name ≢ other
    → set_option c name i v n ≡ ok c₁
    → set_option c other j w m ≡ ok c₂
    → set_option c₁ other j w m ≡ set_option c₂ name i v n
unfolding set_option
set_commutes c c₁ c₂ name other i j v w n m ne e f = ground arith

-- Two different options that can each be set on a cluster can be set in either order: the second
-- setting has the same outcome, and leaves the same cluster.
pub option_commutes :
    (c c₁ c₂ : Cluster) (name other : ℕ) (v w : Bytes) (n m : ℕ)
    → name ≢ other
    → option c name v n ≡ ok c₁
    → option c other w m ≡ ok c₂
    → option c₁ other w m ≡ option c₂ name v n
unfolding option
option_commutes c c₁ c₂ name other v w n m ne e f = with_ints (load_32 v) (load_32 w) e f
  where
    with_ints :
        (a b : Result ℕ)
        → (a >>= λ i. set_option c name i v n) ≡ ok c₁
        → (b >>= λ j. set_option c other j w m) ≡ ok c₂
        → (b >>= λ j. set_option c₁ other j w m) ≡ (a >>= λ i. set_option c₂ name i v n)
    with_ints (ok i) (ok j) k l = set_commutes c c₁ c₂ name other i j v w n m ne k l
    with_ints (ok i) (err y) k l = cc
    with_ints (err x) b k l = cc

-- A value of less than four bytes, such as a short port, is not read: no option can be set to it.
option_short :
    (c : Cluster) (name : ℕ) (value : Bytes) (size : ℕ)
    → length value < 4
    → option c name value size ≡ err out_of_bounds
unfolding option load_32
option_short c name [] size h = refl
option_short c name (a ∷ []) size h = refl
option_short c name (a ∷ b ∷ []) size h = refl
option_short c name (a ∷ b ∷ d ∷ []) size h = refl
option_short c name (a ∷ b ∷ d ∷ f ∷ rest) size h = absurd (omega arith)
