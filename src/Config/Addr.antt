-- ===== src/Config/Addr.antt =====
-- `std::net::SocketAddr`: an IPv4 address of four octets or an IPv6 address as one number, with a
-- port; an IPv6 address has a flow label and a scope too.
use propylea.Prelude.{
  Bool, List, [], arith, false, refl, true, ℕ, ◌&&◌, ◌++◌, ◌==◌, ◌||◌, ◌↔◌, ◌∷◌, ◌≡◌,
}

pub data SocketAddr : Type 0 where
  v4 : (a b c d port : ℕ) → SocketAddr
  v6 : (addr port flow scope : ℕ) → SocketAddr

-- `==`
unfoldable pub addr_eq : SocketAddr → SocketAddr → Bool
addr_eq (v4 a b c d p) (v4 a' b' c' d' p') = a == a' && b == b' && c == c' && d == d' && p == p'
addr_eq (v4 a b c d p) (v6 a' p' f' s') = false
addr_eq (v6 a p f s) (v4 a' b' c' d' p') = false
addr_eq (v6 a p f s) (v6 a' p' f' s') = a == a' && p == p' && f == f' && s == s'

pub addr_eq_iff : (x y : SocketAddr) → (addr_eq x y ≡ true) ↔ (x ≡ y)
unfolding addr_eq
addr_eq_iff (v4 a b c d p) (v4 a' b' c' d' p') = ground arith
addr_eq_iff (v4 a b c d p) (v6 a' p' f' s') = ground arith
addr_eq_iff (v6 a p f s) (v4 a' b' c' d' p') = ground arith
addr_eq_iff (v6 a p f s) (v6 a' p' f' s') = ground arith

-- `Vec::contains`
unfoldable pub addr_mem : SocketAddr → List SocketAddr → Bool
unfolding addr_eq
addr_mem u [] = false
addr_mem u (x ∷ xs) = addr_eq x u || addr_mem u xs

pub addr_mem-cons :
    (u x : SocketAddr) (xs : List SocketAddr) → addr_mem u (x ∷ xs) ≡ (addr_eq x u || addr_mem u xs)
unfolding addr_mem
addr_mem-cons u x xs = refl

pub addr_mem-append :
    (u : SocketAddr) (xs ys : List SocketAddr)
    → addr_mem u (xs ++ ys) ≡ (addr_mem u xs || addr_mem u ys)
unfolding addr_mem
addr_mem-append u [] ys = refl
addr_mem-append u (x ∷ xs) ys = ground (arith, addr_mem-append u xs ys)
