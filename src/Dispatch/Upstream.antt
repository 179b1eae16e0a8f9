-- ===== src/Dispatch/Upstream.antt =====
-- Where the proxy connects to.
use sippin_soda.Base.{
  ℕ, zero, suc, ◌≡◌, ◌≤◌, arith, Bool, false, not, List, [], ◌∷◌, ok, ok_or, refuse_if-eq-ok,
  >>=-eq-ok, ok_inj, any, take, All, subst, length,
}
use sippin_soda.Text.Ip.{is_loopback, is_unspecified, to_canonical}
use sippin_soda.Status.{SocketAddr}
use sippin_soda.Dispatch.{Resolution, leads_back, connect_upstream}

-- The address is not the proxy's own: another port, or another machine.
abbrev pub IsElsewhere : SocketAddr → SocketAddr → Type 0
IsElsewhere proxy address =
    address.port ≡ proxy.port
    → (is_loopback (to_canonical address.ip) ≡ false)
      × (is_unspecified (to_canonical address.ip) ≡ false)

leads_back-IsElsewhere :
    (proxy address : SocketAddr) → leads_back proxy address ≡ false → IsElsewhere proxy address
unfolding leads_back
leads_back-IsElsewhere proxy address h same = (ground arith, ground arith)

any-All :
    (proxy : SocketAddr) (addresses : List SocketAddr)
    → any (leads_back proxy) addresses ≡ false
    → All (IsElsewhere proxy) addresses
unfolding any
any-All proxy [] h = tt
any-All proxy (a ∷ addresses) h =
    (leads_back-IsElsewhere proxy a (ground arith), any-All proxy addresses (ground arith))

length-take_le : (n : ℕ) (xs : List SocketAddr) → length (take n xs) ≤ n
length-take_le zero xs = omega arith
length-take_le (suc n) [] = omega arith
length-take_le (suc n) (x ∷ xs) = omega (arith, length-take_le n xs)

-- The proxy connects only after it has looked at each address, sixteen at most, and to none that
-- is its own port on this machine, whatever name the request used.
pub connect_upstream-IsElsewhere :
    (proxy : SocketAddr) (resolved : Resolution) (connects : Bool) (addresses : List SocketAddr)
    → connect_upstream proxy resolved connects ≡ ok addresses
    → (length addresses ≤ 16) × All (IsElsewhere proxy) addresses
unfolding connect_upstream
connect_upstream-IsElsewhere proxy resolved connects addresses h =
    let (found, _, h1) = >>=-eq-ok (ok_or resolved _) _ h in
    let (_, h2) = refuse_if-eq-ok _ _ _ h1 in
    let (elsewhere, h3) = refuse_if-eq-ok (any (leads_back proxy) (take 16 found)) _ _ h2 in
    let (_, h4) = refuse_if-eq-ok (not connects) _ _ h3 in
    subst (λ xs. (length xs ≤ 16) × All (IsElsewhere proxy) xs) (ok_inj h4)
      (length-take_le 16 found, any-All proxy (take 16 found) elsewhere)
