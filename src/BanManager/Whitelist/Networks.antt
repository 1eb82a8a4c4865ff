-- ===== src/BanManager/Whitelist/Networks.antt =====
-- isWhitelisted of src/dnf2b/data/BanManager.cpp: what it answers without networks of version 6 in the
-- whitelist, and what these do to it.
use doesnotfail2ban.Prelude.{
  String, ◌≡◌, refl, ap, Bool, true, false, not, some, List, [], ◌∷◌, ◌++◌, arith, any, keep,
  if◌then◌else◌,
}
use doesnotfail2ban.Prelude.Results.{ok, throw, bad_variant_access}
use doesnotfail2ban.BanManager.Whitelist.{
  Asio, Address, v4, v6, Exempt, network_v4, network_v6, address_v4, address_v6, exempts,
  any_exempts, is_whitelisted,
}

module _ (asio : Asio) where
  -- An entry covers an address of its own version: the address itself, or a network that it is in.
  abbrev pub covers : Address asio.AddressV4 asio.AddressV6 → Exempt asio → Bool
  covers (v4 a) (network_v4 n) = asio.is_subnet_of_v4 (asio.host_v4 a) n
  covers (v4 a) (address_v4 b) = asio.eq_v4 b a
  covers (v4 a) (network_v6 n) = false
  covers (v4 a) (address_v6 b) = false
  covers (v6 a) (network_v4 n) = false
  covers (v6 a) (address_v4 b) = false
  covers (v6 a) (network_v6 n) = asio.is_subnet_of_v6 (asio.host_v6 a) n
  covers (v6 a) (address_v6 b) = asio.eq_v6 b a

  abbrev pub is_network_v6 : Exempt asio → Bool
  is_network_v6 (network_v6 n) = true
  is_network_v6 (network_v4 n) = false
  is_network_v6 (address_v4 b) = false
  is_network_v6 (address_v6 b) = false

  exempts-covers :
      (addr : Address asio.AddressV4 asio.AddressV6) (e : Exempt asio)
      → is_network_v6 e ≡ false
      → exempts asio addr e ≡ ok (covers addr e)
  unfolding exempts
  exempts-covers (v4 a) (network_v4 n) h = refl
  exempts-covers (v4 a) (address_v4 b) h = refl
  exempts-covers (v4 a) (network_v6 n) h = cc
  exempts-covers (v4 a) (address_v6 b) h = refl
  exempts-covers (v6 a) (network_v4 n) h = refl
  exempts-covers (v6 a) (address_v4 b) h = refl
  exempts-covers (v6 a) (network_v6 n) h = cc
  exempts-covers (v6 a) (address_v6 b) h = refl

  any_exempts-any :
      (addr : Address asio.AddressV4 asio.AddressV6) (whitelist : List (Exempt asio))
      → any is_network_v6 whitelist ≡ false
      → any_exempts asio addr whitelist ≡ ok (any (covers addr) whitelist)
  unfolding any_exempts
  any_exempts-any addr [] h = refl
  any_exempts-any addr (e ∷ es) h = ground (arith, exempts-covers addr e, any_exempts-any addr es)

  -- If asio reads the address, and the whitelist has no network of version 6, isWhitelisted returns
  -- true exactly if an entry covers the address.
  pub is_whitelisted-any :
      (addr : Address asio.AddressV4 asio.AddressV6) (whitelist : List (Exempt asio)) (ip : String)
      → asio.make_address ip ≡ some addr
      → any is_network_v6 whitelist ≡ false
      → is_whitelisted asio whitelist ip ≡ ok (any (covers addr) whitelist)
  unfolding is_whitelisted
  is_whitelisted-any addr whitelist ip e h = rw e (any_exempts-any addr whitelist h)

  any_exempts-skip :
      (a : asio.AddressV6) (whitelist : List (Exempt asio))
      → any_exempts asio (v6 a) whitelist
        ≡ any_exempts asio (v6 a) (keep (λ e. not (is_network_v6 e)) whitelist)
  unfolding any_exempts exempts
  any_exempts-skip a [] = refl
  any_exempts-skip a (network_v4 n ∷ es) = any_exempts-skip a es
  any_exempts-skip a (network_v6 n ∷ es) = any_exempts-skip a es
  any_exempts-skip a (address_v4 b ∷ es) = any_exempts-skip a es
  any_exempts-skip a (address_v6 b ∷ es) =
      ap (λ r. if asio.eq_v6 b a then ok true else r) (any_exempts-skip a es)

  any_exempts-throw :
      (a : asio.AddressV4) (before after : List (Exempt asio)) (n : asio.NetworkV6)
      → any is_network_v6 before ≡ false
      → any (covers (v4 a)) before ≡ false
      → any_exempts asio (v4 a) (before ++ network_v6 n ∷ after) ≡ throw bad_variant_access
  unfolding any_exempts
  any_exempts-throw a [] after n h c = unfold exempts in refl
  any_exempts-throw a (e ∷ es) after n h c =
      ground (arith, exempts-covers (v4 a) e, any_exempts-throw a es after n)

  -- Networks of version 6 in the whitelist fail: isWhitelisted answers for an address of version 6 as if
  -- they were not there, and for one of version 4 it throws std::bad_variant_access at the first of them,
  -- unless an earlier entry covers the address.
  pub is_whitelisted-network_v6 :
      (a : asio.AddressV4) (b : asio.AddressV6) (ip ip' : String)
      (before after : List (Exempt asio)) (n : asio.NetworkV6)
      → asio.make_address ip ≡ some (v4 a)
      → asio.make_address ip' ≡ some (v6 b)
      → any is_network_v6 before ≡ false
      → any (covers (v4 a)) before ≡ false
      → (is_whitelisted asio (before ++ network_v6 n ∷ after) ip ≡ throw bad_variant_access)
        × (is_whitelisted asio (before ++ network_v6 n ∷ after) ip'
            ≡ is_whitelisted asio
                (keep (λ e. not (is_network_v6 e)) (before ++ network_v6 n ∷ after))
                ip')
  unfolding is_whitelisted
  is_whitelisted-network_v6 a b ip ip' before after n e e' h c = (
    rw e (any_exempts-throw a before after n h c),
    rw e' (any_exempts-skip b (before ++ network_v6 n ∷ after)),
  )
