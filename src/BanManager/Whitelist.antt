-- ===== src/BanManager/Whitelist.antt =====
-- The whitelist of src/dnf2b/data/BanManager.cpp: its entries as the constructor parses them, and
-- isWhitelisted. asio, which parses and compares addresses, is a parameter.
pub mod Networks
use Prim.Native.String.{String}
use mathlib.Core.Path.{◌≡◌, refl}
use mathlib.Core.Bool.{Bool, true, false, ◌||◌}
use mathlib.Core.Option.{Option, none, some}
use mathlib.Core.List.{List, [], ◌∷◌}
use text.Mathlib.Text.{find?}
use doesnotfail2ban.Prelude.{has_value, any, if◌then◌else◌}
use doesnotfail2ban.Prelude.Results.{
  Result, ok, throw, Fault, system_error, bad_variant_access, ◌>>=◌,
}

-- asio::ip::address holds one of the two versions.
pub data Address (V4 V6 : Type 0) : Type 0 where
  v4 : V4 → Address V4 V6
  v6 : V6 → Address V4 V6

-- The types and functions of asio::ip that the source calls; a parser answers `none` where it throws.
pub record Asio : Type 1 where
  pub AddressV4 : Type 0
  pub AddressV6 : Type 0
  pub NetworkV4 : Type 0
  pub NetworkV6 : Type 0
  pub make_address : String → Option (Address AddressV4 AddressV6)
  pub make_network_v4 : String → Option NetworkV4
  pub make_network_v6 : String → Option NetworkV6
  -- make_network_v4(address, 32) and make_network_v6(address, 128)
  pub host_v4 : AddressV4 → NetworkV4
  pub host_v6 : AddressV6 → NetworkV6
  pub is_subnet_of_v4 : NetworkV4 → NetworkV4 → Bool
  pub is_subnet_of_v6 : NetworkV6 → NetworkV6 → Bool
  pub eq_v4 : AddressV4 → AddressV4 → Bool
  pub eq_v6 : AddressV6 → AddressV6 → Bool

abbrev pub or_throw {ℓ} : {A : Type ℓ} → Option A → Result A
or_throw none = throw system_error
or_throw (some a) = ok a

-- The variant of a whitelist entry.
pub data Exempt (asio : Asio) : Type 0 where
  network_v4 : asio.NetworkV4 → Exempt asio
  network_v6 : asio.NetworkV6 → Exempt asio
  address_v4 : asio.AddressV4 → Exempt asio
  address_v6 : asio.AddressV6 → Exempt asio

module _ (asio : Asio) where
  exempt_address : Address asio.AddressV4 asio.AddressV6 → Exempt asio
  exempt_address (v4 a) = address_v4 a
  exempt_address (v6 a) = address_v6 a

  -- One entry of the constructor's loop.
  unfoldable pub parse_exempt : String → Result (Exempt asio)
  unfolding exempt_address
  parse_exempt entry =
      if has_value (find? entry "/")
      then (if has_value (find? entry ":")
          then (or_throw (asio.make_network_v6 entry) >>= λ n. ok (network_v6 n))
          else (or_throw (asio.make_network_v4 entry) >>= λ n. ok (network_v4 n)))
      else (or_throw (asio.make_address entry) >>= λ a. ok (exempt_address a))

  -- The constructor's loop over the configured whitelist.
  unfoldable pub parse_whitelist : List String → Result (List (Exempt asio))
  unfolding parse_exempt
  parse_whitelist [] = ok []
  parse_whitelist (entry ∷ entries) = do
    e ← parse_exempt entry
    es ← parse_whitelist entries
    ok (e ∷ es)

  -- One round of the loop of isWhitelisted. For a network of version 6 the source skips the addresses
  -- of version 6, and reads the network of one of version 4 as if it were of version 6.
  unfoldable pub exempts : Address asio.AddressV4 asio.AddressV6 → Exempt asio → Result Bool
  exempts (v4 a) (network_v4 n) = ok (asio.is_subnet_of_v4 (asio.host_v4 a) n)
  exempts (v6 a) (network_v4 n) = ok false
  exempts (v4 a) (address_v4 b) = ok (asio.eq_v4 b a)
  exempts (v6 a) (address_v4 b) = ok false
  exempts (v4 a) (network_v6 n) = throw bad_variant_access
  exempts (v6 a) (network_v6 n) = ok false
  exempts (v4 a) (address_v6 b) = ok false
  exempts (v6 a) (address_v6 b) = ok (asio.eq_v6 b a)

  unfoldable pub any_exempts :
      Address asio.AddressV4 asio.AddressV6 → List (Exempt asio) → Result Bool
  unfolding exempts
  any_exempts addr [] = ok false
  any_exempts addr (e ∷ es) =
      let rest = any_exempts addr es in exempts addr e >>= λ b. if b then ok true else rest

  -- BanManager::isWhitelisted
  unfoldable pub is_whitelisted : List (Exempt asio) → String → Result Bool
  unfolding any_exempts
  is_whitelisted whitelist ip =
      or_throw (asio.make_address ip) >>= λ addr. any_exempts addr whitelist
