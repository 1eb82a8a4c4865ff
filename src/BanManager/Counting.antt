-- ===== src/BanManager/Counting.antt =====
-- src/dnf2b/data/BanManager.cpp: a run of `log` counts the fails of an address that stays below the limit.
pub mod Runs
use doesnotfail2ban.Prelude.{
  ℕ, ◌+◌, ◌<◌, String, ◌==◌, ◌≡◌, ◌≢◌, refl, sym, ap, subst, ◌∙◌, true, false, none, some, List, [],
  ◌∷◌, ◌++◌, inl, inr, arith, length, replicate, eqb, eq_iff, Bool-cases, append-nil, length-append,
  length-replicate, value_or,
}
use doesnotfail2ban.Prelude.Int.{ℤ, pos, ◌<ℤ◌}
use doesnotfail2ban.Prelude.Maps.{Map, lookup, contains, IsMap, Above, AllEntries, Above-others}
use doesnotfail2ban.Prelude.Results.{Result, ok, Returns, and_then-ok}
use doesnotfail2ban.Structs.{IpInfo, Message}
use doesnotfail2ban.Bouncers.{BouncerCall, ban}
use doesnotfail2ban.Watcher.{Watcher}
use doesnotfail2ban.MessageBuffer.{messages_of}
use doesnotfail2ban.BanManager.Whitelist.{Asio, is_whitelisted}
use doesnotfail2ban.BanManager.{
  BanManager, get_ip_info, reaches_threshold, cache_fails, log_one, log, unban, negsuc,
}
use doesnotfail2ban.BanManager.Rounds.{failed}
use doesnotfail2ban.BanManager.Invariant.{IsValid, log_one-IsValid}
use doesnotfail2ban.BanManager.Safety.{
  SameSetup, log_one-SameSetup, Grows, same, more, Grows-trans, log_one-calls,
}
use doesnotfail2ban.BanManager.Ban.{IsCaught, log_one-eq-cache_fails}
use doesnotfail2ban.BanManager.Others.{SameIp, log_one-SameIp, log_one_ends}
use doesnotfail2ban.BanManager.Restart.{get_ip_info-cache_fails}
use doesnotfail2ban.BanManager.Due.{AllAnswered}

address_of : BouncerCall → String
address_of (ban bouncer ip port) = ip
address_of (unban bouncer ip port) = ip

-- Not a ban of the address by the watcher's bouncer.
abbrev pub IsOther : {Code : Type 0} → Watcher Code → String → BouncerCall → Type 0
IsOther source ip c = c ≢ ban source.bouncer ip source.port

ban-IsOther :
    {Code : Type 0} (source : Watcher Code) (ip k : String)
    → (k == ip) ≡ false
    → IsOther source ip (ban source.bouncer k source.port)
unfolding address_of
ban-IsOther source ip k f e = let p = (eq_iff k ip).1 (ap address_of e) in absurd cc

-- What is known of an address, with so many more fails of one time.
abbrev pub with_more : ℤ → IpInfo → ℕ → IpInfo
with_more now info n = record info { curr_fails = info.curr_fails ++ replicate n now }

pub with_more-zero : (now : ℤ) (info : IpInfo) → info ≡ with_more now info 0
with_more-zero now info =
    ap (λ fails. record info { curr_fails = fails }) (sym (append-nil info.curr_fails))

reaches_threshold_below :
    (size : ℕ) (limit : ℤ) → pos size <ℤ limit → reaches_threshold size limit ≡ false
unfolding reaches_threshold
reaches_threshold_below size (pos limit) h = ground arith
reaches_threshold_below size (negsuc n) h = absurd (ground arith)

module _ {asio : Asio} {Code : Type 0} (source : Watcher Code) (ip : String) where
  -- An address that is not whitelisted and that the watcher's bouncer, which is loaded, has not banned, in
  -- a valid state.
  pub record IsWatched (m : BanManager asio) : Type 0 where
    pub valid : IsValid m
    pub listed : is_whitelisted asio m.whitelist ip ≡ ok false
    pub loaded : contains source.bouncer m.bouncers ≡ true
    pub free : contains source.bouncer (get_ip_info ip m).curr_bans ≡ false

  -- With so many more fails the address stays below the limit.
  abbrev pub IsBelow : ℕ → BanManager asio → Type 0
  IsBelow n m = pos (length (get_ip_info ip m).curr_fails + n) <ℤ source.limit

module _ (ipow : ℤ → ℕ → ℤ) {asio : Asio} {Code : Type 0} (source : Watcher Code)
    (clock : String → ℤ) (ip : String) where
  -- What a run has counted of the address.
  pub record IsCounted (n : ℕ) (m : BanManager asio) (logged : Result (Unit {0}) × BanManager asio)
      : Type 0 where
    pub ended : logged.0 ≡ ok tt
    pub info : get_ip_info ip logged.1 ≡ with_more (clock ip) (get_ip_info ip m) n
    pub calls : Grows (IsOther source ip) m.calls logged.1.calls

  pub log_one-IsOther :
      (k : String) (messages : List Message) (m : BanManager asio)
      → (k == ip) ≡ false
      → Grows (IsOther source ip) m.calls (log_one ipow (clock k) source k messages m).1.calls
  log_one-IsOther k messages m f = elim (log_one-calls ipow source (clock k) k messages m) [
    | inl e ↦ rw e same
    | inr (e, _, _) ↦ rw e (more _ same (ban-IsOther source ip k f))
  ]

  log_one-none :
      (messages : List Message) (m : BanManager asio)
      → eqb (length messages) 0 ≡ true
      → log_one ipow (clock ip) source ip messages m ≡ (ok tt, m)
  unfolding log_one
  log_one-none messages m e = rw e refl

  below-reaches_threshold :
      (messages : List Message) (m : BanManager asio)
      → IsBelow source ip (length messages) m
      → reaches_threshold
          (length (failed ipow source (clock ip) ip messages m).curr_fails)
          source.limit
        ≡ false
  below-reaches_threshold messages m b =
      let fails = (get_ip_info ip m).curr_fails in
      rw
        (
          length-append fails (replicate (length messages) (clock ip)),
          length-replicate (length messages) (clock ip),
        )
        (reaches_threshold_below (length fails + length messages) source.limit b)

  pub log_one-IsCounted :
      (messages : List Message) (m : BanManager asio)
      → IsWatched source ip m
      → IsBelow source ip (length messages) m
      → IsCounted (length messages) m (log_one ipow (clock ip) source ip messages m)
  log_one-IsCounted [] m w b =
      rw (log_one-none [] m refl)
        (record { ended = refl; info = with_more-zero (clock ip) (get_ip_info ip m); calls = same })
  log_one-IsCounted (msg ∷ msgs) m w b =
      let messages = msg ∷ msgs in
      let info : IpInfo = failed ipow source (clock ip) ip messages m in
      let c : IsCaught ipow source (clock ip) ip messages m = record {
        valid = w.valid;
        caught = omega arith;
        listed = w.listed;
        loaded = w.loaded;
        free = w.free;
      } in
      rw
        (log_one-eq-cache_fails ipow source (clock ip) ip messages m c
          (below-reaches_threshold messages m b))
        (record {
          ended = refl;
          info = get_ip_info-cache_fails ip info m;
          calls = unfold cache_fails in same;
        })
