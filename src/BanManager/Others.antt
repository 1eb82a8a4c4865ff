-- ===== src/BanManager/Others.antt =====
-- src/dnf2b/data/BanManager.cpp: a round of `log` leaves what is known of the other addresses.
use doesnotfail2ban.Prelude.{
  ℕ, String, ◌==◌, ◌≡◌, refl, ◌∙◌, true, false, List, inl, inr, arith, ap,
}
use doesnotfail2ban.Prelude.Int.{ℤ}
use doesnotfail2ban.Prelude.Maps.{
  lookup, contains, lookup-insert, lookup-erase, insert-IsMap, IsMap,
}
use doesnotfail2ban.Prelude.Results.{ok, Returns}
use doesnotfail2ban.Structs.{IpInfo, Message}
use doesnotfail2ban.Watcher.{Watcher}
use doesnotfail2ban.BanDb.{update_ip, wipe_fails_for}
use doesnotfail2ban.BanDb.Rows.{row_of, row_of-put_bans}
use doesnotfail2ban.BanDb.Others.{load_ip-update_ip_other, load_ip-wipe_fails_for_other}
use doesnotfail2ban.BanManager.Whitelist.{Asio, is_whitelisted}
use doesnotfail2ban.BanManager.{BanManager, get_ip_info, record_ban, cache_fails, log_one, value_or}
use doesnotfail2ban.BanManager.Rounds.{failed, with_call, log_one_cases}
use doesnotfail2ban.BanManager.Durations.{IsInfo}
use doesnotfail2ban.BanManager.Invariant.{IsValid, get_ip_info-IsInfo, with_fails-IsInfo}

-- The same is known of an address, in the cache or the database and in the table of bans.
pub record SameIp {asio : Asio} (i : String) (m m' : BanManager asio) : Type 0 where
  pub info : get_ip_info i m' ≡ get_ip_info i m
  pub row :
      (bouncer : String) → row_of i bouncer m'.db.ban_registry ≡ row_of i bouncer m.db.ban_registry

module _ {asio : Asio} (i : String) where
  info-cache_fails :
      (ip : String) (info : IpInfo) (m : BanManager asio)
      → (ip == i) ≡ false
      → (info.ip == i) ≡ false
      → get_ip_info i (cache_fails ip info m) ≡ get_ip_info i m
  unfolding get_ip_info cache_fails
  info-cache_fails ip info m e f =
      rw (lookup-insert ip i info m.fail_cache, e, load_ip-update_ip_other i info m.db f) refl

  module _ (ipow : ℤ → ℕ → ℤ) {Code : Type 0} (source : Watcher Code) where
    info-record_ban :
        (now : ℤ) (info : IpInfo) (m : BanManager asio)
        → (info.ip == i) ≡ false
        → get_ip_info i (record_ban ipow now source info m) ≡ get_ip_info i m
    unfolding get_ip_info record_ban
    info-record_ban now info m e =
        rw (lookup-erase info.ip i m.fail_cache, e)
          (ap (λ known. value_or (lookup i m.fail_cache) known)
            (load_ip-update_ip_other i _ (wipe_fails_for info.ip m.db) e
              ∙ load_ip-wipe_fails_for_other i info.ip m.db e))

    row-record_ban :
        (now : ℤ) (info : IpInfo) (bouncer : String) (m : BanManager asio)
        → (info.ip == i) ≡ false
        → IsMap info.curr_bans
        → row_of i bouncer (record_ban ipow now source info m).db.ban_registry
          ≡ row_of i bouncer m.db.ban_registry
    unfolding record_ban update_ip wipe_fails_for
    row-record_ban now info bouncer m e s =
        row_of-put_bans info.ip i bouncer _ m.db.ban_registry
          (insert-IsMap source.bouncer _ info.curr_bans s)
        ∙ rw e refl

    row-cache_fails :
        (ip : String) (info : IpInfo) (bouncer : String) (m : BanManager asio)
        → (info.ip == i) ≡ false
        → IsMap info.curr_bans
        → row_of i bouncer (cache_fails ip info m).db.ban_registry
          ≡ row_of i bouncer m.db.ban_registry
    unfolding cache_fails update_ip
    row-cache_fails ip info bouncer m e s =
        row_of-put_bans info.ip i bouncer info.curr_bans m.db.ban_registry s ∙ rw e refl

    info-with_call :
        (ip : String) (m : BanManager asio)
        → get_ip_info i (with_call ipow source ip m) ≡ get_ip_info i m
    unfolding get_ip_info
    info-with_call ip m = refl

    -- A round of `log` for one address, from a valid state, leaves what is known of another.
    pub log_one-SameIp :
        (now : ℤ) (ip : String) (messages : List Message) (m : BanManager asio)
        → IsValid m
        → (ip == i) ≡ false
        → SameIp i m (log_one ipow now source ip messages m).1
    log_one-SameIp now ip messages m h e =
        let info : IpInfo = failed ipow source now ip messages m in
        let k : IsInfo ip info = with_fails-IsInfo _ (get_ip_info-IsInfo ip m h) in
        let f : (info.ip == i) ≡ false = rw k.named e in
        elim (log_one_cases ipow source now ip messages m) [
          | inl o ↦ rw o (record { info = refl; row = λ b. refl })
          | inr (inl (o, _)) ↦ rw o (record { info = info-with_call ip m; row = λ b. refl })
          | inr (inr (inl (o, _, _))) ↦ rw o (record {
            info = info-record_ban now info (with_call ipow source ip m) f ∙ info-with_call ip m;
            row = λ b. row-record_ban now info b (with_call ipow source ip m) f k.sorted;
          })
          | inr (inr (inr (o, _, _))) ↦ rw o (record {
            info = info-cache_fails ip info m e f;
            row = λ b. row-cache_fails ip info b m f k.sorted;
          })
        ]

    -- A round returns, if the bouncer is loaded and the address is one for isWhitelisted.
    pub log_one_ends :
        (now : ℤ) (ip : String) (messages : List Message) (m : BanManager asio)
        → contains source.bouncer m.bouncers ≡ true
        → Returns (is_whitelisted asio m.whitelist ip)
        → (log_one ipow now source ip messages m).0 ≡ ok tt
    unfolding log_one
    log_one_ends now ip messages m l (exempt, e) = ground arith
