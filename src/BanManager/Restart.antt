-- ===== src/BanManager/Restart.antt =====
-- src/dnf2b/data/BanManager.cpp and BanDB.cpp: what is left of fails when the cache is gone.
use doesnotfail2ban.Prelude.{
  ℕ, zero, suc, ◌<◌, String, ◌≡◌, refl, ◌∙◌, ap, false, not, none, List, [], ◌∷◌, ◌++◌, arith,
  length, keep, replicate, eq_iff, eq_refl,
}
use doesnotfail2ban.Prelude.Int.{ℤ, eqb_ℤ, eqb_ℤ_iff}
use doesnotfail2ban.Prelude.Maps.{lookup, lookup-insert}
use doesnotfail2ban.Structs.{IpInfo, Message}
use doesnotfail2ban.Watcher.{Watcher}
use doesnotfail2ban.BanDb.{FailRow, load_fails, load_ip, put_fail, put_fails, update_ip}
use doesnotfail2ban.BanManager.Whitelist.{Asio}
use doesnotfail2ban.BanManager.{BanManager, get_ip_info, cache_fails, reaches_threshold, log_one}
use doesnotfail2ban.BanManager.Rounds.{failed}
use doesnotfail2ban.BanManager.Ban.{IsCaught, log_one-eq-cache_fails}

load_fails-put_fail_same :
    (i : String) (t : ℤ) (rows : List FailRow)
    → load_fails i (put_fail (record { ip = i; time = t }) rows)
      ≡ keep (λ s. not (eqb_ℤ s t)) (load_fails i rows) ++ t ∷ []
unfolding load_fails put_fail
load_fails-put_fail_same i t [] = rw (eq_refl i) refl
load_fails-put_fail_same i t (q ∷ rows) =
    ground (arith, load_fails-put_fail_same i t rows, eq_iff q.ip i)

-- Further fails of the same time are one fail.
load_fails-put_fails_again :
    (i : String) (t : ℤ) (n : ℕ) (rows : List FailRow)
    → load_fails i rows ≡ t ∷ []
    → load_fails i (put_fails i (replicate n t) rows) ≡ t ∷ []
unfolding put_fails
load_fails-put_fails_again i t zero rows e = e
load_fails-put_fails_again i t (suc n) rows e =
    load_fails-put_fails_again i t n (put_fail (record { ip = i; time = t }) rows)
      (load_fails-put_fail_same i t rows ∙ rw (e, (eqb_ℤ_iff t t).1 refl) refl)

load_fails-put_fails_same :
    (i : String) (t : ℤ) (n : ℕ) (rows : List FailRow)
    → 0 < n
    → load_fails i rows ≡ []
    → load_fails i (put_fails i (replicate n t) rows) ≡ t ∷ []
unfolding put_fails
load_fails-put_fails_same i t zero rows h e = absurd (ground arith)
load_fails-put_fails_same i t (suc n) rows h e =
    load_fails-put_fails_again i t n (put_fail (record { ip = i; time = t }) rows)
      (load_fails-put_fail_same i t rows ∙ rw e refl)

pub get_ip_info-cache_fails :
    {asio : Asio} (ip : String) (info : IpInfo) (m : BanManager asio)
    → get_ip_info ip (cache_fails ip info m) ≡ info
unfolding get_ip_info cache_fails
get_ip_info-cache_fails ip info m = rw (lookup-insert ip ip info m.fail_cache, eq_refl ip) refl

module _ (ipow : ℤ → ℕ → ℤ) {asio : Asio} {Code : Type 0} (source : Watcher Code) where
  module _ (now : ℤ) (ip : String) (messages : List Message) (m : BanManager asio)
      (new : lookup ip m.fail_cache ≡ none) (clean : (load_ip ip m.db).curr_fails ≡ []) where
    failed-new :
        failed ipow source now ip messages m
        ≡ record (load_ip ip m.db) { curr_fails = replicate (length messages) now }
    unfolding get_ip_info
    failed-new = rw (new, clean) refl

    -- In a valid state, an address is caught that is not whitelisted, that the watcher's bouncer, which is
    -- loaded, has not banned, and that has no fail in the database and is not in the cache; with the new
    -- fails it stays below the threshold. Then after log the cache knows one fail for each message that was
    -- caught, and the database, which is all that is left when the program starts again, one in all.
    pub log_one-collapses :
        IsCaught ipow source now ip messages m
        → reaches_threshold (length (failed ipow source now ip messages m).curr_fails) source.limit
          ≡ false
        → ((get_ip_info ip (log_one ipow now source ip messages m).1).curr_fails
            ≡ replicate (length messages) now)
          × ((load_ip ip (log_one ipow now source ip messages m).1.db).curr_fails ≡ now ∷ [])
    log_one-collapses c r =
        let info : IpInfo = failed ipow source now ip messages m in
        rw (log_one-eq-cache_fails ipow source now ip messages m c r) (
          ap (λ (i : IpInfo). i.curr_fails) (get_ip_info-cache_fails ip info m ∙ failed-new),
          rw failed-new (
              unfold cache_fails load_ip update_ip in
              load_fails-put_fails_same ip now (length messages) m.db.fail_registry c.caught clean),
        )
