-- ===== src/BanManager/Counting/Runs.antt =====
-- src/dnf2b/data/BanManager.cpp: what a whole run of `log` counts of an address that stays below the limit.
use doesnotfail2ban.Prelude.{
  ℕ, String, ◌==◌, ◌≡◌, refl, sym, ap, subst, ◌∙◌, true, false, List, [], ◌∷◌, inl, inr, length,
  eq_iff, Bool-cases,
}
use doesnotfail2ban.Prelude.Int.{ℤ}
use doesnotfail2ban.Prelude.Maps.{Map, lookup, contains, IsMap, Above, AllEntries, Above-others}
use doesnotfail2ban.Prelude.Results.{ok, and_then-ok}
use doesnotfail2ban.Structs.{Message}
use doesnotfail2ban.Watcher.{Watcher}
use doesnotfail2ban.MessageBuffer.{messages_of}
use doesnotfail2ban.BanManager.Whitelist.{Asio}
use doesnotfail2ban.BanManager.{BanManager, get_ip_info, log_one, log}
use doesnotfail2ban.BanManager.Invariant.{IsValid, log_one-IsValid}
use doesnotfail2ban.BanManager.Safety.{SameSetup, log_one-SameSetup, same, Grows-trans}
use doesnotfail2ban.BanManager.Others.{SameIp, log_one-SameIp, log_one_ends}
use doesnotfail2ban.BanManager.Due.{AllAnswered}
use doesnotfail2ban.BanManager.Counting.{
  IsWatched, IsBelow, IsCounted, with_more, with_more-zero, log_one-IsOther, log_one-IsCounted,
}

module _ (ipow : ℤ → ℕ → ℤ) {asio : Asio} {Code : Type 0} (source : Watcher Code)
    (clock : String → ℤ) (ip : String) where
  log-IsCounted_others :
      (caught : Map (List Message)) (m : BanManager asio)
      → IsValid m
      → contains source.bouncer m.bouncers ≡ true
      → AllEntries (λ j ms. (j == ip) ≡ false) caught
      → AllAnswered ipow source clock m caught
      → IsCounted ipow source clock ip 0 m (log ipow clock source caught m)
  unfolding log
  log-IsCounted_others [] m v l o a = record {
    ended = refl;
    info = with_more-zero (clock ip) _;
    calls = same;
  }
  log-IsCounted_others ((k, ms) ∷ rest) m v l o a =
      let m' : BanManager asio = (log_one ipow (clock k) source k ms m).1 in
      let setup = log_one-SameSetup ipow source (clock k) k ms m in
      let c =
        log-IsCounted_others rest m' (log_one-IsValid ipow source (clock k) k ms m v)
          (rw setup.bouncers l) o.1 (rw setup.whitelist a.1) in
      rw
        (and_then-ok (log_one ipow (clock k) source k ms m) (log ipow clock source rest)
          (log_one_ends ip ipow source (clock k) k ms m l a.0))
        (record {
          ended = c.ended;
          info = c.info ∙ rw (log_one-SameIp ip ipow source (clock k) k ms m v o.0).info refl;
          calls = Grows-trans (log_one-IsOther ipow source clock ip k ms m o.0) c.calls;
        })

  log_first-IsCounted :
      (messages : List Message) (rest : Map (List Message)) (m : BanManager asio)
      → Above ip rest
      → AllAnswered ipow source clock m rest
      → IsWatched source ip m
      → IsBelow source ip (length messages) m
      → IsCounted ipow source clock ip
          (length messages)
          m
          (log ipow clock source ((ip, messages) ∷ rest) m)
  unfolding log
  log_first-IsCounted messages rest m s a w b =
      let m' : BanManager asio = (log_one ipow (clock ip) source ip messages m).1 in
      let setup = log_one-SameSetup ipow source (clock ip) ip messages m in
      let v' = log_one-IsValid ipow source (clock ip) ip messages m w.valid in
      let first = log_one-IsCounted ipow source clock ip messages m w b in
      let c =
        log-IsCounted_others rest m' v' (rw setup.bouncers w.loaded) (Above-others ip rest s)
          (rw setup.whitelist a) in
      rw
        (and_then-ok (log_one ipow (clock ip) source ip messages m) (log ipow clock source rest)
          first.ended)
        (record {
          ended = c.ended;
          info = c.info ∙ sym (with_more-zero (clock ip) (get_ip_info ip m')) ∙ first.info;
          calls = Grows-trans first.calls c.calls;
        })

  IsWatched-same :
      (m m' : BanManager asio)
      → IsValid m'
      → SameSetup m m'
      → SameIp ip m m'
      → IsWatched source ip m
      → IsWatched source ip m'
  IsWatched-same m m' v s i w = record {
    valid = v;
    listed = rw s.whitelist w.listed;
    loaded = rw s.bouncers w.loaded;
    free = rw i.info w.free;
  }

  -- In a valid state, isWhitelisted answers for every address that was caught, and one that is not
  -- whitelisted and that the watcher's bouncer, which is loaded, has not banned stays below the limit with
  -- the messages caught under it. Then, whatever other addresses were caught, log returns, knows one more
  -- fail of it for each of these messages and nothing else, and has not banned it.
  pub log-IsCounted :
      (messages : List Message) (caught : Map (List Message)) (m : BanManager asio)
      → IsMap caught
      → messages_of ip caught ≡ messages
      → AllAnswered ipow source clock m caught
      → IsWatched source ip m
      → IsBelow source ip (length messages) m
      → IsCounted ipow source clock ip (length messages) m (log ipow clock source caught m)
  unfolding log lookup
  log-IsCounted messages [] m s e a w b =
      subst (λ ms. IsCounted ipow source clock ip (length ms) m (ok tt, m)) e
        (record { ended = refl; info = with_more-zero (clock ip) (get_ip_info ip m); calls = same })
  log-IsCounted messages ((k, ms) ∷ rest) m s e a w b = elim (Bool-cases (k == ip)) [
    | inl t ↦
        let p = (eq_iff k ip).0 t in
        subst
          (λ j.
            IsCounted ipow source clock ip (length messages) m
              (log ipow clock source ((j, ms) ∷ rest) m))
          (sym p)
          (subst
            (λ x.
              IsCounted ipow source clock ip (length messages) m
                (log ipow clock source ((ip, x) ∷ rest) m))
            (sym (rw t at e))
            (log_first-IsCounted messages rest m (subst (λ j. Above j rest) p s.0) a.1 w b))
    | inr f ↦
        let m' : BanManager asio = (log_one ipow (clock k) source k ms m).1 in
        let v' = log_one-IsValid ipow source (clock k) k ms m w.valid in
        let setup = log_one-SameSetup ipow source (clock k) k ms m in
        let known = log_one-SameIp ip ipow source (clock k) k ms m w.valid f in
        let c =
          log-IsCounted messages rest m' s.1 (rw f at e) (rw setup.whitelist a.1)
            (IsWatched-same m m' v' setup known w) (rw known.info b) in
        rw
          (and_then-ok (log_one ipow (clock k) source k ms m) (log ipow clock source rest)
            (log_one_ends ip ipow source (clock k) k ms m w.loaded a.0))
          (record {
            ended = c.ended;
            info = c.info ∙ ap (λ i. with_more (clock ip) i (length messages)) known.info;
            calls = Grows-trans (log_one-IsOther ipow source clock ip k ms m f) c.calls;
          })
  ]
