-- ===== src/BanManager/Due.antt =====
-- src/dnf2b/data/BanManager.cpp: a run of `log` bans each address that is due, whatever else was caught.
use doesnotfail2ban.Prelude.{
  length-append, length-replicate, replicate, ◌+◌, ◌<◌, ℕ, String, ◌==◌, ◌≡◌, refl, sym, subst, ◌∙◌,
  true, false, none, some, List, [], ◌∷◌, inl, inr, arith, length, eq_iff, Bool-cases,
}
use mathlib.Core.Option.{some-injective}
use mathlib.Core.List.{Mem, mem-append_left, mem-append_right, mem-cons_self}
use doesnotfail2ban.Prelude.Int.{ℤ, pos, negsuc, ◌≤ℤ◌}
use doesnotfail2ban.Prelude.Maps.{Above-others, Map, lookup, contains, IsMap, Above, AllEntries}
use doesnotfail2ban.Prelude.Results.{Result, ok, Returns, and_then-ok}
use doesnotfail2ban.Structs.{Message}
use doesnotfail2ban.Bouncers.{BouncerCall, ban}
use doesnotfail2ban.Watcher.{Watcher}
use doesnotfail2ban.BanDb.Rows.{row_of}
use doesnotfail2ban.BanManager.Whitelist.{Asio, is_whitelisted}
use doesnotfail2ban.BanManager.{
  BanManager, get_ip_info, ban_duration, reaches_threshold, log_one, log,
}
use doesnotfail2ban.BanManager.Rounds.{failed}
use doesnotfail2ban.BanManager.Invariant.{IsValid, log_one-IsValid}
use doesnotfail2ban.BanManager.Safety.{SameSetup, log_one-SameSetup, Grows, same, more, log-Grows}
use doesnotfail2ban.BanManager.Ban.{IsCaught, log_one-bans}
use doesnotfail2ban.BanManager.Others.{SameIp, log_one-SameIp, log_one_ends}

mem-Grows :
    {P : BouncerCall → Type 0} {xs ys : List BouncerCall} (c : BouncerCall)
    → Grows P xs ys
    → Mem c xs
    → Mem c ys
mem-Grows c same h = h
mem-Grows c (more d g p) h = mem-append_left (d ∷ []) (mem-Grows c g h)

-- The test of `log`, for at least one fail.
reaches_threshold_of :
    (size : ℕ) (limit : ℤ) → 0 < size → limit ≤ℤ pos size → reaches_threshold size limit ≡ true
unfolding reaches_threshold
reaches_threshold_of size (pos limit) h k = ground arith
reaches_threshold_of size (negsuc n) h k = ground arith

module _ (ipow : ℤ → ℕ → ℤ) {asio : Asio} {Code : Type 0} (source : Watcher Code)
    (clock : String → ℤ) where
  -- An address is caught, and with these messages its fails are as many as the watcher's limit.
  pub record IsDue (ip : String) (messages : List Message) (m : BanManager asio) : Type 0 where
    pub caught : IsCaught ipow source (clock ip) ip messages m
    pub reached : source.limit ≤ℤ pos (length (get_ip_info ip m).curr_fails + length messages)

  IsDue-reaches_threshold :
      (ip : String) (messages : List Message) (m : BanManager asio)
      → IsDue ip messages m
      → reaches_threshold
          (length (failed ipow source (clock ip) ip messages m).curr_fails)
          source.limit
        ≡ true
  IsDue-reaches_threshold ip messages m d =
      let fails = (get_ip_info ip m).curr_fails in
      rw
        (
          length-append fails (replicate (length messages) (clock ip)),
          length-replicate (length messages) (clock ip),
        )
        (reaches_threshold_of (length fails + length messages) source.limit
          (omega (arith, d.caught.caught)) d.reached)

  -- isWhitelisted answers for each address that was caught.
  abbrev pub AllAnswered : BanManager asio → Map (List Message) → Type 0
  AllAnswered m caught =
      AllEntries (λ k (ms : List Message). Returns (is_whitelisted asio m.whitelist k)) caught

  IsDue-same :
      (ip : String) (messages : List Message) (m m' : BanManager asio)
      → IsValid m'
      → SameSetup m m'
      → SameIp ip m m'
      → IsDue ip messages m
      → IsDue ip messages m'
  IsDue-same ip messages m m' v s i d = record {
    caught = record {
      valid = v;
      caught = d.caught.caught;
      listed = rw s.whitelist d.caught.listed;
      loaded = rw s.bouncers d.caught.loaded;
      free = rw i.info d.caught.free;
    };
    reached = rw i.info d.reached;
  }

  -- What the rounds for other addresses leave of the ban of one.
  log-others :
      (ip bouncer : String) (caught : Map (List Message)) (m : BanManager asio)
      → IsValid m
      → contains source.bouncer m.bouncers ≡ true
      → AllEntries (λ j ms. (j == ip) ≡ false) caught
      → AllAnswered m caught
      → ((log ipow clock source caught m).0 ≡ ok tt)
        × (row_of ip bouncer (log ipow clock source caught m).1.db.ban_registry
            ≡ row_of ip bouncer m.db.ban_registry)
  unfolding log
  log-others ip bouncer [] m v l o a = (refl, refl)
  log-others ip bouncer ((k, ms) ∷ rest) m v l o a =
      let m' : BanManager asio = (log_one ipow (clock k) source k ms m).1 in
      let setup = log_one-SameSetup ipow source (clock k) k ms m in
      let (done, row) =
        log-others ip bouncer rest m' (log_one-IsValid ipow source (clock k) k ms m v)
          (rw setup.bouncers l) o.1 (rw setup.whitelist a.1) in
      rw
        (and_then-ok (log_one ipow (clock k) source k ms m) (log ipow clock source rest)
          (log_one_ends ip ipow source (clock k) k ms m l a.0))
        (done, row ∙ (log_one-SameIp ip ipow source (clock k) k ms m v o.0).row bouncer)

  -- log returns, and has called the bouncer's ban for the address; the database holds the ban.
  abbrev pub Bans : String → BanManager asio → Result (Unit {0}) × BanManager asio → Type 0
  Bans ip m logged =
      (logged.0 ≡ ok tt)
      × Mem (ban source.bouncer ip source.port) logged.1.calls
      × (row_of ip source.bouncer logged.1.db.ban_registry
          ≡ some (record {
            ban_started = clock ip;
            ban_duration = ban_duration ipow m.control (get_ip_info ip m).ban_count;
            port = none;
          }))

  log_first :
      (ip : String) (messages : List Message) (rest : Map (List Message)) (m : BanManager asio)
      → Above ip rest
      → AllAnswered m rest
      → IsDue ip messages m
      → Bans ip m (log ipow clock source ((ip, messages) ∷ rest) m)
  unfolding log
  log_first ip messages rest m s a d =
      let m' : BanManager asio = (log_one ipow (clock ip) source ip messages m).1 in
      let (done, calls, row, _, _, _) =
        log_one-bans ipow source (clock ip) ip messages m d.caught
          (IsDue-reaches_threshold ip messages m d) in
      let setup = log_one-SameSetup ipow source (clock ip) ip messages m in
      let v' = log_one-IsValid ipow source (clock ip) ip messages m d.caught.valid in
      let (ended, kept) =
        log-others ip source.bouncer rest m' v' (rw setup.bouncers d.caught.loaded)
          (Above-others ip rest s) (rw setup.whitelist a) in
      rw
        (and_then-ok (log_one ipow (clock ip) source ip messages m) (log ipow clock source rest)
          done)
        (
          ended,
          mem-Grows _ (log-Grows ipow source clock rest m').0
              (rw calls (mem-append_right m.calls mem-cons_self)),
          kept ∙ row,
        )

  -- In a valid state, an address is caught that is not whitelisted, and that the watcher's bouncer, which
  -- is loaded, has not banned; its fails and the messages caught are as many as the watcher's limit.
  -- isWhitelisted answers for every address that was caught. Then, whatever other addresses were caught,
  -- log returns, has called ban for the address on that bouncer, with the watcher's port, and the database
  -- holds the ban from the time of the address's round on, with the duration for its number of bans before
  -- the run.
  pub log-Bans :
      (ip : String) (messages : List Message) (caught : Map (List Message)) (m : BanManager asio)
      → IsMap caught
      → lookup ip caught ≡ some messages
      → AllAnswered m caught
      → IsDue ip messages m
      → Bans ip m (log ipow clock source caught m)
  unfolding log lookup
  log-Bans ip messages [] m s e a d = cc
  log-Bans ip messages ((k, ms) ∷ rest) m s e a d = elim (Bool-cases (k == ip)) [
    | inl t ↦
        subst (λ j. Bans ip m (log ipow clock source ((j, ms) ∷ rest) m)) (sym ((eq_iff k ip).0 t))
          (log_first ip ms rest m (subst (λ j. Above j rest) ((eq_iff k ip).0 t) s.0) a.1
            (subst (λ x. IsDue ip x m) (sym (some-injective ms messages (rw t at e))) d))
    | inr f ↦
        let m' : BanManager asio = (log_one ipow (clock k) source k ms m).1 in
        let v' = log_one-IsValid ipow source (clock k) k ms m d.caught.valid in
        let setup = log_one-SameSetup ipow source (clock k) k ms m in
        let known = log_one-SameIp ip ipow source (clock k) k ms m d.caught.valid f in
        let (ended, called, row) =
          log-Bans ip messages rest m' s.1 (rw f at e) (rw setup.whitelist a.1)
            (IsDue-same ip messages m m' v' setup known d) in
        rw
          (and_then-ok (log_one ipow (clock k) source k ms m) (log ipow clock source rest)
            (log_one_ends ip ipow source (clock k) k ms m d.caught.loaded a.0))
          (ended, called, row ∙ rw (known.info, setup.control) refl)
  ]
