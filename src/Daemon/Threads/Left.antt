-- ===== src/Daemon/Threads/Left.antt =====
-- src/dnf2b/core/Daemon.cpp and Daemon.hpp: how many steps the threads have left once isRunning is false.
use doesnotfail2ban.Prelude.{
  ℕ, ◌+◌, ◌*◌, ◌≤◌, ◌<◌, String, ◌==◌, ◌≡◌, refl, ap, Bool-cases, Bool, false, some, [], ◌∷◌,
  length, arith, inl, inr,
}
use doesnotfail2ban.Prelude.Int.{ℤ}
use doesnotfail2ban.Prelude.Maps.{
  Map, lookup, insert, map_values, IsMap, Above, insert-IsMap, lookup-Above, Above-trans,
}
use doesnotfail2ban.Prelude.Maps.Order.{before}
use mathlib.Core.Option.{some-injective}
use doesnotfail2ban.Pcre.{Pcre}
use doesnotfail2ban.MessageBuffer.{Pton}
use doesnotfail2ban.BanManager.Whitelist.{Asio}
use doesnotfail2ban.Daemon.Threads.{
  Phase, Moves, enters, ends, waits, returns, blocks, times_out, wakes, woken, System, ThreadStep,
  reloads, cleans, monitor_moves, handles, poller_moves, stop, notify_all, Run, begins, steps,
  stops, notifies, starting, at_head, in_round, checking, blocking, blocked, ended,
}

-- How many steps a thread has left at most, once isRunning is false.
abbrev pub left : Phase → ℕ
left starting = 2
left at_head = 1
left in_round = 3
left checking = 2
left blocking = 4
left blocked = 3
left ended = 0

abbrev pub all_left : Map Phase → ℕ
all_left [] = 0
all_left ((file, phase) ∷ rest) = left phase + all_left rest

pub left_bound : (phase : Phase) → left phase ≤ 4
left_bound starting = omega arith
left_bound at_head = omega arith
left_bound in_round = omega arith
left_bound checking = omega arith
left_bound blocking = omega arith
left_bound blocked = omega arith
left_bound ended = omega arith

pub all_left_bound : (m : Map Phase) → all_left m ≤ 4 * length m
all_left_bound [] = omega arith
all_left_bound ((file, phase) ∷ rest) = omega (arith, left_bound phase, all_left_bound rest)

Moves-left : {phase next : Phase} → Moves false phase next → left next < left phase
Moves-left (enters e) = absurd cc
Moves-left (ends e) = omega arith
Moves-left (waits e) = absurd cc
Moves-left (returns e) = omega arith
Moves-left blocks = omega arith
Moves-left times_out = omega arith
Moves-left wakes = omega arith

left-woken : (phase : Phase) → left (woken phase) ≤ left phase
left-woken starting = omega arith
left-woken at_head = omega arith
left-woken in_round = omega arith
left-woken checking = omega arith
left-woken blocking = omega arith
left-woken blocked = omega arith
left-woken ended = omega arith

all_left-insert :
    (file : String) (phase next : Phase) (m : Map Phase)
    → IsMap m
    → lookup file m ≡ some phase
    → all_left (insert file next m) + left phase ≡ all_left m + left next
unfolding lookup insert
all_left-insert file phase next [] s e = cc
all_left-insert file phase next ((j, old) ∷ m) s e = elim (Bool-cases (j == file)) [
  | inl t ↦ rw t (omega (arith, ap left (some-injective old phase (rw t at e))))
  | inr f ↦ elim (Bool-cases (before file j)) [
    | inl b ↦
        let above = lookup-Above file m (Above-trans file j m b s.0) in
        let found = rw f at e in absurd cc
    | inr k ↦ rw (f, k) (omega (arith, all_left-insert file phase next m s.1 (rw f at e)))
  ]
]

all_left-woken : (m : Map Phase) → all_left (map_values woken m) ≤ all_left m
unfolding map_values
all_left-woken [] = omega arith
all_left-woken ((file, phase) ∷ m) = omega (arith, left-woken phase, all_left-woken m)

Above-woken : (k : String) (m : Map Phase) → Above k m → Above k (map_values woken m)
unfolding map_values
Above-woken k [] h = tt
Above-woken k ((j, phase) ∷ m) h = (h.0, Above-woken k m h.1)

pub woken-IsMap : (m : Map Phase) → IsMap m → IsMap (map_values woken m)
unfolding map_values
woken-IsMap [] s = tt
woken-IsMap ((k, phase) ∷ m) s = (Above-woken k m s.0, woken-IsMap m s.1)

module _ (inet_pton : Bool → String → Pton) (pcre : Pcre) (ipow : ℤ → ℕ → ℤ) (asio : Asio) where
  abbrev pub total : System inet_pton pcre ipow asio → ℕ
  total s = left s.monitor + all_left s.pollers

  -- The system is stopped, and has used up so many steps of those that it had.
  abbrev pub Used : ℕ → System inet_pton pcre ipow asio → System inet_pton pcre ipow asio → Type 0
  Used n start s = (s.is_running ≡ false) × IsMap s.pollers × (n + total s ≤ total start)

  pub ThreadStep-IsMap :
      {s t : System inet_pton pcre ipow asio}
      → ThreadStep inet_pton pcre ipow asio s t
      → IsMap s.pollers
      → IsMap t.pollers
  ThreadStep-IsMap (reloads now e) m = m
  ThreadStep-IsMap (cleans now e) m = m
  ThreadStep-IsMap (monitor_moves next e) m = m
  ThreadStep-IsMap {s} (handles clock file pipeline messages e f) m =
      insert-IsMap file checking s.pollers m
  ThreadStep-IsMap {s} (poller_moves file phase next e h) m = insert-IsMap file next s.pollers m

  ThreadStep-Used :
      {s t : System inet_pton pcre ipow asio}
      → ThreadStep inet_pton pcre ipow asio s t
      → s.is_running ≡ false
      → IsMap s.pollers
      → (t.is_running ≡ false) × IsMap t.pollers × (total t < total s)
  ThreadStep-Used (reloads now e) f m = (f, m, rw e (omega arith))
  ThreadStep-Used (cleans now e) f m = (f, m, rw e (omega arith))
  ThreadStep-Used (monitor_moves next e) f m = (f, m, omega (arith, Moves-left (rw f at e)))
  ThreadStep-Used {s} (handles clock file pipeline messages e g) f m = (
    f,
    insert-IsMap file checking s.pollers m,
    omega (arith, all_left-insert file in_round checking s.pollers m e),
  )
  ThreadStep-Used {s} (poller_moves file phase next e h) f m = (
    f,
    insert-IsMap file next s.pollers m,
    omega (arith, all_left-insert file phase next s.pollers m e, Moves-left (rw f at h)),
  )

  pub Run-Used :
      {start s : System inet_pton pcre ipow asio} {n : ℕ}
      → Run inet_pton pcre ipow asio start n s
      → start.is_running ≡ false
      → IsMap start.pollers
      → Used n start s
  unfolding stop notify_all
  Run-Used begins f m = (f, m, omega arith)
  Run-Used (steps r up t) f m =
      let (g, k, u) = Run-Used r f m in
      let (g', k', v) = ThreadStep-Used t g k in (g', k', omega (arith, u, v))
  Run-Used (stops r up) f m = let (g, k, u) = Run-Used r f m in (refl, k, u)
  Run-Used (notifies {s = s} r up e) f m =
      let (g, k, u) = Run-Used r f m in
      (g, woken-IsMap s.pollers k, omega (arith, u, left-woken s.monitor, all_left-woken s.pollers))
