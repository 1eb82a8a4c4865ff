-- ===== src/Watcher.antt =====
-- src/dnf2b/watcher/Watcher.cpp and Watcher.hpp: a watcher, and how it processes the messages of a poll.
-- The buffer is shared by the watchers of a pipeline, so it is handed through.
pub mod Merging
pub mod Disabled
use doesnotfail2ban.Prelude.{ℕ, String, Bool, Option, none, some, List, [], ◌∷◌, ◌++◌, value_or}
use doesnotfail2ban.Prelude.Int.{ℤ}
use doesnotfail2ban.Prelude.Maps.{lookup, insert}
use doesnotfail2ban.Prelude.Results.{Result, ok, throw, ◌>>=◌}
use doesnotfail2ban.Structs.{Message}
use doesnotfail2ban.Pcre.{Pcre}
use doesnotfail2ban.Filter.{Filter}
use doesnotfail2ban.MessageBuffer.{MessageBuffer, Pton, Caught, load, forward, done}

-- `Code` is the type of pcre2's compiled patterns.
pub record Watcher (Code : Type 0) : Type 0 where
  pub id : String
  pub multi_process_id : Option String
  pub port : Option ℕ
  pub limit : ℤ
  pub filters : List (Filter Code)
  pub bouncer : String

-- The two branches on out.contains(k).
abbrev pub merge_found : String → List Message → Caught → Option (List Message) → Caught
merge_found k v out none = insert k v out
merge_found k v out (some messages) = insert k (messages ++ v) out

-- One round of the inner loop of `process`: the messages go behind those that `out` has.
unfoldable pub merge_one : String → List Message → Caught → Caught
merge_one k v out = merge_found k v out (lookup k out)

-- The inner loop of `process`.
unfoldable pub merge : Caught → Caught → Caught
merge [] out = out
merge ((k, v) ∷ rest) out = merge rest (merge_one k v out)

module _ (inet_pton : Bool → String → Pton) (pcre : Pcre) where
  -- The loop of `process` over the filters.
  unfoldable pub run_filters :
      List (Filter pcre.Code) → MessageBuffer → Caught → Result (MessageBuffer × Caught)
  unfolding merge
  run_filters [] buff out = ok (buff, out)
  run_filters (f ∷ fs) buff out =
      forward inet_pton pcre f buff >>= λ (buff', caught). run_filters fs buff' (merge caught out)

  -- Watcher::process
  unfoldable pub process :
      Watcher pcre.Code → List Message → MessageBuffer → Result (MessageBuffer × Caught)
  unfolding run_filters
  process w messages buff =
      run_filters w.filters (load messages buff) [] >>= λ (buff', out). ok (done buff', out)
