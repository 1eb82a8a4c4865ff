-- ===== src/Daemon.antt =====
-- src/dnf2b/core/Daemon.cpp and Daemon.hpp: the pipelines as `reload` makes them, and what the thread of a
-- pipeline does with the messages of a poll. Loading parsers and filters from files are parameters.
pub mod Reloading
pub mod Running
pub mod Banning
pub mod Polls
pub mod Calls
pub mod Threads
pub mod Starting
use doesnotfail2ban.Prelude.{
  ℕ, String, Bool, true, false, not, ◌&&◌, Option, none, some, List, [], ◌∷◌, ◌++◌, ◌==◌, keep,
  length, eqb, if◌then◌else◌, value_or, has_value,
}
use doesnotfail2ban.Prelude.Int.{ℤ}
use doesnotfail2ban.Prelude.Maps.{Map, lookup, insert}
use doesnotfail2ban.Prelude.Results.{
  Result, ok, throw, library_error, runtime_error, null_pointer, ◌>>=◌, and_then,
}
use doesnotfail2ban.Structs.{Message}
use doesnotfail2ban.Pcre.{Pcre}
use doesnotfail2ban.Filter.{Filter}
use doesnotfail2ban.MessageBuffer.{MessageBuffer, Pton, Caught, create}
use doesnotfail2ban.Parsers.{Parser}
use doesnotfail2ban.Watcher.{Watcher, process}
use doesnotfail2ban.BanManager.Whitelist.{Asio}
use doesnotfail2ban.BanManager.{BanManager, log, check_unbans_and_cleanup, load_rebans}

-- The keys of a watcher's JSON object that are read, where they are present.
pub record WatcherConfig : Type 0 where
  pub enabled : Option Bool
  pub file : Option String
  pub resource : Option String
  pub process_id : Option String
  pub id : Option String
  pub parser : Option String
  pub port : Option ℕ
  pub limit : Option ℤ
  pub filters : Option (List String)
  pub banaction : Option String

-- json::at
abbrev pub required {ℓ} : {A : Type ℓ} → Option A → Result A
required none = throw library_error
required (some a) = ok a

abbrev pub first_of : Option String → Option String → Option String → Result String
first_of (some file) resource process_id = ok file
first_of none (some resource) process_id = ok resource
first_of none none process_id = required process_id

pub record Pipeline (Code : Type 0) : Type 0 where
  pub parser : Parser Code
  pub watchers : List (Watcher Code)
  pub buff : MessageBuffer

module _ {Code : Type 0} (load_parser : String → String → Result (Option (Parser Code)))
    (load_filter : String → Result (Filter Code)) (enable_buffer : Parser Code → Bool) where
  abbrev pub started : Option (Parser Code) → Result (Pipeline Code)
  started none = throw null_pointer
  started (some p) = ok (record { parser = p; watchers = []; buff = create (enable_buffer p) })

  -- The pipeline of a file, made with the parser if there is none yet.
  unfoldable pub find_pipeline : String → String → Option (Pipeline Code) → Result (Pipeline Code)
  find_pipeline parser_name file none = load_parser parser_name file >>= started
  find_pipeline parser_name file (some pipeline) =
      if pipeline.parser.parser_name == parser_name
      then ok pipeline
      else throw (runtime_error "Config error")

  unfoldable pub load_filters : List String → Result (List (Filter Code))
  load_filters [] = ok []
  load_filters (name ∷ names) = load_filter name >>= λ f. load_filters names >>= λ fs. ok (f ∷ fs)

  -- The rest of a round of `reload`, from the pipeline on; `limit` is maxAttempts.
  unfoldable pub new_watcher : ℤ → WatcherConfig → String → Result (Watcher Code)
  unfolding load_filters
  new_watcher limit w id = required w.filters >>= λ names. required w.banaction >>= λ bouncer.
      load_filters names >>= λ filters. ok (record {
        id = id;
        multi_process_id = w.process_id;
        port = w.port;
        limit = value_or w.limit limit;
        filters = filters;
        bouncer = bouncer;
      })

  abbrev pub add_watcher : Pipeline Code → Watcher Code → Pipeline Code
  add_watcher pipeline w = record pipeline { watchers = pipeline.watchers ++ w ∷ [] }

  -- A round of `reload` for an enabled watcher.
  unfoldable pub reload_one :
      ℤ → WatcherConfig → String → Map (Pipeline Code) → Result (Map (Pipeline Code))
  unfolding find_pipeline new_watcher
  reload_one limit w file pipelines = required w.id >>= λ id. required w.parser >>= λ parser_name.
      find_pipeline parser_name file (lookup file pipelines) >>= λ pipeline.
      new_watcher limit w id >>= λ watcher.
      ok (insert file (add_watcher pipeline watcher) pipelines)

  -- Daemon::reload
  unfoldable pub reload :
      ℤ → List WatcherConfig → Map (Pipeline Code) → Result (Map (Pipeline Code))
  unfolding reload_one
  reload limit [] pipelines = ok pipelines
  reload limit (w ∷ ws) pipelines = first_of w.file w.resource w.process_id >>= λ file.
      (if value_or w.enabled true then reload_one limit w file pipelines else ok pipelines)
      >>= reload limit ws

-- The messages of a poll that a watcher gets.
abbrev pub of_process : Option String → List Message → List Message
of_process none messages = messages
of_process (some id) messages = keep (λ m. m.process == id) messages

unfoldable pub filtered_messages : Bool → Option String → List Message → List Message
filtered_messages multiprocess process_id messages =
    if multiprocess then of_process process_id messages else messages

-- `clock` is the clock in the round of `log` for each address.
module _ (inet_pton : Bool → String → Pton) (pcre : Pcre) (ipow : ℤ → ℕ → ℤ) {asio : Asio}
    (clock : String → ℤ) where
  -- What is done with the result of `process`.
  unfoldable pub log_result :
      Watcher pcre.Code
      → MessageBuffer × BanManager asio
      → Result (MessageBuffer × Caught)
      → Result (Unit {0}) × (MessageBuffer × BanManager asio)
  log_result w s (throw e) = (throw e, s)
  log_result w s (ok (buff, caught)) =
      let logged = log ipow clock w caught s.1 in (logged.0, (buff, logged.1))

  -- The loop over the watchers of a pipeline.
  unfoldable pub run_watchers :
      Bool
      → List (Watcher pcre.Code)
      → List Message
      → MessageBuffer × BanManager asio
      → Result (Unit {0}) × (MessageBuffer × BanManager asio)
  unfolding log_result filtered_messages
  run_watchers multiprocess [] messages s = (ok tt, s)
  run_watchers multiprocess (w ∷ ws) messages s =
      and_then
        (log_result w s (
          process inet_pton pcre w (filtered_messages multiprocess w.multi_process_id messages)
            s.0))
        (run_watchers multiprocess ws messages)

  -- What the thread of a pipeline does with the messages of a poll. Without messages it commits the read
  -- state, which is not part of this state: ReadState.commit.
  unfoldable pub handle_poll :
      Pipeline pcre.Code
      → List Message
      → BanManager asio
      → Result (Unit {0}) × (Pipeline pcre.Code × BanManager asio)
  unfolding run_watchers
  handle_poll pipeline messages man =
      if eqb (length messages) 0
      then (ok tt, (pipeline, man))
      else let ran =
          run_watchers pipeline.parser.multiprocess pipeline.watchers messages
            (pipeline.buff, man) in
        (ran.0, (record pipeline { buff = ran.1.0 }, ran.1.1))
