-- ===== src/Daemon/Reloading.antt =====
-- src/dnf2b/core/Daemon.cpp: the pipelines that `reload` makes of the configured watchers.
use doesnotfail2ban.Prelude.{
  ◌<◌, String, ◌==◌, ◌≡◌, refl, Bool, true, false, Option, none, some, List, [], ◌∷◌, arith, length,
  length-append, if◌then◌else◌, value_or, Bool-cases, Option-cases, inl, inr,
}
use doesnotfail2ban.Prelude.Int.{ℤ}
use doesnotfail2ban.Prelude.Maps.{Map, lookup, AllEntries, AllEntries-insert, AllEntries-lookup}
use doesnotfail2ban.Prelude.Results.{Result, ok, Ensures, >>=-Ensures, >>=-Ensures_any}
use doesnotfail2ban.Filter.{Filter}
use doesnotfail2ban.MessageBuffer.{create}
use doesnotfail2ban.Parsers.{Parser}
use doesnotfail2ban.Daemon.{
  WatcherConfig, Pipeline, required, first_of, started, find_pipeline, new_watcher, add_watcher,
  reload_one, reload,
}

module _ {Code : Type 0} (load_parser : String → String → Result (Option (Parser Code)))
    (load_filter : String → Result (Filter Code)) (enable_buffer : Parser Code → Bool) where
  -- A pipeline before its first poll: the buffer is empty, and enabled as the parser asks.
  abbrev IsFresh : Pipeline Code → Type 0
  IsFresh pipeline = pipeline.buff ≡ create (enable_buffer pipeline.parser)

  abbrev pub IsReady : String → Pipeline Code → Type 0
  IsReady file pipeline = IsFresh pipeline × (0 < length pipeline.watchers)

  started-IsFresh :
      (p : Option (Parser Code)) → Ensures IsFresh (started load_parser load_filter enable_buffer p)
  started-IsFresh none = tt
  started-IsFresh (some p) = refl

  find_pipeline-IsFresh :
      (parser_name file : String) (pipelines : Map (Pipeline Code))
      → AllEntries IsReady pipelines
      → Ensures IsFresh (
          find_pipeline load_parser load_filter enable_buffer parser_name file
            (lookup file pipelines))
  unfolding find_pipeline
  find_pipeline-IsFresh parser_name file pipelines h = elim (Option-cases (lookup file pipelines)) [
    | inl e ↦ rw e (>>=-Ensures_any IsFresh (load_parser parser_name file) _ started-IsFresh)
    | inr (pipeline, e) ↦ rw e (elim (Bool-cases (pipeline.parser.parser_name == parser_name)) [
      | inl t ↦ rw t (AllEntries-lookup IsReady file pipeline pipelines h e).0
      | inr f ↦ rw f tt
    ])
  ]

  reload_one-IsReady :
      (limit : ℤ) (w : WatcherConfig) (file : String) (pipelines : Map (Pipeline Code))
      → AllEntries IsReady pipelines
      → Ensures
          (AllEntries IsReady)
          (reload_one load_parser load_filter enable_buffer limit w file pipelines)
  unfolding reload_one
  reload_one-IsReady limit w file pipelines h =
      >>=-Ensures_any (AllEntries IsReady) (required w.id) _ (λ id.
        >>=-Ensures_any (AllEntries IsReady) (required w.parser) _ (λ name.
          >>=-Ensures IsFresh (AllEntries IsReady) _ _ (find_pipeline-IsFresh name file pipelines h)
            (λ pipeline fresh.
              >>=-Ensures_any (AllEntries IsReady)
                (new_watcher load_parser load_filter enable_buffer limit w id) _
                (λ watcher.
                  AllEntries-insert IsReady file
                    (add_watcher load_parser load_filter enable_buffer pipeline watcher) pipelines
                    (fresh, omega (arith, length-append pipeline.watchers (watcher ∷ []))) h))))

  enabled_or_not :
      (limit : ℤ) (w : WatcherConfig) (enabled : Bool) (file : String)
      (pipelines : Map (Pipeline Code))
      → AllEntries IsReady pipelines
      → Ensures (AllEntries IsReady) (
          if enabled
          then reload_one load_parser load_filter enable_buffer limit w file pipelines
          else ok pipelines)
  enabled_or_not limit w true file pipelines h = reload_one-IsReady limit w file pipelines h
  enabled_or_not limit w false file pipelines h = h

  -- Whatever watchers are configured: when reload returns, each pipeline has a watcher, and its buffer is
  -- empty and enabled exactly if its parser asks for that, if this was so of the pipelines before.
  pub reload-IsReady :
      (limit : ℤ) (ws : List WatcherConfig) (pipelines : Map (Pipeline Code))
      → AllEntries IsReady pipelines
      → Ensures
          (AllEntries IsReady)
          (reload load_parser load_filter enable_buffer limit ws pipelines)
  unfolding reload
  reload-IsReady limit [] pipelines h = h
  reload-IsReady limit (w ∷ ws) pipelines h =
      >>=-Ensures_any (AllEntries IsReady) (first_of w.file w.resource w.process_id) _ (λ file.
        >>=-Ensures (AllEntries IsReady) (AllEntries IsReady) _ _
          (enabled_or_not limit w (value_or w.enabled true) file pipelines h)
          (λ after k. reload-IsReady limit ws after k))
