-- ===== src/Watcher/Disabled.antt =====
-- src/dnf2b/watcher/Watcher.cpp: all that `process` does where the buffer is disabled.
use doesnotfail2ban.Prelude.{
  String, ◌≡◌, ◌≢◌, refl, sym, ap, ◌∙◌, Bool, false, List, [], ◌∷◌, ◌++◌, map, All, append-nil,
  append_assoc,
}
use doesnotfail2ban.Prelude.Maps.{IsMap, lookup}
use doesnotfail2ban.Prelude.Results.{ok}
use doesnotfail2ban.Structs.{Message}
use doesnotfail2ban.Pcre.{Pcre}
use doesnotfail2ban.Filter.{Filter}
use doesnotfail2ban.Filter.Matching.{GroupsSet}
use doesnotfail2ban.MessageBuffer.{
  MessageBuffer, Pton, bad_domain, Caught, create, done, messages_of,
}
use doesnotfail2ban.MessageBuffer.Disabled.{reported_under, report, forward-disabled, load-disabled}
use doesnotfail2ban.Watcher.{Watcher, merge, run_filters, process}
use doesnotfail2ban.Watcher.Merging.{messages_of-merge, merge-IsMap}

module _ (inet_pton : Bool → String → Pton) (pcre : Pcre) where
  -- What the filters report under an address, one filter after the other: each sees the addresses that
  -- those before it have found.
  abbrev pub reported_by_all : List (Filter pcre.Code) → String → List Message → List Message
  reported_by_all [] ip out = []
  reported_by_all (f ∷ fs) ip out =
      reported_under inet_pton pcre f ip out
      ++ reported_by_all fs ip (map (report inet_pton pcre f) out)

  abbrev report_all : List (Filter pcre.Code) → List Message → List Message
  report_all [] out = out
  report_all (f ∷ fs) out = report_all fs (map (report inet_pton pcre f) out)

  module _ (known : (v6 : Bool) (ip : String) → inet_pton v6 ip ≢ bad_domain) where
    run_filters-disabled :
        (fs : List (Filter pcre.Code)) (m : MessageBuffer) (out : Caught)
        → All (λ (f : Filter pcre.Code). All (GroupsSet pcre) f.patterns) fs
        → m.enable_cache ≡ false
        → IsMap out
        → (caught : Caught) × (run_filters inet_pton pcre fs m out
            ≡ ok (record m { out = report_all fs m.out }, caught))
          × IsMap caught
          × ((ip : String)
              → messages_of ip caught ≡ messages_of ip out ++ reported_by_all fs ip m.out)
    unfolding run_filters
    run_filters-disabled [] m out g d s =
        (out, refl, s, λ ip. sym (append-nil (messages_of ip out)))
    run_filters-disabled (f ∷ fs) m out g d s =
        let (c, e, t, under) = forward-disabled inet_pton pcre known f g.0 m d in
        let m' : MessageBuffer = record m { out = map (report inet_pton pcre f) m.out } in
        let (caught, ran, u, all) =
          run_filters-disabled fs m' (merge c out) g.1 d (merge-IsMap c out s) in
        (
          caught,
          rw e ran,
          u,
          λ ip.
              all ip
              ∙ ap (λ ms. ms ++ reported_by_all fs ip m'.out)
                  (messages_of-merge ip c out t ∙ ap (λ ms. messages_of ip out ++ ms) (under ip))
              ∙ append_assoc (messages_of ip out) _ (reported_by_all fs ip m'.out),
        )

    -- On the buffer of a pipeline whose buffer is disabled, if inet_pton knows both address families and
    -- every group of the filters' patterns takes part in each match, process returns, and leaves the
    -- buffer as it was. Under each address stand exactly the messages, with that address, for which a
    -- filter's first pattern that matches finds it, in the order of the filters and of the messages; a
    -- filter sees the addresses that those before it have found.
    pub process-disabled :
        (w : Watcher pcre.Code) (messages : List Message)
        → All (λ (f : Filter pcre.Code). All (GroupsSet pcre) f.patterns) w.filters
        → (caught : Caught) × (process inet_pton pcre w messages (create false)
            ≡ ok (create false, caught))
          × IsMap caught
          × ((ip : String) → messages_of ip caught ≡ reported_by_all w.filters ip messages)
    unfolding process create done lookup
    process-disabled w messages g =
        let (caught, e, s, all) =
          run_filters-disabled w.filters (record (create false) { out = messages }) [] g refl tt in
        (caught, rw (load-disabled messages (create false) refl, e) refl, s, all)
