-- ===== src/Watcher/Merging.antt =====
-- src/dnf2b/watcher/Watcher.cpp: how the messages that the filters catch come together.
use doesnotfail2ban.Prelude.{
  String, ◌==◌, ◌≡◌, ◌≢◌, refl, sym, ap, ◌∙◌, Bool, List, [], ◌∷◌, ◌++◌, arith, if◌then◌else◌,
  eq_iff, Option-cases, inl, inr, append_assoc, append-nil, All, All-append, length-append,
}
use doesnotfail2ban.Prelude.Maps.{
  insert-IsMap, lookup, lookup-insert, IsMap, Above, lookup-Above, AllEntries, AllEntries-insert,
  AllEntries-lookup,
}
use doesnotfail2ban.Prelude.Results.{ok}
use doesnotfail2ban.Structs.{Message}
use doesnotfail2ban.Pcre.{Pcre}
use doesnotfail2ban.Filter.{Filter}
use doesnotfail2ban.Filter.Matching.{GroupsSet}
use doesnotfail2ban.MessageBuffer.{messages_of, MessageBuffer, Pton, bad_domain, Caught, load, done}
use doesnotfail2ban.MessageBuffer.Caught.{IsCaughtAt, forward-caught}
use doesnotfail2ban.Watcher.{Watcher, merge_one, merge, run_filters, process}

messages_of-merge_one :
    (k j : String) (v : List Message) (out : Caught)
    → messages_of j (merge_one k v out) ≡ messages_of j out ++ (if k == j then v else [])
unfolding merge_one
messages_of-merge_one k j v out = elim (Option-cases (lookup k out)) [
  | inl e ↦
      rw e (ground (arith, eq_iff k j, lookup-insert k j v out, append-nil (messages_of j out)))
  | inr (ms, e) ↦
      rw e (
        ground (arith, eq_iff k j, lookup-insert k j (ms ++ v) out, append-nil (messages_of j out)))
]

messages_of-entry :
    (k j : String) (v : List Message) (rest : Caught)
    → Above k rest
    → (if k == j then v else []) ++ messages_of j rest ≡ messages_of j ((k, v) ∷ rest)
unfolding lookup
messages_of-entry k j v rest h = ground (arith, eq_iff k j, lookup-Above k rest h, append-nil v)

done-out : (m : MessageBuffer) → (done m).out ≡ []
unfolding done
done-out m = ground arith

-- What the merged map has under an address is what it had, and then what the other map has there.
pub messages_of-merge :
    (j : String) (caught out : Caught)
    → IsMap caught
    → messages_of j (merge caught out) ≡ messages_of j out ++ messages_of j caught
unfolding merge lookup
messages_of-merge j [] out s = sym (append-nil (messages_of j out))
messages_of-merge j ((k, v) ∷ rest) out s =
    messages_of-merge j rest (merge_one k v out) s.1
    ∙ rw (messages_of-merge_one k j v out) (
        append_assoc (messages_of j out) (if k == j then v else []) (messages_of j rest)
        ∙ ap (λ ms. messages_of j out ++ ms) (messages_of-entry k j v rest s.0))

-- The merged map is in order.
pub merge-IsMap : (caught out : Caught) → IsMap out → IsMap (merge caught out)
unfolding merge merge_one
merge-IsMap [] out s = s
merge-IsMap ((k, v) ∷ rest) out s =
    merge-IsMap rest (merge_one k v out) (elim (Option-cases (lookup k out)) [
      | inl e ↦ rw e (insert-IsMap k v out s)
      | inr (ms, e) ↦ rw e (insert-IsMap k (ms ++ v) out s)
    ])

module _ (inet_pton : Bool → String → Pton) where
  merge_one-AllEntries :
      (k : String) (v : List Message) (out : Caught)
      → IsCaughtAt inet_pton k v
      → AllEntries (IsCaughtAt inet_pton) out
      → AllEntries (IsCaughtAt inet_pton) (merge_one k v out)
  unfolding merge_one
  merge_one-AllEntries k v out c h = elim (Option-cases (lookup k out)) [
    | inl e ↦ rw e (AllEntries-insert (IsCaughtAt inet_pton) k v out c h)
    | inr (ms, e) ↦ rw e (
        let d = AllEntries-lookup (IsCaughtAt inet_pton) k ms out h e in
        AllEntries-insert (IsCaughtAt inet_pton) k (ms ++ v) out
          (c.0, c.1, omega (arith, d.2, length-append ms v), All-append _ ms v d.3 c.3) h)
  ]

  merge-AllEntries :
      (caught out : Caught)
      → AllEntries (IsCaughtAt inet_pton) caught
      → AllEntries (IsCaughtAt inet_pton) out
      → AllEntries (IsCaughtAt inet_pton) (merge caught out)
  unfolding merge
  merge-AllEntries [] out c h = h
  merge-AllEntries ((k, v) ∷ rest) out c h =
      merge-AllEntries rest (merge_one k v out) c.1 (merge_one-AllEntries k v out c.0 h)

  module _ (pcre : Pcre) (known : (v6 : Bool) (ip : String) → inet_pton v6 ip ≢ bad_domain) where
    run_filters-caught :
        (fs : List (Filter pcre.Code)) (buff : MessageBuffer) (out : Caught)
        → All (λ (f : Filter pcre.Code). All (GroupsSet pcre) f.patterns) fs
        → AllEntries (IsCaughtAt inet_pton) out
        → (r : MessageBuffer × Caught) × (run_filters inet_pton pcre fs buff out ≡ ok r)
          × AllEntries (IsCaughtAt inet_pton) r.1
    unfolding run_filters
    run_filters-caught [] buff out g h = ((buff, out), refl, h)
    run_filters-caught (f ∷ fs) buff out g h =
        let (r, e, c) = forward-caught inet_pton pcre f known g.0 buff in
        rw e (run_filters-caught fs r.0 (merge r.1 out) g.1 (merge-AllEntries r.1 out c h))

    -- If inet_pton knows both address families and every group of the filters' patterns takes part in
    -- each match, process returns and leaves no message in `out`. An address that it reports is not
    -- empty, is one that inet_pton accepts for the family that its colons show, and has at least one
    -- message, each with that address.
    pub process-caught :
        (w : Watcher pcre.Code) (messages : List Message) (buff : MessageBuffer)
        → All (λ (f : Filter pcre.Code). All (GroupsSet pcre) f.patterns) w.filters
        → (r : MessageBuffer × Caught) × (process inet_pton pcre w messages buff ≡ ok r)
          × (r.0.out ≡ [])
          × AllEntries (IsCaughtAt inet_pton) r.1
    unfolding process
    process-caught w messages buff g =
        let (r, e, c) = run_filters-caught w.filters (load messages buff) [] g tt in
        rw e ((done r.0, r.1), refl, done-out r.0, c)
