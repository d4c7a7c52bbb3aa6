-- ===== src/Router/Examples.antt =====
-- The theorems on crates/server/src/router.rs at concrete inputs, with an association list in the
-- place of the map.
use ocypode.Prelude.{
  ok, ◌≤◌, ℕ, ◌≡◌, refl, sym, subst, ◌∙◌, ◌&&◌, ◌↔◌, ◌⊎◌, inl, inr, Bool, true, false, Option, none,
  some, List, [], ◌∷◌, arith, Bytes, codes, In, lookup, insert, remove, lookup-insert,
  lookup-remove, if◌then◌else◌, length,
}
use ocypode.Identity.{ClientId}
use ocypode.Topic.{Topic, TopicFilter, segments_of, new_topic}
use ocypode.Router.{
  Entry, Subscription, SubscriptionKey, SubscriptionResponse, Node, node, absent, present, nil,
  cons, key_beq, key_eq, ◌>>=◌, fresh,
}
use ocypode.Router.Fixtures.{table}
use ocypode.Router.Registry
use ocypode.Router.Registry.{DashMap, Router}
use ocypode.Router.Paths.{path_eq, WellFormed}
use ocypode.Router.Matching.{Matches}
use ocypode.Router.Refinement.{subscriber, IsCoherent, new-IsCoherent, search_lem, Wanted}
use ocypode.Router.Coherence.{insert-IsCoherent}
use ocypode.Router.Forget.{delete-IsCoherent, Forgets}
use ocypode.Router.Runs.{
  Op, subscribe, unsubscribe, IsFresh, run, replay, view, Chosen, run_refines, run-new_delivers,
}
use ocypode.Router.Count.{occurs}
use ocypode.Router.Once.{search_once}
use ocypode.Router.Stale.{insert-delete_stale}

abbrev key : ℕ → ℕ → SubscriptionKey
key c id = record { client_id = record { value = c }; subscription_id = id }

abbrev filter : Bytes → TopicFilter
filter b = record { bytes = b }

abbrev topic : Bytes → Topic
topic b = record { bytes = b }

abbrev client : ℕ → ClientId
client c = record { value = c }

-- Senders are numbers.
abbrev calls : List (Op ℕ)
calls =
    subscribe 10 (client 1) 1 (filter (codes "a/b"))
    ∷ subscribe 20 (client 2) 1 (filter (codes "a/+"))
    ∷ subscribe 30 (client 3) 1 (filter (codes "a/#"))
    ∷ unsubscribe (key 2 1)
    ∷ []

abbrev searched : Bytes → Option (Router table ℕ) → Option (SubscriptionResponse ℕ)
unfolding Registry.search
searched t r = r >>= λ s. Registry.search table (topic t) s

delivered :
    searched (codes "a/b") (run calls (Registry.new table))
    ≡ some (record {
      subscription_list =
          (client 3, record { subscription_id = 1; tx = 30 })
          ∷ (client 1, record { subscription_id = 1; tx = 10 })
          ∷ [];
      queue_group_list = [];
    })
unfolding table Registry.insert Registry.delete Registry.new Registry.search lookup insert remove
    ocypode.Prelude.bytes_eq
delivered = refl

calls-IsFresh : IsFresh calls (λ _. none)
unfolding key_beq
calls-IsFresh = (refl, (refl, (refl, tt)))

-- A router with one subscription.
abbrev one : Router table ℕ
unfolding table
one = record {
  root =
      node [] [] []
        (present (
          cons
            (node (codes "a") [] []
              (present (cons (node (codes "b") ((key 1 1, 10) ∷ []) [] absent false false) nil))
              false false)
            nil))
        false false;
  subscription_kv = (key 1 1, filter (codes "a/b")) ∷ [];
}

one_lem :
    Registry.insert table 10 (client 1) 1 (filter (codes "a/b")) (Registry.new table) ≡ some one
unfolding table one Registry.insert Registry.new insert ocypode.Prelude.bytes_eq
one_lem = refl

absent_new : table.get (Registry.new table {S = ℕ}).subscription_kv (key 1 1) ≡ none
unfolding table Registry.new lookup
absent_new = refl

one-IsCoherent : IsCoherent one
one-IsCoherent =
    let (r, e, v, _, _) =
      insert-IsCoherent 10 (client 1) 1 (filter (codes "a/b")) (Registry.new table) new-IsCoherent
        absent_new in
    subst IsCoherent (some_injective (sym e ∙ one_lem)) v
  where
    some_injective : {r s : Router table ℕ} → some r ≡ some s → r ≡ s
    some_injective e = cc

one_held : subscriber one (segments_of (codes "a/b")) (key 1 1) ≡ some 10
unfolding one lookup key_eq segments_of ocypode.Router.Paths.at ocypode.Prelude.bytes_eq
one_held = refl

absent_2 : table.get one.subscription_kv (key 2 1) ≡ none
unfolding table one lookup key_eq key_beq
absent_2 = refl

x_not_ab : path_eq (segments_of (codes "x")) (segments_of (codes "a/b")) ≡ false
unfolding segments_of ocypode.Prelude.bytes_eq
x_not_ab = refl

ab-Matches : Matches (segments_of (codes "a/b")) (segments_of (codes "a/b"))
unfolding segments_of
ab-Matches = inr (inl refl, inr (inl refl, tt))

insert-IsCoherent_example :
    (r' : Router table ℕ) × (Registry.insert table 20 (client 2) 1 (filter (codes "a/+")) one
      ≡ some r')
    × IsCoherent r'
    × (r'.subscription_kv ≡ table.insert one.subscription_kv (key 2 1) (filter (codes "a/+")))
    × ((path : List Bytes) (j : SubscriptionKey)
        → subscriber r' path j ≡ (
            if path_eq (segments_of (codes "a/+")) path && key_beq (key 2 1) j
            then some 20
            else subscriber one path j))
insert-IsCoherent_example =
    insert-IsCoherent 20 (client 2) 1 (filter (codes "a/+")) one one-IsCoherent absent_2

delete-IsCoherent_example :
    (r' : Router table ℕ) × (Registry.delete table (key 1 1) one ≡ some r')
    × IsCoherent r'
    × Forgets (key 1 1) one r'
delete-IsCoherent_example = delete-IsCoherent (key 1 1) one one-IsCoherent

search_lem_example :
    (found : SubscriptionResponse ℕ) × (Registry.search table (topic (codes "a/b")) one
      ≡ some found)
    × (found.queue_group_list ≡ [])
    × ((e : Entry ℕ) → In e found.subscription_list ↔ Wanted one (topic (codes "a/b")) e)
search_lem_example = search_lem (topic (codes "a/b")) one one-IsCoherent.formed

run_refines_example :
    (r' : Router table ℕ) × (run (unsubscribe (key 1 1) ∷ []) one ≡ some r')
    × IsCoherent r'
    × (view r' ≡ replay (unsubscribe (key 1 1) ∷ []) (view one))
run_refines_example = run_refines (unsubscribe (key 1 1) ∷ []) one one-IsCoherent tt

run-new_delivers_example :
    (r : Router table ℕ) × (run calls (Registry.new table) ≡ some r)
    × (found : SubscriptionResponse ℕ) × (Registry.search table (topic (codes "a/b")) r
        ≡ some found)
    × (found.queue_group_list ≡ [])
    × ((e : Entry ℕ)
        → In e found.subscription_list ↔ Chosen (replay calls (λ _. none)) (topic (codes "a/b")) e)
run-new_delivers_example = run-new_delivers calls (topic (codes "a/b")) calls-IsFresh

-- The key of `one` again, under another filter, and then given up.
insert-delete_stale_example :
    (r1 r2 : Router table ℕ) × (Registry.insert table 11 (client 1) 1 (filter (codes "x")) one
      ≡ some r1)
    × (Registry.delete table (key 1 1) r1 ≡ some r2)
    × (found : SubscriptionResponse ℕ) × (Registry.search table (topic (codes "a/b")) r2
        ≡ some found)
    × In (client 1, record { subscription_id = 1; tx = 10 }) found.subscription_list
insert-delete_stale_example =
    insert-delete_stale 10 11 (client 1) 1 (filter (codes "a/b")) (filter (codes "x"))
      (topic (codes "a/b")) one one-IsCoherent.formed one_held x_not_ab ab-Matches

topic_ab : new_topic (codes "a/b") ≡ ok (topic (codes "a/b"))
unfolding new_topic
topic_ab = refl

search_once_example :
    (found : SubscriptionResponse ℕ) × (Registry.search table (topic (codes "a/b")) one
      ≡ some found)
    × ((e : Entry ℕ) → In e found.subscription_list ↔ Wanted one (topic (codes "a/b")) e)
    × ((k : SubscriptionKey) → occurs k found.subscription_list ≤ 1)
search_once_example = search_once (codes "a/b") (topic (codes "a/b")) one topic_ab one-IsCoherent
