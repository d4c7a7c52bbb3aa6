-- ===== src/Router/Stale.antt =====
-- `Router::insert` with a key that is in use, and then `Router::delete`.
use ocypode.Prelude.{
  ℕ, ◌≡◌, refl, ap, ◌∙◌, inl, inr, false, none, some, List, Bytes, In, lookup, Option-cases,
}
use ocypode.Identity.{ClientId}
use ocypode.Topic.{Topic, TopicFilter, segments_of}
use ocypode.Router.{SubscriptionResponse, SubscriptionKey, key_beq_iff, key_eq}
use ocypode.Router.Removal.{find_path}
use ocypode.Router.Registry
use ocypode.Router.Registry.{DashMap, Router}
use ocypode.Router.Paths.{path_eq, path_eq_refl, at, WellFormed}
use ocypode.Router.Delete.{delete_at_lem}
use ocypode.Router.Missing.{find_path-none}
use ocypode.Router.Matching.{Matches}
use ocypode.Router.Refinement.{subscriber, insert_lem, search_lem}

module _ {D : DashMap} {S : Type 0} where
  -- `delete` of a key whose filter has its path in the trie takes the key from that path only.
  delete_one_path :
      (key : SubscriptionKey) (g : TopicFilter) (tx : S) (r : Router D S)
      → WellFormed r.root
      → D.get r.subscription_kv key ≡ some g
      → subscriber r (segments_of g.bytes) key ≡ some tx
      → (r' : Router D S) × (Registry.delete D key r ≡ some r')
        × WellFormed r'.root
        × ((path : List Bytes)
            → path_eq (segments_of g.bytes) path ≡ false
            → at path r'.root ≡ at path r.root)
  delete_one_path key g tx r w found held =
      elim (Option-cases (find_path (segments_of g.bytes) r.root)) [
        | inl lost ↦
            let empty : subscriber r (segments_of g.bytes) key ≡ none =
              ap (lookup key) (find_path-none (segments_of g.bytes) r.root lost)
              ∙ unfold lookup in refl in
            absurd cc
        | inr (path, on) ↦
            let (root, e, w', changed) = delete_at_lem (segments_of g.bytes) path key r.root w on in
            (
              record { root = root; subscription_kv = D.remove r.subscription_kv key },
              unfold Registry.delete in rw (found, on, e) refl,
              w',
              λ q differs. changed q ∙ rw differs refl,
            )
      ]

  -- In a well-formed router that has a key at the path of a filter, `insert` of the key under a
  -- filter with other segments and then `delete` of the key leave the former entry: `search` for a
  -- topic that the former filter matches still delivers to the former sender.
  pub insert-delete_stale :
      (old tx : S) (c : ClientId) (id : ℕ) (f g : TopicFilter) (topic : Topic) (r : Router D S)
      → let key : SubscriptionKey = record { client_id = c; subscription_id = id } in
        WellFormed r.root
        → subscriber r (segments_of f.bytes) key ≡ some old
        → path_eq (segments_of g.bytes) (segments_of f.bytes) ≡ false
        → Matches (segments_of f.bytes) (segments_of topic.bytes)
        → (r1 r2 : Router D S) × (Registry.insert D tx c id g r ≡ some r1)
          × (Registry.delete D key r1 ≡ some r2)
          × (found : SubscriptionResponse S) × (Registry.search D topic r2 ≡ some found)
          × In (c, record { subscription_id = id; tx = old }) found.subscription_list
  insert-delete_stale old tx c id f g topic r w held differs m =
      let key : SubscriptionKey = record { client_id = c; subscription_id = id } in
      let (r1, e1, w1, index, change) = insert_lem tx c id g r w in
      let renamed : D.get r1.subscription_kv key ≡ some g =
        ap (λ i. D.get i key) index
        ∙ D.get-insert r.subscription_kv key key g
        ∙ rw ((key_beq_iff key key).1 refl) refl in
      let newer : subscriber r1 (segments_of g.bytes) key ≡ some tx =
        change (segments_of g.bytes) key
        ∙ rw ((key_beq_iff key key).1 refl, path_eq_refl (segments_of g.bytes)) refl in
      let (r2, e2, w2, kept) = delete_one_path key g tx r1 w1 renamed newer in
      let (found, ran, _, exact) = search_lem topic r2 w2 in
      let stays : subscriber r2 (segments_of f.bytes) key ≡ some old =
        ap (lookup key) (kept (segments_of f.bytes) differs)
        ∙ change (segments_of f.bytes) key
        ∙ rw differs held in
      (
        r1,
        r2,
        e1,
        e2,
        found,
        ran,
        (exact (c, record { subscription_id = id; tx = old })).1 (segments_of f.bytes, m, stays),
      )
