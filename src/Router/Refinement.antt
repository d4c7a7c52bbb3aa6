-- ===== src/Router/Refinement.antt =====
-- The router against its specification: a map from subscription keys to filters and senders.
use ocypode.Prelude.{
  ℕ, ◌≡◌, refl, ap, ◌∙◌, ◌⊎◌, inl, inr, ◌↔◌, Bool, true, false, Option, none, some, List, [], ◌∷◌,
  arith, Bytes, In, lookup, insert, lookup-insert, if◌then◌else◌, ◌&&◌,
}
use ocypode.Identity.{ClientId}
use ocypode.Topic.{Topic, TopicFilter, segments_of}
use ocypode.Router.{Entry, SubscriptionResponse, SubscriptionKey, key_beq, key_eq, fresh}
use ocypode.Router.Delivery.{weight}
use ocypode.Router.Registry
use ocypode.Router.Registry.{DashMap, Router}
use ocypode.Router.Paths.{path_eq, at, at-fresh, at-WellFormed, WellFormed, fresh-WellFormed}
use ocypode.Router.Insert.{insert_at_lem}
use ocypode.Router.Matching.{Matches, Delivers, key_of, entry-lookup}
use ocypode.Router.Search.{search_loop_lem}

module _ {D : DashMap} {S : Type 0} where
  -- The sender under a key at a path of the trie.
  abbrev pub subscriber : Router D S → List Bytes → SubscriptionKey → Option S
  subscriber r path key = lookup key (at path r.root)

  -- The trie is well formed, and holds a key at a path exactly if the index maps the key to a
  -- filter with the segments of the path.
  pub record IsCoherent (r : Router D S) : Type 0 where
    pub formed : WellFormed r.root
    pub indexed :
        (path : List Bytes) (key : SubscriptionKey) (tx : S)
        → subscriber r path key ≡ some tx
        → (f : TopicFilter) × (D.get r.subscription_kv key ≡ some f) × (segments_of f.bytes ≡ path)
    pub stored :
        (key : SubscriptionKey) (f : TopicFilter)
        → D.get r.subscription_kv key ≡ some f
        → (tx : S) × (subscriber r (segments_of f.bytes) key ≡ some tx)

  pub new-IsCoherent : IsCoherent (Registry.new D)
  unfolding Registry.new lookup
  new-IsCoherent = record {
    formed = fresh-WellFormed [];
    indexed = λ path key tx h. absurd (nowhere path key tx h);
    stored = λ key f h. absurd (no_filter (D.get-new key) h);
  }
    where
      nowhere :
          (path : List Bytes) (key : SubscriptionKey) (tx : S)
          → ¬ (lookup key (at path (fresh {S = S} [])) ≡ some tx)
      nowhere path key tx h = let e : none ≡ some tx = rw (at-fresh {S = S} [] path) at h in cc

      no_filter : {o : Option TopicFilter} {f : TopicFilter} → o ≡ none → ¬ (o ≡ some f)
      no_filter p q = cc

  -- A well-formed trie stays so under `insert`, which changes one path and one key.
  pub insert_lem :
      (tx : S) (c : ClientId) (id : ℕ) (f : TopicFilter) (r : Router D S)
      → WellFormed r.root
      → let key : SubscriptionKey = record { client_id = c; subscription_id = id } in
        (r' : Router D S) × (Registry.insert D tx c id f r ≡ some r')
        × WellFormed r'.root
        × (r'.subscription_kv ≡ D.insert r.subscription_kv key f)
        × ((path : List Bytes) (j : SubscriptionKey)
            → subscriber r' path j ≡ (
                if path_eq (segments_of f.bytes) path && key_beq key j
                then some tx
                else subscriber r path j))
  insert_lem tx c id f r w =
      let key : SubscriptionKey = record { client_id = c; subscription_id = id } in
      let (root, e, _, wf, changed) = insert_at_lem (segments_of f.bytes) key tx r.root w in
      (
        record { root = root; subscription_kv = D.insert r.subscription_kv key f },
        unfold Registry.insert in rw e refl,
        wf,
        refl,
        λ path j.
            ap (lookup j) (changed path) ∙ by_path (path_eq (segments_of f.bytes) path) path j,
      )
    where
      by_path :
          (b : Bool) (path : List Bytes) (j : SubscriptionKey)
          → lookup j (
              if b
              then insert (record { client_id = c; subscription_id = id }) tx (at path r.root)
              else at path r.root)
            ≡ (if b && key_beq (record { client_id = c; subscription_id = id }) j
                then some tx
                else subscriber r path j)
      by_path true path j =
          unfold key_eq in
          lookup-insert (record { client_id = c; subscription_id = id }) j tx (at path r.root)
      by_path false path j = refl

  -- The entry stands in the trie at a path that matches the topic.
  abbrev pub Wanted : Router D S → Topic → Entry S → Type 0
  Wanted r topic e =
      (path : List Bytes) × Matches path (segments_of topic.bytes)
      × (subscriber r path (key_of e) ≡ some e.1.tx)

  -- `search` in a well-formed trie ends with exactly the entries that stand at a matching path, and
  -- with no queue group.
  pub search_lem :
      (topic : Topic) (r : Router D S)
      → WellFormed r.root
      → (found : SubscriptionResponse S) × (Registry.search D topic r ≡ some found)
        × (found.queue_group_list ≡ [])
        × ((e : Entry S) → In e found.subscription_list ↔ Wanted r topic e)
  search_lem topic r w =
      let start : SubscriptionResponse S = record {
        subscription_list = [];
        queue_group_list = [];
      } in
      let (found, e, groups, exact) =
        search_loop_lem (weight r.root) ((r.root, segments_of topic.bytes) ∷ []) start (w, tt)
          (omega arith) in
      (
        found,
        unfold Registry.search in e,
        groups,
        λ x. (λ i. out x ((exact x).0 i), λ d. (exact x).1 (inr (inl (back x d)))),
      )
    where
      out : (x : Entry S) → ⊥ ⊎ (Delivers r.root (segments_of topic.bytes) x ⊎ ⊥) → Wanted r topic x
      out x (inl i) = absurd i
      out x (inr (inr i)) = absurd i
      out x (inr (inl (path, m, i))) =
          (path, m, (entry-lookup x (at path r.root) (at-WellFormed path w)).0 i)

      back : (x : Entry S) → Wanted r topic x → Delivers r.root (segments_of topic.bytes) x
      back x (path, m, h) = (path, m, (entry-lookup x (at path r.root) (at-WellFormed path w)).1 h)
