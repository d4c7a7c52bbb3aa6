-- ===== src/Router/Forget.antt =====
-- The index and the trie of `Router` under `Router::delete`.
use ocypode.Prelude.{
  ◌≡◌, refl, sym, ap, ◌∙◌, inl, inr, Bool, true, false, Option, none, some, List, Bytes, lookup,
  remove, lookup-remove, Bool-cases, Option-cases, if◌then◌else◌,
}
use ocypode.Topic.{TopicFilter, segments_of}
use ocypode.Router.{SubscriptionKey, key_beq, key_beq_iff, key_eq, Node}
use ocypode.Router.Removal.{find_path}
use ocypode.Router.Registry
use ocypode.Router.Registry.{DashMap, Router}
use ocypode.Router.Paths.{path_eq, path_eq_refl, at, WellFormed}
use ocypode.Router.Reach.{Deleted}
use ocypode.Router.Delete.{delete_at_lem}
use ocypode.Router.Missing.{find_path-none}
use ocypode.Router.Refinement.{subscriber, IsCoherent}
use ocypode.Router.Coherence.{never}

module _ {D : DashMap} {S : Type 0} where
  -- What `delete` does to a coherent router: it forgets the key, everywhere, and nothing else.
  abbrev pub Forgets : SubscriptionKey → Router D S → Router D S → Type 0
  Forgets key r r' =
      ((path : List Bytes) (j : SubscriptionKey)
        → subscriber r' path j ≡ (if key_beq key j then none else subscriber r path j))
      × ((j : SubscriptionKey)
          → D.get r'.subscription_kv j
            ≡ (if key_beq key j then none else D.get r.subscription_kv j))

  forget-IsCoherent :
      (key : SubscriptionKey) (r r' : Router D S)
      → IsCoherent r
      → WellFormed r'.root
      → Forgets key r r'
      → IsCoherent r'
  forget-IsCoherent key r r' v w (trie, index) = record {
    formed = w;
    indexed = λ path j t h. indexed path j t h;
    stored = λ j g h. stored j g h;
  }
    where
      indexed :
          (path : List Bytes) (j : SubscriptionKey) (t : S)
          → subscriber r' path j ≡ some t
          → (g : TopicFilter) × (D.get r'.subscription_kv j ≡ some g) × (segments_of g.bytes ≡ path)
      indexed path j t h = elim (Bool-cases (key_beq key j)) [
        | inl same ↦ absurd (never (trie path j ∙ rw same refl) h)
        | inr differs ↦
            let old : subscriber r path j ≡ some t = rw differs at (sym (trie path j) ∙ h) in
            let (g, e, p) = v.indexed path j t old in (g, index j ∙ rw differs e, p)
      ]

      stored :
          (j : SubscriptionKey) (g : TopicFilter)
          → D.get r'.subscription_kv j ≡ some g
          → (t : S) × (subscriber r' (segments_of g.bytes) j ≡ some t)
      stored j g h = elim (Bool-cases (key_beq key j)) [
        | inl same ↦ absurd (never (index j ∙ rw same refl) h)
        | inr differs ↦
            let e : D.get r.subscription_kv j ≡ some g = rw differs at (sym (index j) ∙ h) in
            let (t, s) = v.stored j g e in (t, trie (segments_of g.bytes) j ∙ rw differs s)
      ]

  -- In a coherent router a key stands only at the path of its filter.
  elsewhere :
      (key : SubscriptionKey) (r : Router D S) (path : List Bytes) (o : Option TopicFilter)
      → IsCoherent r
      → D.get r.subscription_kv key ≡ o
      → ((f : TopicFilter) → o ≡ some f → ¬ (segments_of f.bytes ≡ path))
      → subscriber r path key ≡ none
  elsewhere key r path o v found other = elim (Option-cases (subscriber r path key)) [
    | inl e ↦ e
    | inr (t, e) ↦ let (g, h, p) = v.indexed path key t e in absurd (other g (sym found ∙ h) p)
  ]

  absent_key :
      (key : SubscriptionKey) (r : Router D S)
      → IsCoherent r
      → D.get r.subscription_kv key ≡ none
      → Forgets key r r
  absent_key key r v gone = (trie, index)
    where
      trie :
          (path : List Bytes) (j : SubscriptionKey)
          → subscriber r path j ≡ (if key_beq key j then none else subscriber r path j)
      trie path j = elim (Bool-cases (key_beq key j)) [
        | inl same ↦ rw same (
            elsewhere j r path none v
              (ap (D.get r.subscription_kv) (sym ((key_beq_iff key j).0 same)) ∙ gone)
              (λ f e. absurd (never {A = TopicFilter} refl e)))
        | inr differs ↦ rw differs refl
      ]

      index :
          (j : SubscriptionKey)
          → D.get r.subscription_kv j ≡ (if key_beq key j then none else D.get r.subscription_kv j)
      index j = elim (Bool-cases (key_beq key j)) [
        | inl same ↦
            rw same (ap (D.get r.subscription_kv) (sym ((key_beq_iff key j).0 same)) ∙ gone)
        | inr differs ↦ rw differs refl
      ]

  delete_found :
      (key : SubscriptionKey) (f : TopicFilter) (r : Router D S)
      → IsCoherent r
      → D.get r.subscription_kv key ≡ some f
      → (root : Node S) → Deleted (segments_of f.bytes) key r.root root
      → Forgets key r (record { root = root; subscription_kv = D.remove r.subscription_kv key })
  delete_found key f r v found root changed = (trie, λ j. D.get-remove r.subscription_kv key j)
    where
      trie :
          (path : List Bytes) (j : SubscriptionKey)
          → lookup j (at path root) ≡ (if key_beq key j then none else subscriber r path j)
      trie path j = ap (lookup j) (changed path) ∙ by_path (path_eq (segments_of f.bytes) path) refl
        where
          by_path :
              (b : Bool)
              → path_eq (segments_of f.bytes) path ≡ b
              → lookup j (if b then remove key (at path r.root) else at path r.root)
                ≡ (if key_beq key j then none else subscriber r path j)
          by_path true e = unfold key_eq in lookup-remove key j (at path r.root)
          by_path false e = elim (Bool-cases (key_beq key j)) [
            | inl same ↦ rw same (
                elsewhere j r path (some f) v
                  (ap (D.get r.subscription_kv) (sym ((key_beq_iff key j).0 same)) ∙ found)
                  (λ g p q. clash (cc p) q e))
            | inr differs ↦ rw differs refl
          ]
            where
              clash :
                  {g : TopicFilter}
                  → f ≡ g
                  → segments_of g.bytes ≡ path
                  → path_eq (segments_of f.bytes) path ≡ false
                  → ⊥
              clash p q e =
                  let same : path_eq (segments_of f.bytes) path ≡ true =
                    ap (path_eq (segments_of f.bytes)) (sym (ap (λ h. segments_of h.bytes) p ∙ q))
                    ∙ path_eq_refl (segments_of f.bytes) in
                  cc

  -- `delete` in a coherent router never panics. It forgets the key, and nothing else, whether the
  -- key is in use or not, and keeps the router coherent.
  pub delete-IsCoherent :
      (key : SubscriptionKey) (r : Router D S)
      → IsCoherent r
      → (r' : Router D S) × (Registry.delete D key r ≡ some r') × IsCoherent r' × Forgets key r r'
  delete-IsCoherent key r v = elim (Option-cases (D.get r.subscription_kv key)) [
    | inl gone ↦ (r, unfold Registry.delete in rw gone refl, v, absent_key key r v gone)
    | inr (f, found) ↦ elim (Option-cases (find_path (segments_of f.bytes) r.root)) [
      | inl lost ↦
          let (t, e) = v.stored key f found in
          absurd (
            never
              (ap (lookup key) (find_path-none (segments_of f.bytes) r.root lost)
                ∙ unfold lookup in refl)
              e)
      | inr (path, on) ↦
          let (root, e, w, changed) =
            delete_at_lem (segments_of f.bytes) path key r.root v.formed on in
          let forgets = delete_found key f r v found root changed in
          (
            record { root = root; subscription_kv = D.remove r.subscription_kv key },
            unfold Registry.delete in rw (found, on, e) refl,
            forget-IsCoherent key r
                (record { root = root; subscription_kv = D.remove r.subscription_kv key }) v w
                forgets,
            forgets,
          )
    ]
  ]
