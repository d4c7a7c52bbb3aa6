-- ===== src/Router/Coherence.antt =====
-- The index and the trie of `Router` under `Router::insert`.
use ocypode.Prelude.{
  ℕ, ◌≡◌, refl, sym, ap, ◌∙◌, inl, inr, Bool, true, false, ◌&&◌, Option, none, some, List, Bytes,
  Bool-cases, if◌then◌else◌,
}
use ocypode.Identity.{ClientId}
use ocypode.Topic.{TopicFilter, segments_of}
use ocypode.Router.{SubscriptionKey, key_beq, key_beq_iff, key_eq}
use ocypode.Router.Registry
use ocypode.Router.Registry.{DashMap, Router}
use ocypode.Router.Paths.{path_eq, path_eq→eq, path_eq_refl, WellFormed}
use ocypode.Router.Refinement.{subscriber, IsCoherent, insert_lem}

pub never {ℓ} : {A : Type ℓ} {o : Option A} {a : A} → o ≡ none → o ≡ some a → ⊥
never p q = cc

no_and : (b : Bool) {c : Bool} → c ≡ false → (b && c) ≡ false
no_and true e = e
no_and false e = refl

module _ {D : DashMap} {S : Type 0} where
  -- What `insert` under a fresh key keeps, from its effect on the trie and on the index.
  module _ (key : SubscriptionKey) (tx : S) (f : TopicFilter) (r r' : Router D S) (v : IsCoherent r)
      (fresh : D.get r.subscription_kv key ≡ none) (w : WellFormed r'.root)
      (index : r'.subscription_kv ≡ D.insert r.subscription_kv key f)
      (change : (path : List Bytes) (j : SubscriptionKey)
        → subscriber r' path j ≡ (
            if path_eq (segments_of f.bytes) path && key_beq key j
            then some tx
            else subscriber r path j)) where
    get_new :
        (j : SubscriptionKey)
        → D.get r'.subscription_kv j ≡ (if key_beq key j then some f else D.get r.subscription_kv j)
    get_new j = ap (λ m. D.get m j) index ∙ D.get-insert r.subscription_kv key j f

    same_key_absent :
        (j : SubscriptionKey) → key_beq key j ≡ true → D.get r.subscription_kv j ≡ none
    same_key_absent j same = ap (D.get r.subscription_kv) (sym ((key_beq_iff key j).0 same)) ∙ fresh

    other_key :
        (path : List Bytes) (j : SubscriptionKey)
        → key_beq key j ≡ false
        → subscriber r' path j ≡ subscriber r path j
    other_key path j differs =
        change path j
        ∙ ap (λ b. if b then some tx else subscriber r path j)
            (no_and (path_eq (segments_of f.bytes) path) differs)

    indexed_new :
        (path : List Bytes) (j : SubscriptionKey) (t : S)
        → subscriber r' path j ≡ some t
        → (g : TopicFilter) × (D.get r'.subscription_kv j ≡ some g) × (segments_of g.bytes ≡ path)
    indexed_new path j t h = elim (Bool-cases (key_beq key j)) [
      | inl same ↦ elim (Bool-cases (path_eq (segments_of f.bytes) path)) [
        | inl here ↦ (f, get_new j ∙ rw same, path_eq→eq (segments_of f.bytes) path here)
        | inr there ↦
            let old : subscriber r path j ≡ some t = rw (there) at (sym (change path j) ∙ h) in
            let (g, e, p) = v.indexed path j t old in absurd (never (same_key_absent j same) e)
      ]
      | inr differs ↦
          let (g, e, p) = v.indexed path j t (sym (other_key path j differs) ∙ h) in
          (g, get_new j ∙ rw differs e, p)
    ]

    stored_new :
        (j : SubscriptionKey) (g : TopicFilter)
        → D.get r'.subscription_kv j ≡ some g
        → (t : S) × (subscriber r' (segments_of g.bytes) j ≡ some t)
    stored_new j g h = elim (Bool-cases (key_beq key j)) [
      | inl same ↦
          let e : some f ≡ some g = rw same at (sym (get_new j) ∙ h) in
          let p : f ≡ g = cc e in
          (
            tx,
            change (segments_of g.bytes) j ∙ rw (same, p, path_eq_refl (segments_of g.bytes)) refl,
          )
      | inr differs ↦
          let e : D.get r.subscription_kv j ≡ some g = rw differs at (sym (get_new j) ∙ h) in
          let (t, s) = v.stored j g e in (t, other_key (segments_of g.bytes) j differs ∙ s)
    ]

    inserted-IsCoherent : IsCoherent r'
    inserted-IsCoherent = record {
      formed = w;
      indexed = λ path j t h. indexed_new path j t h;
      stored = λ j g h. stored_new j g h;
    }

  -- `insert` under a key that is not in use keeps the index and the trie in step: it ends, and the
  -- key is then found at the path of its filter, and nothing else has changed.
  pub insert-IsCoherent :
      (tx : S) (c : ClientId) (id : ℕ) (f : TopicFilter) (r : Router D S)
      → IsCoherent r
      → D.get r.subscription_kv (record { client_id = c; subscription_id = id }) ≡ none
      → let key : SubscriptionKey = record { client_id = c; subscription_id = id } in
        (r' : Router D S) × (Registry.insert D tx c id f r ≡ some r')
        × IsCoherent r'
        × (r'.subscription_kv ≡ D.insert r.subscription_kv key f)
        × ((path : List Bytes) (j : SubscriptionKey)
            → subscriber r' path j ≡ (
                if path_eq (segments_of f.bytes) path && key_beq key j
                then some tx
                else subscriber r path j))
  insert-IsCoherent tx c id f r v fresh =
      let (r', e, w, index, change) = insert_lem tx c id f r v.formed in
      (
        r',
        e,
        inserted-IsCoherent (record { client_id = c; subscription_id = id }) tx f r r' v fresh w
            index change,
        index,
        change,
      )
