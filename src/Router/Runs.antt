-- ===== src/Router/Runs.antt =====
-- Any sequence of `insert` and `delete` calls on a new router, and a `search` after it, against a
-- map from keys to filters and senders.
use ocypode.Prelude.{
  ℕ, ◌≡◌, refl, sym, ap, fun_ext, ◌∙◌, subst, inl, inr, ◌↔◌, Bool, true, false, ◌&&◌, Option, none,
  some, List, [], ◌∷◌, Bytes, In, Bool-cases, Option-cases, if◌then◌else◌,
}
use ocypode.Identity.{ClientId}
use ocypode.Topic.{Topic, TopicFilter, segments_of}
use ocypode.Router.{Entry, SubscriptionResponse, SubscriptionKey, key_beq, ◌>>=◌}
use ocypode.Router.Registry
use ocypode.Router.Registry.{DashMap, Router}
use ocypode.Router.Paths.{path_eq, path_eq_refl}
use ocypode.Router.Matching.{Matches, key_of}
use ocypode.Router.Refinement.{subscriber, IsCoherent, new-IsCoherent, search_lem, Wanted}
use ocypode.Router.Coherence.{insert-IsCoherent}
use ocypode.Router.Forget.{delete-IsCoherent, Forgets}

pub data Op (S : Type 0) : Type 0 where
  subscribe : S → ClientId → ℕ → TopicFilter → Op S
  unsubscribe : SubscriptionKey → Op S

abbrev pub Subscriptions : Type 0 → Type 0
Subscriptions S = SubscriptionKey → Option (TopicFilter × S)

module _ {S : Type 0} where
  -- The same calls on the map.
  abbrev pub put : SubscriptionKey → Option (TopicFilter × S) → Subscriptions S → Subscriptions S
  put key v m j = if key_beq key j then v else m j

  abbrev pub replay : List (Op S) → Subscriptions S → Subscriptions S
  replay [] m = m
  replay (subscribe tx c id f ∷ ops) m =
      replay ops (put (record { client_id = c; subscription_id = id }) (some (f, tx)) m)
  replay (unsubscribe key ∷ ops) m = replay ops (put key none m)

  -- No client subscribes with an identifier that it has in use.
  abbrev pub IsFresh : List (Op S) → Subscriptions S → Type 0
  IsFresh [] m = Unit
  IsFresh (subscribe tx c id f ∷ ops) m =
      (m (record { client_id = c; subscription_id = id }) ≡ none)
      × IsFresh ops (put (record { client_id = c; subscription_id = id }) (some (f, tx)) m)
  IsFresh (unsubscribe key ∷ ops) m = IsFresh ops (put key none m)

  -- The map has the key of the entry, with a filter that matches the topic and the entry's sender.
  abbrev pub Chosen : Subscriptions S → Topic → Entry S → Type 0
  Chosen m topic e =
      (f : TopicFilter) × (m (key_of e) ≡ some (f, e.1.tx))
      × Matches (segments_of f.bytes) (segments_of topic.bytes)

bound {ℓ κ} :
    {A : Type ℓ} {B : Type κ} (o : Option A) {k : A → Option B} {b : B}
    → (o >>= k) ≡ some b
    → (a : A) × (o ≡ some a) × (k a ≡ some b)
bound none e = absurd cc
bound (some a) e = (a, refl, e)

module _ {D : DashMap} {S : Type 0} where
  abbrev pub run : List (Op S) → Router D S → Option (Router D S)
  run [] r = some r
  run (subscribe tx c id f ∷ ops) r = Registry.insert D tx c id f r >>= λ r'. run ops r'
  run (unsubscribe key ∷ ops) r = Registry.delete D key r >>= λ r'. run ops r'

  -- What the router holds of a key.
  abbrev pub view : Router D S → Subscriptions S
  view r key = do
    f ← D.get r.subscription_kv key
    tx ← subscriber r (segments_of f.bytes) key
    some (f, tx)

  view-insert :
      (key : SubscriptionKey) (tx : S) (f : TopicFilter) (r r' : Router D S)
      → r'.subscription_kv ≡ D.insert r.subscription_kv key f
      → ((path : List Bytes) (j : SubscriptionKey)
          → subscriber r' path j ≡ (
              if path_eq (segments_of f.bytes) path && key_beq key j
              then some tx
              else subscriber r path j))
      → view r' ≡ put key (some (f, tx)) (view r)
  view-insert key tx f r r' index change = fun_ext λ j. at_key j
    where
      found :
          (j : SubscriptionKey)
          → D.get r'.subscription_kv j
            ≡ (if key_beq key j then some f else D.get r.subscription_kv j)
      found j = ap (λ m. D.get m j) index ∙ D.get-insert r.subscription_kv key j f

      other : (b : Bool) {c : Bool} (x : Option S) → c ≡ false → (if b && c then some tx else x) ≡ x
      other true x e = rw e
      other false x e = refl

      at_key : (j : SubscriptionKey) → view r' j ≡ put key (some (f, tx)) (view r) j
      at_key j = elim (Bool-cases (key_beq key j)) [
        | inl same ↦
            let here : D.get r'.subscription_kv j ≡ some f = found j ∙ rw same refl in
            let there : subscriber r' (segments_of f.bytes) j ≡ some tx =
              change (segments_of f.bytes) j ∙ rw (same, path_eq_refl (segments_of f.bytes)) refl in
            rw (here, there, same) refl
        | inr differs ↦
            let here : D.get r'.subscription_kv j ≡ D.get r.subscription_kv j =
              found j ∙ rw differs refl in
            rw (here, differs)
              (ap (λ k. D.get r.subscription_kv j >>= k)
                (fun_ext λ g.
                  ap (λ o. o >>= λ t. some (g, t))
                    (change (segments_of g.bytes) j
                      ∙ other (path_eq (segments_of f.bytes) (segments_of g.bytes))
                          (subscriber r (segments_of g.bytes) j) differs)))
      ]

  view-delete :
      (key : SubscriptionKey) (r r' : Router D S)
      → Forgets key r r'
      → view r' ≡ put key none (view r)
  view-delete key r r' (trie, index) = fun_ext λ j. elim (Bool-cases (key_beq key j)) [
    | inl same ↦
        let here : D.get r'.subscription_kv j ≡ none = index j ∙ rw same refl in
        rw (here, same) refl
    | inr differs ↦
        let here : D.get r'.subscription_kv j ≡ D.get r.subscription_kv j =
          index j ∙ rw differs refl in
        rw (here, differs)
          (ap (λ k. D.get r.subscription_kv j >>= k)
            (fun_ext λ g.
              ap (λ o. o >>= λ t. some (g, t)) (trie (segments_of g.bytes) j ∙ rw differs refl)))
  ]

  -- A key that a coherent router holds nothing of is not in the index.
  unheld :
      (key : SubscriptionKey) (r : Router D S)
      → IsCoherent r
      → view r key ≡ none
      → D.get r.subscription_kv key ≡ none
  unheld key r v h = elim (Option-cases (D.get r.subscription_kv key)) [
    | inl e ↦ e
    | inr (f, e) ↦
        let (t, held) = v.stored key f e in
        let some_view : view r key ≡ some (f, t) = rw (e, held) refl in
        absurd (clash (sym h ∙ some_view))
  ]
    where
      clash : {x : TopicFilter × S} → ¬ (none ≡ some x)
      clash e = cc

  -- A run in which no identifier in use is taken again ends, in a coherent router that holds what
  -- the replay of the calls on the map holds.
  pub run_refines :
      (ops : List (Op S)) (r : Router D S)
      → IsCoherent r
      → IsFresh ops (view r)
      → (r' : Router D S) × (run ops r ≡ some r') × IsCoherent r' × (view r' ≡ replay ops (view r))
  run_refines [] r v h = (r, refl, v, refl)
  run_refines (subscribe tx c id f ∷ ops) r v (unused, h) =
      let key : SubscriptionKey = record { client_id = c; subscription_id = id } in
      let (r1, e, v1, index, change) = insert-IsCoherent tx c id f r v (unheld key r v unused) in
      let same = view-insert key tx f r r1 index change in
      let (r2, e2, v2, same2) = run_refines ops r1 v1 (subst (IsFresh ops) (sym same) h) in
      (r2, ap (λ m. m >>= λ r'. run ops r') e ∙ e2, v2, same2 ∙ ap (replay ops) same)
  run_refines (unsubscribe key ∷ ops) r v h =
      let (r1, e, v1, forgets) = delete-IsCoherent key r v in
      let same = view-delete key r r1 forgets in
      let (r2, e2, v2, same2) = run_refines ops r1 v1 (subst (IsFresh ops) (sym same) h) in
      (r2, ap (λ m. m >>= λ r'. run ops r') e ∙ e2, v2, same2 ∙ ap (replay ops) same)

  -- An entry stands at a path that matches the topic exactly if the view gives its key a matching
  -- filter and its sender.
  pub Wanted-view :
      (r : Router D S) (topic : Topic) (e : Entry S)
      → IsCoherent r
      → Wanted r topic e ↔ Chosen (view r) topic e
  Wanted-view r topic e v = (to, from)
    where
      to : Wanted r topic e → Chosen (view r) topic e
      to (path, m, held) =
          let (f, found, p) = v.indexed path (key_of e) e.1.tx held in
          let at_path : subscriber r (segments_of f.bytes) (key_of e) ≡ some e.1.tx =
            ap (λ q. subscriber r q (key_of e)) p ∙ held in
          (f, rw (found, at_path) refl, subst (λ q. Matches q (segments_of topic.bytes)) (sym p) m)

      from : Chosen (view r) topic e → Wanted r topic e
      from (f, held, m) =
          let (g, found, inner) = bound (D.get r.subscription_kv (key_of e)) held in
          let (tx, at_path, pair) = bound (subscriber r (segments_of g.bytes) (key_of e)) inner in
          let same_filter : g ≡ f = cc pair in
          let same_sender : tx ≡ e.1.tx = cc pair in
          (
            segments_of f.bytes,
            m,
            ap (λ x. subscriber r (segments_of x.bytes) (key_of e)) (sym same_filter)
                ∙ at_path
                ∙ ap some same_sender,
          )

  -- From a new router, a run holds what the replay from the empty map holds.
  pub run-new :
      (ops : List (Op S))
      → IsFresh ops (λ _. none)
      → (r : Router D S) × (run ops (Registry.new D) ≡ some r)
        × IsCoherent r
        × (view r ≡ replay ops (λ _. none))
  run-new ops h =
      let view_new : view (Registry.new D) ≡ (λ _. none) =
        fun_ext λ key. unfold Registry.new in rw (D.get-new key) refl in
      let (r, e, v, same) =
        run_refines ops (Registry.new D) new-IsCoherent (subst (IsFresh ops) (sym view_new) h) in
      (r, e, v, same ∙ ap (replay ops) view_new)

  -- After a run on a new router in which no identifier in use is taken again, `search` ends. Its
  -- list has exactly the entries whose key the replay of the calls maps to a filter that matches
  -- the topic and to the sender of the entry, and it has no queue group.
  pub run-new_delivers :
      (ops : List (Op S)) (topic : Topic)
      → IsFresh ops (λ _. none)
      → (r : Router D S) × (run ops (Registry.new D) ≡ some r)
        × (found : SubscriptionResponse S) × (Registry.search D topic r ≡ some found)
        × (found.queue_group_list ≡ [])
        × ((e : Entry S) → In e found.subscription_list ↔ Chosen (replay ops (λ _. none)) topic e)
  run-new_delivers ops topic h =
      let (r, e, v, same) = run-new ops h in
      let (found, ran, groups, exact) = search_lem topic r v.formed in
      let wanted : (x : Entry S) → Wanted r topic x ↔ Chosen (replay ops (λ _. none)) topic x =
        λ x. subst (λ m. Wanted r topic x ↔ Chosen m topic x) same (Wanted-view r topic x v) in
      (
        r,
        e,
        found,
        ran,
        groups,
        λ x. (λ i. (wanted x).0 ((exact x).0 i), λ c. (exact x).1 ((wanted x).1 c)),
      )
