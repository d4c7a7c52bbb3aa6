-- ===== src/Quic/Loop/Clients.antt =====
-- The identifiers of the clients that run at once.
use ocypode.Prelude.{
  ℕ, suc, ◌^◌, ◌≤◌, ◌<◌, ◌≡◌, refl, sym, ap, subst, ◌∙◌, ◌⊎◌, inl, inr, List, [], ◌∷◌, ◌++◌, map,
  map-append, arith, In,
}
use ocypode.Identity.{ClientId, next_client_id, counter_after, issued, issued_injective}
use ocypode.Quic.Loop.{
  Endpoint, Step, cancel, take_shutdown, accept_none, accept, accept_stream, end_connection,
  begin_client, end_client, Reach, start, later,
}

abbrev pub Distinct : {A : Type 0} → List A → Type 0
Distinct [] = Unit
Distinct (x ∷ xs) = (¬ In x xs) × Distinct xs

module _ {A : Type 0} where
  pub In-without :
      (a x : A) (before after : List A) → In a (before ++ after) → In a (before ++ x ∷ after)
  In-without a x [] after i = inr i
  In-without a x (b ∷ before) after (inl e) = inl e
  In-without a x (b ∷ before) after (inr i) = inr (In-without a x before after i)

  pub without-Distinct :
      (x : A) (before after : List A) → Distinct (before ++ x ∷ after) → Distinct (before ++ after)
  without-Distinct x [] after d = d.1
  without-Distinct x (b ∷ before) after d =
      (λ i. d.0 (In-without b x before after i), without-Distinct x before after d.1)

module _ {C : Type 0} where
  abbrev pub ids : List (ClientId × C) → List ClientId
  ids = map (λ h. h.0)

  -- So many identifiers have been given out; the clients have some of them, each another one.
  record Inv (n : ℕ) (s : Endpoint C) : Type 0 where
    given : ℕ
    bounded : given ≤ n
    counted : s.counter ≡ counter_after given
    known : (i : ClientId) → In i (ids s.clients) → (j : ℕ) × (j < given) × (i ≡ issued j)
    distinct : Distinct (ids s.clients)

  Inv-same :
      {n : ℕ} {s t : Endpoint C}
      → t.counter ≡ s.counter
      → t.clients ≡ s.clients
      → Inv n s
      → Inv (suc n) t
  Inv-same e f v = record {
    given = v.given;
    bounded = omega (arith, v.bounded);
    counted = e ∙ v.counted;
    known = λ i m. v.known i (subst (λ l. In i (ids l)) f m);
    distinct = subst (λ l. Distinct (ids l)) (sym f) v.distinct;
  }

  Inv-begin :
      {n : ℕ} (s : Endpoint C) (c : C) (left : List C)
      → suc n ≤ 2 ^ 64
      → Inv n s
      → Inv (suc n) (record s {
        waiting = left;
        counter = (next_client_id s.counter).1;
        clients = ((next_client_id s.counter).0, c) ∷ s.clients;
      })
  unfolding next_client_id counter_after issued
  Inv-begin s c left room v = record {
    given = suc v.given;
    bounded = omega (arith, v.bounded);
    counted = ap (λ k. (next_client_id k).1) v.counted;
    known = λ i m. known i m;
    distinct = (λ m. newer m, v.distinct);
  }
    where
      fresh : (next_client_id s.counter).0 ≡ issued v.given
      fresh = ap (λ k. (next_client_id k).0) v.counted

      known :
          (i : ClientId)
          → (i ≡ (next_client_id s.counter).0) ⊎ In i (ids s.clients)
          → (j : ℕ) × (j < suc v.given) × (i ≡ issued j)
      known i (inl e) = (v.given, omega arith, e ∙ fresh)
      known i (inr m) = let (j, lt, e) = v.known i m in (j, omega arith, e)

      newer : ¬ In (next_client_id s.counter).0 (ids s.clients)
      newer m =
          let (j, lt, e) = v.known (next_client_id s.counter).0 m in
          let same : v.given ≡ j =
            issued_injective v.given j (omega (arith, v.bounded)) (omega (arith, v.bounded))
              (sym fresh ∙ e) in
          omega arith

  Inv-end :
      {n : ℕ} (s : Endpoint C) (h : ClientId × C) (before after : List (ClientId × C))
      → s.clients ≡ before ++ h ∷ after
      → Inv n s
      → Inv (suc n) (record s { clients = before ++ after })
  Inv-end s h before after e v =
      let split : ids s.clients ≡ ids before ++ h.0 ∷ ids after =
        ap ids e ∙ map-append (λ h. h.0) before (h ∷ after) in
      let joined : ids (before ++ after) ≡ ids before ++ ids after =
        map-append (λ h. h.0) before after in
      record {
        given = v.given;
        bounded = omega (arith, v.bounded);
        counted = v.counted;
        known = λ i m. v.known i (
            subst (In i) (sym split)
              (In-without i h.0 (ids before) (ids after) (subst (In i) joined m)));
        distinct =
            subst Distinct (sym joined)
              (without-Distinct h.0 (ids before) (ids after) (subst Distinct split v.distinct));
      }

  Step-Inv : {n : ℕ} {s t : Endpoint C} → suc n ≤ 2 ^ 64 → Step s t → Inv n s → Inv (suc n) t
  Step-Inv room cancel v = Inv-same refl refl v
  Step-Inv room (take_shutdown _ _) v = Inv-same refl refl v
  Step-Inv room (accept_none _) v = Inv-same refl refl v
  Step-Inv room (accept _ _) v = Inv-same refl refl v
  Step-Inv room (accept_stream _ _ _ _) v = Inv-same refl refl v
  Step-Inv room (end_connection _ _ _ _) v = Inv-same refl refl v
  Step-Inv {s = s} room (begin_client c before after _) v = Inv-begin s c (before ++ after) room v
  Step-Inv {s = s} room (end_client h before after e) v = Inv-end s h before after e v

  Reach-Inv : {n : ℕ} {s : Endpoint C} → n ≤ 2 ^ 64 → Reach n s → Inv n s
  Reach-Inv room start = record {
    given = 0;
    bounded = omega arith;
    counted = unfold counter_after in refl;
    known = λ i m. absurd m;
    distinct = tt;
  }
  Reach-Inv room (later {n = n} r st) = Step-Inv room st (Reach-Inv (omega arith) r)

  -- In the first 2^64 steps of the server's tasks, however they interleave, no two clients that run
  -- at once have the same identifier.
  pub Reach-Distinct : {n : ℕ} {s : Endpoint C} → n ≤ 2 ^ 64 → Reach n s → Distinct (ids s.clients)
  Reach-Distinct room r = (Reach-Inv room r).distinct
