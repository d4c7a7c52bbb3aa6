-- ===== src/Identity.antt =====
-- `ClientId` of crates/server/src/client.rs and its counter.
mod Examples
use ocypode.Prelude.{ℕ, zero, suc, ◌+◌, ◌%◌, ◌^◌, ◌<◌, ◌≡◌, refl, sym, ap, ◌∙◌, arith}

pub record ClientId : Type 0 where
  pub value : ℕ

-- `CLIENT_ID_COUNTER`, an `AtomicU64`: `fetch_add` returns the old value and wraps around.
abbrev pub first_client_id : ℕ
first_client_id = 1

-- `ClientId::new`: the identifier, and the counter after it.
unfoldable pub next_client_id : ℕ → ClientId × ℕ
next_client_id counter = (record { value = counter }, (counter + 1) % 2 ^ 64)

-- The counter after so many calls, and the identifier that the next call gives.
unfoldable pub counter_after : ℕ → ℕ
unfolding next_client_id
counter_after zero = first_client_id
counter_after (suc n) = (next_client_id (counter_after n)).1

unfoldable pub issued : ℕ → ClientId
unfolding next_client_id counter_after
issued n = (next_client_id (counter_after n)).0

pub counter_after_lem : (n : ℕ) → counter_after n ≡ (1 + n) % 18446744073709551616
unfolding counter_after next_client_id
counter_after_lem zero = refl
counter_after_lem (suc n) = rw (counter_after_lem n) (omega arith)

-- Of the first 2^64 identifiers that a server gives out, no two are the same.
pub issued_injective : (i j : ℕ) → i < 2 ^ 64 → j < 2 ^ 64 → issued i ≡ issued j → i ≡ j
unfolding issued next_client_id counter_after
issued_injective i j hi hj e =
    let same : counter_after i ≡ counter_after j = ap (λ c. c.value) e in
    let wrapped : (1 + i) % 18446744073709551616 ≡ (1 + j) % 18446744073709551616 =
      sym (counter_after_lem i) ∙ same ∙ counter_after_lem j in
    omega arith
