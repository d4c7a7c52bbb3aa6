-- ===== src/Router/Answers/Examples.antt =====
-- Two clients of crates/server/src/router.rs that subscribe in either order.
use ocypode.Prelude.{ℕ, ◌≡◌, refl, fun_ext, none, some, List, [], ◌∷◌, ok, arith, codes}
use ocypode.Topic.{Topic, new_topic}
use ocypode.Router.{key_beq, ◌>>=◌}
use ocypode.Router.Fixtures.{table}
use ocypode.Router.Registry
use ocypode.Router.Runs.{Op, subscribe, unsubscribe, IsFresh, run, replay}
use ocypode.Router.Answers.{Answer, answer, run_answers}

abbrev first : Op ℕ
first = subscribe 10 (record { value = 1 }) 1 (record { bytes = codes "a/b" })

abbrev second : Op ℕ
second = subscribe 20 (record { value = 2 }) 1 (record { bytes = codes "a/+" })

abbrev forth : List (Op ℕ)
forth = first ∷ second ∷ []

abbrev back : List (Op ℕ)
back =
    second
    ∷ unsubscribe (record { client_id = record { value = 3 }; subscription_id = 1 })
    ∷ first
    ∷ []

abbrev topic : Topic
topic = record { bytes = codes "a/b" }

topic_lem : new_topic (codes "a/b") ≡ ok topic
unfolding new_topic
topic_lem = refl

forth-IsFresh : IsFresh forth (λ _. none)
unfolding key_beq
forth-IsFresh = (refl, (refl, tt))

back-IsFresh : IsFresh back (λ _. none)
unfolding key_beq
back-IsFresh = (refl, (refl, tt))

forth_back : replay forth (λ _. none) ≡ replay back (λ _. none)
unfolding key_beq
forth_back = fun_ext λ j. ground arith

run_answers_example :
    (a : Answer ℕ) × (answer (run forth (Registry.new table) >>= λ r. Registry.search table topic r)
      ≡ some a)
    × (answer (run back (Registry.new table) >>= λ r. Registry.search table topic r) ≡ some a)
run_answers_example =
    run_answers table table (codes "a/b") topic forth back topic_lem forth-IsFresh back-IsFresh
      forth_back
