-- ===== src/PubSub/Histories.antt =====
-- Histories of the calls of a `PubSub`.
use tactility_halo.Base.{
  ℕ, ◌+◌, ◌^◌, ◌<◌, ◌≡◌, inl, inr, List, [], ◌∷◌, Option, none, some, arith, Option-cases, subst,
  length,
}
use tactility_halo.PubSub.{PubSub, subscribe_locked, unsubscribe}
use tactility_halo.PubSub.Subscriptions.{
  IsValid, subscribe-IsValid, unsubscribe-IsValid, last_id-unsubscribe,
}

-- A call of a history.
pub data Call (C : Type 0) : Type 0 where
  subscribes : C → Call C
  unsubscribes : ℕ → Call C

module _ {C : Type 0} where
  -- A history of what the calls do under the mutex; `none` is a crash.
  unfoldable pub run : PubSub C → List (Call C) → Option (PubSub C)
  run p [] = some p
  run p (subscribes c ∷ calls) = run (subscribe_locked p c) calls
  run p (unsubscribes handle ∷ calls) = elim (unsubscribe p handle) [
    | none ↦ none
    | some q ↦ run q calls
  ]

  -- A history that does not crash leaves the identifiers distinct, none of them 0, and at most the
  -- last one given out, as long as the calls are too few for the counter to wrap.
  pub subscriptions-IsValid :
      (calls : List (Call C)) (p q : PubSub C)
      → p.last_id + length calls < 2 ^ 64
      → IsValid p
      → run p calls ≡ some q
      → IsValid q
  unfolding run
  subscriptions-IsValid [] p q h v e = (let same : p ≡ q = ground arith in subst IsValid same v)
  subscriptions-IsValid (subscribes c ∷ calls) p q h v e =
      subscriptions-IsValid calls (subscribe_locked p c) q (unfold subscribe_locked in omega arith)
        (subscribe-IsValid p c (omega arith) v) e
  subscriptions-IsValid (unsubscribes handle ∷ calls) p q h v e =
      elim (Option-cases (unsubscribe p handle)) [
        | inl crash ↦ absurd (ground arith)
        | inr (r, left) ↦
            subscriptions-IsValid calls r q (omega (arith, last_id-unsubscribe p r handle left))
              (unsubscribe-IsValid p r handle left v) (ground arith)
      ]
