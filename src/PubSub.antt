-- ===== src/PubSub.antt =====
-- TactilityCore/Source/PubSub.cpp. A callback and its parameter are one opaque value; a call of
-- one is an entry of the trace that `publish` returns. What an operation does under the
-- mutex is one step, and what `subscribe` does behind it another. A callback that calls back into the
-- same object blocks, and is not modelled.
pub mod Histories
pub mod Subscriptions
pub mod Handles
pub mod Tests
use tactility_halo.Base.{
  true, false, ℕ, ◌+◌, ◌%◌, ◌^◌, List, [], ◌∷◌, ◌++◌, map, Option, none, some, ◌==◌, if◌then◌else◌,
}

pub record Subscription (C : Type 0) : Type 0 where
  pub id : ℕ
  pub callback : C

pub record PubSub (C : Type 0) : Type 0 where
  pub last_id : ℕ
  pub items : List (Subscription C)

module _ {C : Type 0} where
  abbrev pub init : PubSub C
  init = record { last_id = 0; items = [] }

  -- `subscribe` while it holds the mutex; `lastId` is an `uint64_t`.
  unfoldable pub subscribe_locked : PubSub C → C → PubSub C
  subscribe_locked p callback =
      let id = (p.last_id + 1) % 2 ^ 64 in
      record { last_id = id; items = p.items ++ record { id = id; callback = callback } ∷ [] }

  -- What `subscribe` returns: `lastId`, read behind the mutex and cast to a pointer of `w` bits.
  unfoldable pub subscription_handle : (w : ℕ) → PubSub C → ℕ
  subscription_handle w p = p.last_id % 2 ^ w

  -- The loop over the items; `none` is a `result` that stays false.
  unfoldable pub erase_first : ℕ → List (Subscription C) → Option (List (Subscription C))
  erase_first id [] = none
  erase_first id (it ∷ rest) = elim (it.id == id) [
    | true ↦ some rest
    | false ↦ elim (erase_first id rest) [ none ↦ none | some rest' ↦ some (it ∷ rest') ]
  ]

  -- `none` is the crash of `assert(subscription)` or of `tt_check(result)`.
  unfoldable pub unsubscribe : PubSub C → ℕ → Option (PubSub C)
  unsubscribe p subscription =
      if subscription == 0 then none else elim (erase_first subscription p.items) [
        | none ↦ none
        | some items ↦ some (record p { items = items })
      ]

  -- The calls that `publish` makes, in their order.
  unfoldable pub publish {κ} : {M : Type κ} → PubSub C → M → List (C × M)
  publish p message = map (λ it. (it.callback, message)) p.items
