-- ===== src/PubSub/Tests.antt =====
-- Runs of PubSub.cpp at fixed inputs.
use tactility_halo.Base.{ℕ, ◌≡◌, refl, true, [], ◌∷◌, some, arith}
use tactility_halo.PubSub.{
  PubSub, init, subscribe_locked, subscription_handle, unsubscribe, erase_first, publish,
}
use tactility_halo.PubSub.Histories.{subscribes, unsubscribes, run, subscriptions-IsValid}
use tactility_halo.PubSub.Subscriptions.{IsValid}

-- Callbacks are numbers here.
abbrev empty : PubSub ℕ
empty = init

empty-IsValid : IsValid empty
empty-IsValid = record { below = tt; distinct = tt }

abbrev none_left : PubSub ℕ
none_left = record { last_id = 1; items = [] }

abbrev two_one : PubSub ℕ
two_one = record { last_id = 2; items = record { id = 1; callback = 70 } ∷ [] }

abbrev one : PubSub ℕ
one = record { last_id = 1; items = record { id = 1; callback = 70 } ∷ [] }

publish_run : publish one true ≡ (70, true) ∷ []
unfolding publish
publish_run = refl

-- The older subscription is taken back before `subscribe` returns.
abbrev only_second : PubSub ℕ
only_second = record { last_id = 2; items = record { id = 2; callback = 80 } ∷ [] }

-- When another thread subscribes in front of the return, the handle is that of its subscription.
other_handle :
    unsubscribe
      (subscribe_locked (subscribe_locked empty 70) 80)
      (subscription_handle 32 (subscribe_locked (subscribe_locked empty 70) 80))
    ≡ some (record { last_id = 2; items = record { id = 1; callback = 70 } ∷ [] })
unfolding subscribe_locked subscription_handle unsubscribe erase_first
other_handle = refl

unsubscribe-one : unsubscribe one 1 ≡ some (record { last_id = 1; items = [] })
unfolding unsubscribe erase_first
unsubscribe-one = refl

run_two :
    run empty (subscribes 70 ∷ subscribes 80 ∷ unsubscribes 2 ∷ [])
    ≡ some (record { last_id = 2; items = record { id = 1; callback = 70 } ∷ [] })
unfolding run subscribe_locked unsubscribe erase_first
run_two = refl

subscriptions-IsValid_example : IsValid two_one
subscriptions-IsValid_example =
    subscriptions-IsValid (subscribes 70 ∷ subscribes 80 ∷ unsubscribes 2 ∷ []) empty two_one
      (omega arith) empty-IsValid run_two
