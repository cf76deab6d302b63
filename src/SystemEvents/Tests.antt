-- ===== src/SystemEvents/Tests.antt =====
-- Runs of SystemEvents.cpp at fixed inputs. Handlers are numbers.
use tactility_halo.Base.{ℕ, ◌≡◌, [], ◌∷◌, ◌++◌, arith}
use tactility_halo.SystemEvents.{
  SystemEvents, time, publish_system_event, subscribe_system_event, unsubscribe_system_event,
}
use tactility_halo.SystemEvents.Publishing.{publish-subscribe}

abbrev one : SystemEvents ℕ
one = record {
  subscription_counter = 1;
  subscriptions = record { id = 1; event = time; handler = 70 } ∷ [];
}

publish-subscribe_example :
    (publish_system_event (subscribe_system_event one time 80).0 time
      ≡ publish_system_event one time ++ 80 ∷ [])
    × (publish_system_event
          (unsubscribe_system_event
            (subscribe_system_event one time 80).0
            (subscribe_system_event one time 80).1)
          time
        ≡ publish_system_event one time)
publish-subscribe_example = publish-subscribe one time time 80 (omega arith, tt) (omega arith)
