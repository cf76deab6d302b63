-- ===== src/SystemEvents.antt =====
-- Tactility/Source/kernel/SystemEvents.cpp. A handler is an opaque value; `publish` gives the calls
-- in their order. The mutex makes each operation atomic.
pub mod Publishing
pub mod Tests
use tactility_halo.Base.{ℕ, ◌+◌, ◌%◌, ◌^◌, List, [], ◌∷◌, ◌++◌, ◌==◌, if◌then◌else◌}

pub data SystemEvent : Type 0 where
  boot_init_hal_begin boot_init_hal_end boot_init_i2c_begin boot_init_i2c_end : SystemEvent
  boot_init_spi_begin boot_init_spi_end boot_init_uart_begin boot_init_uart_end : SystemEvent
  boot_init_lvgl_begin boot_init_lvgl_end boot_splash : SystemEvent
  network_connected network_disconnected time : SystemEvent

-- The number of the enumerator, which `==` compares.
abbrev pub value : SystemEvent → ℕ
value boot_init_hal_begin = 0
value boot_init_hal_end = 1
value boot_init_i2c_begin = 2
value boot_init_i2c_end = 3
value boot_init_spi_begin = 4
value boot_init_spi_end = 5
value boot_init_uart_begin = 6
value boot_init_uart_end = 7
value boot_init_lvgl_begin = 8
value boot_init_lvgl_end = 9
value boot_splash = 10
value network_connected = 11
value network_disconnected = 12
value time = 13

pub record SubscriptionData (H : Type 0) : Type 0 where
  pub id : ℕ
  pub event : SystemEvent
  pub handler : H

pub record SystemEvents (H : Type 0) : Type 0 where
  pub subscription_counter : ℕ
  pub subscriptions : List (SubscriptionData H)

module _ {H : Type 0} where
  unfoldable pub calls : SystemEvent → List (SubscriptionData H) → List H
  calls event [] = []
  calls event (subscription ∷ rest) =
      let later = calls event rest in
      if value subscription.event == value event then subscription.handler ∷ later else later

  unfoldable pub publish_system_event : SystemEvents H → SystemEvent → List H
  publish_system_event s event = calls event s.subscriptions

  -- `SystemEventSubscription` is an unsigned int.
  unfoldable pub subscribe_system_event : SystemEvents H → SystemEvent → H → SystemEvents H × ℕ
  subscribe_system_event s event handler =
      let id = (s.subscription_counter + 1) % 2 ^ 32 in
      (
        record {
          subscription_counter = id;
          subscriptions =
              s.subscriptions ++ record { id = id; event = event; handler = handler } ∷ [];
        },
        id,
      )

  unfoldable pub erase_all : ℕ → List (SubscriptionData H) → List (SubscriptionData H)
  erase_all subscription [] = []
  erase_all subscription (item ∷ rest) =
      let kept = erase_all subscription rest in
      if item.id == subscription then kept else item ∷ kept

  unfoldable pub unsubscribe_system_event : SystemEvents H → ℕ → SystemEvents H
  unsubscribe_system_event s subscription = record s {
    subscriptions = erase_all subscription s.subscriptions;
  }
