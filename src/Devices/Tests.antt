-- ===== src/Devices/Tests.antt =====
-- Runs of Device.cpp at fixed inputs.
use tactility_halo.Base.{◌≡◌, List, [], ◌∷◌, arith, replicate, length-replicate}
use tactility_halo.Devices.{Device, find_device_by_id, deregister_device}
use tactility_halo.Devices.Registry.{IsDistinct}
use tactility_halo.Devices.Removal.{deregister_device_lem}

abbrev display : Device
display = record { id = 0; type = 2; name = "Display" }

abbrev touch : Device
touch = record { id = 1; type = 3; name = "Touch" }

abbrev both : List Device
both = display ∷ touch ∷ []

both-IsDistinct : IsDistinct both
both-IsDistinct = ((λ e. ground (arith, e), tt), (tt, tt))

deregister_device_lem_example :
    IsDistinct (deregister_device (λ n. replicate n touch) display both)
    × (find_device_by_id 1 (deregister_device (λ n. replicate n touch) display both)
        ≡ find_device_by_id 1 both)
deregister_device_lem_example =
    deregister_device_lem (λ n. replicate n touch) display both 1 (λ n. length-replicate n touch)
      both-IsDistinct
