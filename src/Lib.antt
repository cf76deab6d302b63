-- ===== src/Lib.antt =====
-- Tactility is an operating system for ESP32 boards, with a simulator. Modelled here is the
-- platform-independent C++ of TactilityCore (data types, files, synchronisation) and of Tactility
-- (the kernel's events, the registries, the apps and their loader, the GPS protocol, the status
-- bar, the buses, Wi-Fi), and a driver in C. The parts and their files, each with the child modules that hold its lemmas, and a child
-- Tests with runs at fixed inputs:
--
--   * Base: numbers, lists, dictionaries and the lemmas that all parts share.
--   * Text: TactilityCore/Source/StringUtils.cpp. Strings are lists of bytes. The loop of `split`
--     runs on fuel, one round more than there are bytes, since each round removes at least the
--     delimiter.
--   * Files: TactilityCore/Source/file/File.cpp. POSIX is a parameter: the record FileSystem with
--     what mkdir and stat promise, and functions that say how much a read can deliver; a FILE has a
--     position. The loop over
--     the separators of a path runs on the length of the path, the reading loop on the size of the
--     file, because each round that goes on moves ahead by at least one byte.
--   * ObjectFile: TactilityCore/Source/file/ObjectFile.cpp. A file is its bytes and a FILE is a
--     position; Reader and Writer are the two classes with one function per method, Clients is the
--     use that a program makes of them. It uses getSize of Files.
--   * Bundle: TactilityCore/Source/Bundle.cpp. The union of a value keeps which member was written,
--     and a read of the other one is undefined.
--   * PubSub: TactilityCore/Source/PubSub.cpp.
--   * Dispatcher: TactilityCore/Source/Dispatcher.cpp. Each stretch between two operations of the
--     mutex or the event flag is one function; Wakeups has the interleavings as an indexed data
--     type, Draining a whole call of `consume`.
--   * Crypt: TactilityCore/Source/crypt/Hash.cpp and Crypt.cpp, with AES as a parameter.
--   * Apps: the app manifests, instances, results and their registry (App.h, AppManifest.h,
--     AppInstance and ManifestRegistry of Tactility).
--   * Loader: Tactility/Source/service/loader/Loader.cpp. Handlers give the new state and the list
--     of their effects (published events and calls of the apps). Runs has the histories, in
--     which startApp and stopApp are two steps each, Cases what a step can be. It finds manifests in Apps and passes on Bundles; its dispatcher thread is a
--     queue of messages, which is what Dispatcher provides.
--   * SystemEvents, Devices, Services: Tactility/Source/kernel/SystemEvents.cpp, hal/Device.cpp and
--     service/ServiceRegistry.cpp.
--   * Statusbar: the icon table of Tactility/Source/lvgl/Statusbar.cpp.
--   * Calculator: the formulas of Tactility/Source/app/calculator/Calculator.cpp, with the type
--     double as a parameter. Its loop runs on fuel, one round more than there are bytes, because
--     each round consumes a byte.
--   * Ublox: packets and answers of Tactility/Source/hal/gps/Ublox.cpp.
--   * I2c: Tactility/Source/hal/i2c/I2c.cpp, with the driver of the ESP-IDF as a parameter. Cases has
--     the histories of calls, States and Immutable what the ports hold through them, Transfers the
--     calls that move bytes, Writes the arrays of register writes.
--   * Uart: Tactility/Source/hal/uart/Uart.cpp. Registry, Entries and Names are about the table of
--     the open ports, Buffers and Lines about readUntil, which recurs on the room in the buffer.
--   * Gps: Tactility/Source/service/gps/GpsService.cpp and GpsDevice of Tactility/Source/hal/gps.
--     Actions has the histories, Records the starts and stops of the devices, Receiving what they
--     keep and the coordinates. What a device reports is an event.
--   * TimeZones: the file of Tactility/Source/app/timezone/TimeZone.cpp and its search, which runs on
--     fuel, one round more than the file has bytes, because fgets takes a byte at least. It uses
--     find and lowercase of Text.
--   * Wifi: Tactility/Source/service/wifi/WifiEsp.cpp. Radio has the tasks of the main dispatcher, Api
--     what other threads and the driver call, Runs the histories. A task is one
--     step up to its wait. Tasks and Safety follow the checks, Connecting one request, Stuck,
--     Staying and Limbo a failed one.
--   * Threads: TactilityCore/Source/Thread.cpp. Actions has the interleavings of a Thread with its
--     task, Steps and Life what holds in them, Joining the timeout of join, which runs on fuel, two rounds more than the timeout has ticks,
--     because each round takes a tick.
--   * Tca9534: Drivers/TCA9534/src/TCA9534.c, with the chip as a parameter.
--
-- A state is a record and an operation a function on it; a failed check or undefined behaviour is
-- `none`. Unsigned integers wrap by an explicit `%`; where a statement needs that they do not, it
-- says so. Whether a mutex is free in time is an input of the operation.
--
-- Not modelled: the code that only calls LVGL, the ESP-IDF or FreeRTOS (views, most drivers,
-- boards), vendored libraries, logging, and the memory behind shared pointers.
pub mod Base
pub mod Text
pub mod Files
pub mod Bundle
pub mod PubSub
pub mod ObjectFile
pub mod Apps
pub mod Loader
pub mod Dispatcher
pub mod Ublox
pub mod SystemEvents
pub mod Devices
pub mod Services
pub mod Crypt
pub mod Statusbar
pub mod Calculator
pub mod I2c
pub mod Uart
pub mod TimeZones
pub mod Tca9534
pub mod Wifi
pub mod Threads
pub mod Gps
