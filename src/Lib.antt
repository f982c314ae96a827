-- ===== src/Lib.antt =====
-- The firmware of the Cardputer Codex Deck (firmware/m5stack-cardputer-adv/src): a keyboard,
-- microphone and status display that a Mac's bridge talks to over WiFi.
--
-- Parts and files.
--   Models     models.h and app_config.h: the shared structs, enumerations and constants.
--   Keys       keymap.cpp and key_tx.cpp: `Keys/Keymap` is the key map, `Keys/Transmitter` the
--              class `KeyTransmitter` (`tick`, `build_current`, `send_missing`, `release_all`).
--   Pairing    pairing.h and pairing.cpp: the control link. `Pairing/State` is the state of
--              `PairingManager`, `Send` its messages and `sendDocument`, `Link` the life of a
--              connection and the back-off, `Discovery` the mDNS search, `Snapshot` the agent
--              snapshot, `Receive` `readIncoming` and `handleLine`, `Token` `setAudioReady`,
--              `Manager` `begin`, `tick` and the user's commands, `Events` the histories.
--   Wifi       wifi_mgr.h and wifi_mgr.cpp: `Wifi/State` is the state of `WifiManager`, `Scan`
--              `collectResults`, `Manager` `tick`, `addAndConnect` and `forget`.
--   Audio      audio_tx.h and audio_tx.cpp: `Audio/State` is the state of `AudioTransmitter`,
--              `Capture` the steps of `captureLoop`, `Sender` those of `senderLoop` and the packet,
--              `Events` the interleavings of the two with the main loop.
--   Settings   settings_store.cpp: `Settings/Store` are the saves and loads.
--   Ui         ui.h and ui.cpp: `Ui/State` is the state of `DeviceUi` and of the objects it drives
--              (`Deck`), `Input` the keys that the pages react to, `Pages` and `Forms` what each page
--              does with them, `Power` and `Battery` the screen and the battery, `Characters` the text
--              helpers, `Controller` `begin`, `tick` and the mode, `Visual` what is shown of a session,
--              with the animation of pet_renderer.cpp, `Layout` the title and the wrapped text.
--   Device     main.cpp and serial_console.cpp: `Device/State` are the program's objects, `Console` the
--              line buffer and the commands, `Loop` `setup`, `loop` and the tasks between two passes.
--   Bridge     bridge/agent/cardbridge/protocol.py and audio.py: `Bridge/Protocol` is the reading of an
--              audio datagram on the Mac. `held_after` of Keys is server.py's release of a session.
--   Base       the shared helpers: Boolean tests, lists, options, texts, machine words.
-- The key transmitter asks the pairing manager whether the link is connected, and its events are
-- what it hands to `sendKey`. The audio tasks ask it for the endpoint and the acknowledgements, and
-- the WiFi manager tells it whether there is a connection. A definition has the name of its C++
-- function in snake case; a part of a long function that has a name of its own says in its comment
-- which part it is.
--
-- Modelling.
--   A text is the list of its bytes, and a counted array (`paired_`, `pairedCount_`) the list of
--   its first entries. Every machine word wraps where the code's does (`u8`, `u32`, `sub32`).
--   The JSON library is the record `Json`, the keyboard driver's codes are the record `KeyCodes`.
--   `Env` is what one call finds around it: the 32-bit clock, WiFi, mDNS, the heap, the task
--   scheduler, the serialiser and the results of the socket's writes. The clock and the state of
--   WiFi are read once a call. Log output is left out.
--   The connect worker is `task`; its end is the event `worker_ends`, between two calls of the
--   main loop, as the bytes that arrive and the close of the socket are.
--   A document that the code drops as too large for its buffer is the answer of `overflowed`.
--   `read_loop` runs on fuel, which is the number of unread bytes: each round takes one. `read_stereo`
--   runs on the size of the buffer, since each read gives a byte or ends the loop; with less fuel its
--   result is `none`.
--   `Preferences` is NVS with the laws of its documentation, which hold while the partition has
--   room. The calls of the store by the other parts are logs; what they store is in Settings.
--   A task of the audio path is where its `phase` says, and a step takes it to the next phase: the
--   other task and the main loop may run at every blocking call and around every second look.
--   A call of the WiFi driver goes to the log `calls`; a failed scan is one that found nothing. An
--   index past the saved networks is `none`. `std::sort` is a parameter, of which only the number
--   of entries is relied on.
--
--   The settings object that the controller, the console and the pairing manager share is the one of
--   the pairing manager's state. An index past the used entries of an array is `none` in the controller
--   too. In `loop` the audio tasks read what the pairing manager shares at the time of their step.
--   `textWidth` of the canvas is a parameter of the layout, whose loops run on fuel, which is the number of
--   bytes that are left: each round takes one or more.
--   `trim` and `toInt` of the Arduino `String` are the record `Arduino`.
--
-- Not modelled: the drawing code, the images and the fonts, which only show the state; the text that the
-- console prints and its pokes at pins, codec and speaker; the codec's registers; the bring-up of the
-- hardware in `setup`; and, on the Mac, the app, the driver and
-- the bridge but for its reading of audio datagrams and its release of keys.
pub mod Base
pub mod Models
pub mod Keys
pub mod Pairing
pub mod Wifi
pub mod Audio
pub mod Settings
pub mod Ui
pub mod Device
pub mod Bridge
