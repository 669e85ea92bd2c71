-- ===== src/Lib.antt =====
-- VS Code Privacy Guard for OBS: the OBS plugin hides the stream while VS Code shows a sensitive file,
-- or cannot say that it does not. Clients in VS Code connect to a named pipe and send PG/1 frames. A
-- worker for each connection (obs-plugin/src/named-pipe-server.cpp) cuts the bytes into lines, parses
-- them (obs-plugin/src/protocol.cpp) and applies them to the state of all clients
-- (obs-plugin/src/privacy-state.cpp). At every tick of OBS the plugin (obs-plugin/src/plugin-main.cpp)
-- derives a mode from that state and hands a changed mode to the controller of the display
-- (obs-plugin/src/protection-display.cpp), which covers the output, shows an image over it, or switches
-- to a scene of the user, as the settings say (obs-plugin/src/display-settings.hpp).
--
-- Base: shared names, byte strings, lists measured by native numbers.
-- Protocol: protocol.hpp and protocol.cpp. A line is a list of bytes. `split_loop` runs on fuel, the
--   length of the line, which is enough since each round takes two bytes or is the last.
--   `std::from_chars` is written out as the C++ standard describes it.
-- Privacy: `PrivacyState` of privacy-state.hpp and privacy-state.cpp. The mutex is held through each
--   operation, so an operation is a function from state to state; `Privacy.History.step` and `run` are
--   the operations one after another in any order, as any number of threads may call them. The
--   hash map is an association list in the order in which it is walked, and
--   Privacy.Order lets that order change. The counters wrap at 2^64.
-- Display: the settings and the choice of an action; below it the renderer of images (Renderer),
--   what it draws (Drawing) and where (Layout), the controller (Controller) with its handlers of
--   events (Controller.Events), the stored settings (Storage) and the settings dialog (Dialog). What
--   Qt and OBS answer, such as whether a scene exists or an image can be read, is the parameter
--   `World`, which may be another at each step; what the graphics answer is `Graphics` and `Canvas`;
--   a combo box of Qt is the interface `ComboBox`, and `float` the interface `Float`. The queue of
--   UI tasks of OBS is a list. A handler of the controller is one function; Controller.Race has the
--   same handlers in the steps of two threads, the tick thread and the UI thread, where a step is a
--   section under the mutex or the writes between two of them. Renderer.Upload has `update_texture` in
--   the steps of the graphics thread, with images selected by other threads in between.
-- Pipe: `process_connection`, the worker of one connection. What other threads do to the shared state
--   between two uses of it is the parameter `Schedule`. The loop over the lines runs on fuel, the
--   number of pending bytes, which is enough since each line takes its newline. Below it the server
--   with its accept thread and its list of workers (Listener). A step of the accept thread is one test
--   of `running_`, one call of Windows with what is tested and logged on its answer, or the end of a
--   round; what Windows answers is a parameter. In `stop` it goes on before each of the ten attempts to wake it, and the
--   result is none if it has not ended then, where the code waits. Handles has the calls of Windows that
--   create and close the pipes, as a list, the latest call first; `CreateNamedPipeW` is taken to return
--   no pipe that is open.
-- Plugin: the entry points of plugin-main.cpp, load and unload over any number of load cycles, and what
--   may happen between them. In a tick, other threads may call the privacy state between `tick` and
--   `mode`. Plugin.Received has the read of a worker, the tick and the drawing of a frame on one
--   privacy state, Plugin.Guarded a client that reports a
--   sensitive file or falls silent, Plugin.Shown and Plugin.Restored the UI thread once it
--   has caught up. The scenes that the plugin sets in OBS are a list, the latest first; a scene that the
--   user sets by hand is not in it.
--
-- Not modelled: the layout of the widgets of the dialog, the registration of the callbacks with OBS,
-- most texts of the log, and the extension of VS Code, which is another program.
mod Base
pub mod Protocol
pub mod Privacy
pub mod Display
pub mod Pipe
pub mod Plugin
