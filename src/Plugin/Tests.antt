-- ===== src/Plugin/Tests.antt =====
-- The theorems on the whole plugin at concrete sequences of events. An image is a number here.
use obs_vscode_privacy_guard.Base.{
  Bytes, List, [], arith, codes, false, inr, length, none, refl, some, true, ℕ, ◌++◌, ◌∷◌, ◌≡◌, ◌⊎◌,
}
use obs_vscode_privacy_guard.Privacy.{
  Client, Mode, accept_sequence, connection_opened, find, hello_received, make_state, mode,
  state_received, tick,
}
use obs_vscode_privacy_guard.Privacy.History.{Call, errors, hellos, opens, run, states, step}
use obs_vscode_privacy_guard.Display.{DisplayMode, DisplaySettings, default_settings}
use obs_vscode_privacy_guard.Display.Renderer.{Graphics, World}
use obs_vscode_privacy_guard.Display.Drawing.{Canvas, Sprite, fills, opaque_black}
use obs_vscode_privacy_guard.Plugin.{
  Event, Plugin, applied, called, configured, liveness_timeout, log_mode, obs_module_load,
  obs_module_unload, render_privacy_overlay, rendered, tick_privacy_state, ticked,
}
use obs_vscode_privacy_guard.Plugin.History.{happen, happen_all, run_cycle, run_cycles}
use obs_vscode_privacy_guard.Plugin.Shown.{run_ui, shown_frame}
use obs_vscode_privacy_guard.Display.Controller.{Controller, apply_task, make_controller}
use obs_vscode_privacy_guard.Display.Controller.Events.{update_settings}
use obs_vscode_privacy_guard.Plugin.Guarded.{sensitive_file_hidden, silent_client_hidden}
use obs_vscode_privacy_guard.Plugin.Received.{
  after_events, calls_of, received_alarm_hides, ticked_after_read,
}
use obs_vscode_privacy_guard.Pipe.{Worker, find_newline, receive}
use obs_vscode_privacy_guard.Protocol.{FrameKind, parse_frame}
use obs_vscode_privacy_guard.Plugin.EndToEnd.{
  IsOnScene, current_mode, protected_frame, ticked_after,
}

abbrev a_world : World ℕ
a_world = record {
  load = λ path. some (length path);
  source = λ name. some true;
  current_scene = none;
}

abbrev a_graphics : Graphics ℕ
a_graphics = record { width = λ image. image; height = λ image. image; creates = λ image. true }

abbrev a_canvas : Canvas
a_canvas = record { video_info = some (1920, 1080); solid_passes = some 1; default_passes = some 1 }

-- A tick, its task, a new connection and a frame.
abbrev some_events : List (Event ℕ)
some_events =
    ticked 5 (states 0 0 false 5 ∷ [])
    ∷ applied a_world
    ∷ called (opens 6)
    ∷ configured default_settings
    ∷ rendered a_graphics a_canvas
    ∷ []

-- Before the mode is read, the client says hello.
abbrev the_calls : List Call
the_calls = hellos 1 (codes "a") 9 ∷ []

-- The plugin was loaded before, and has logged a mode then.
abbrev the_cycles : List (World ℕ × List (Event ℕ))
the_cycles = (a_world, ticked 4 [] ∷ called (opens 5) ∷ []) ∷ []

protected_frame_example :
    ((rest : List (Sprite ℕ)) × ((render_privacy_overlay a_graphics a_canvas
          (ticked_after the_cycles a_world some_events 9 the_calls)).1
        ≡ fills opaque_black 1920 1080 ∷ rest))
    ⊎ IsOnScene (ticked_after the_cycles a_world some_events 9 the_calls)
unfolding run_cycles run_cycle obs_module_unload happen_all happen tick_privacy_state log_mode mode
    tick obs_module_load step state_received hello_received connection_opened find
    render_privacy_overlay
protected_frame_example =
    protected_frame the_cycles a_world some_events 9 the_calls a_graphics a_canvas 1920 1080 0
      (omega arith) refl refl refl

-- A client that has said HELLO, and what its worker has read of the next line.
abbrev client_events : List (Event ℕ)
client_events =
    called (opens 6)
    ∷ called (hellos 1 (codes "01234567-89ab-cdef-0123-456789abcdef") 6)
    ∷ ticked 7 []
    ∷ []

abbrev a_worker : Worker
a_worker = record {
  shared = run (make_state liveness_timeout) (calls_of client_events);
  uses = 1;
  pending = codes "PG/1 ST";
  graceful = false;
  state_entry_active = true;
}

-- The rest of the line.
abbrev rest_of_line : Bytes
rest_of_line = codes "ATE 1 SENSITIVE\n"

abbrev a_client : Client
a_client = record {
  client_id = codes "01234567-89ab-cdef-0123-456789abcdef";
  last_sequence = none;
  sensitive = none;
  last_update = 6;
  hello_received = true;
}

abbrev ticked_plugin : Plugin ℕ
ticked_plugin =
    ticked_after_read (λ n. 8) 1 rest_of_line a_worker 9
      (after_events the_cycles a_world client_events)

test_mode : current_mode ticked_plugin ≡ Mode.sensitive
unfolding run_cycles run_cycle obs_module_unload happen_all happen tick_privacy_state log_mode mode
    tick obs_module_load step state_received hello_received connection_opened find run calls_of
    parse_frame accept_sequence receive
test_mode = refl

received_alarm_hides_example :
    ((rest : List (Sprite ℕ)) × ((render_privacy_overlay a_graphics a_canvas ticked_plugin).1
        ≡ fills opaque_black 1920 1080 ∷ rest))
    ⊎ IsOnScene ticked_plugin
unfolding happen_all happen tick_privacy_state log_mode mode tick obs_module_load step
    connection_opened hello_received find run calls_of parse_frame find_newline run_cycles
    obs_module_unload run_cycle
received_alarm_hides_example =
    received_alarm_hides the_cycles a_world client_events (λ n. 8) 1 rest_of_line a_worker a_client
      9 a_graphics a_canvas 1920 1080 0 (omega arith) (omega arith) refl refl refl refl
      (inr (
        22,
        record { kind = FrameKind.state; client_id = []; sequence = 1; sensitive = true },
        refl,
        refl,
        refl,
        refl,
        refl,
      ))
      refl refl

-- The client then says that it is safe; a scene of the user is not set up.
abbrev safe_events : List (Event ℕ)
safe_events = client_events ++ called (states 1 1 false 8) ∷ []

shown_frame_example :
    (render_privacy_overlay a_graphics a_canvas
      (run_ui (a_world ∷ a_world ∷ []) (ticked_after the_cycles a_world safe_events 9 []))).1
    ≡ []
unfolding happen_all happen tick_privacy_state log_mode mode tick obs_module_load step
    connection_opened hello_received state_received accept_sequence find run_cycles
    obs_module_unload run_cycle
shown_frame_example =
    shown_frame the_cycles a_world safe_events 9 [] (a_world ∷ a_world ∷ []) a_graphics a_canvas
      (omega arith) refl (omega arith)

-- What follows a report: another connection opens, and OBS ticks.
abbrev events_behind : List (Event ℕ)
events_behind = called (opens 9) ∷ applied a_world ∷ ticked 10 [] ∷ []

sensitive_file_hidden_example :
    (let p =
        ticked_after the_cycles a_world
          (client_events ++ called (states 1 1 true 8) ∷ events_behind)
          11
          (errors 2 ∷ []) in
      ((rest : List (Sprite ℕ)) × ((render_privacy_overlay a_graphics a_canvas p).1
          ≡ fills opaque_black 1920 1080 ∷ rest))
      ⊎ IsOnScene p)
unfolding happen_all happen tick_privacy_state log_mode mode tick obs_module_load step
    connection_opened hello_received state_received accept_sequence find run_cycles
    obs_module_unload run_cycle run calls_of
sensitive_file_hidden_example =
    sensitive_file_hidden the_cycles a_world client_events events_behind
      (run (make_state liveness_timeout) (calls_of client_events)) 1 1 8 11 (errors 2 ∷ [])
      a_graphics a_canvas 1920 1080 0 (omega arith) refl refl refl
      (tt, (omega arith, (omega arith, ((λ e. ground (arith, e)), tt)))) refl refl

-- The client says that it is safe and then nothing more.
abbrev silent_client : Client
silent_client = record a_client { last_sequence = some 1; sensitive = some false; last_update = 8 }

silent_client_hidden_example :
    (let p = ticked_after the_cycles a_world safe_events 2000000009 [] in
      ((rest : List (Sprite ℕ)) × ((render_privacy_overlay a_graphics a_canvas p).1
          ≡ fills opaque_black 1920 1080 ∷ rest))
      ⊎ IsOnScene p)
unfolding happen_all happen tick_privacy_state log_mode mode tick obs_module_load step
    connection_opened hello_received state_received accept_sequence find run_cycles
    obs_module_unload run_cycle run calls_of
silent_client_hidden_example =
    silent_client_hidden the_cycles a_world safe_events
      (run (make_state liveness_timeout) (calls_of safe_events)) 1 2000000009 silent_client
      a_graphics a_canvas 1920 1080 0 (omega arith) (omega arith) refl refl refl (omega arith) refl
      refl

-- A client whose file is sensitive while the user has chosen the scene `Break` for that.
abbrev scene_world : World ℕ
scene_world = record {
  load = λ path. some (length path);
  source = λ name. some true;
  current_scene = some (some (codes "Desktop"));
}

abbrev scene_settings : DisplaySettings
scene_settings = record default_settings {
  sensitive = record { mode = DisplayMode.custom_scene; image_path = []; scene = codes "Break" };
  custom_scene_risk_accepted = true;
}

abbrev scene_events : List (Event ℕ)
scene_events =
    client_events
    ++ configured scene_settings
      ∷ called (states 1 1 true 8)
      ∷ ticked 9 []
      ∷ applied scene_world
      ∷ applied scene_world
      ∷ applied scene_world
      ∷ applied scene_world
      ∷ called (states 1 2 false 10)
      ∷ []

abbrev on_scene : Plugin ℕ
on_scene = ticked_after the_cycles a_world scene_events 11 []

abbrev its_controller : Controller ℕ
its_controller = elim on_scene.display_controller [ none ↦ make_controller a_world | some d ↦ d ]

test_scene :
    (its_controller.scene_log ≡ codes "Break" ∷ [])
    × (its_controller.custom_scene_active ≡ true)
    × (its_controller.previous_scene ≡ codes "Desktop")
unfolding happen_all happen tick_privacy_state log_mode mode tick obs_module_load step
    connection_opened hello_received state_received accept_sequence find run_cycles
    obs_module_unload run_cycle apply_task update_settings
test_scene = (refl, refl, refl)
