-- ===== src/Plugin/History.antt =====
-- The events between load and unload one after another, and load cycles one after another
-- (obs-plugin/src/plugin-main.cpp).
use obs_vscode_privacy_guard.Base.{List, [], ◌∷◌}
use obs_vscode_privacy_guard.Privacy.History.{step}
use obs_vscode_privacy_guard.Display.Renderer.{World}
use obs_vscode_privacy_guard.Display.Controller.{apply_task}
use obs_vscode_privacy_guard.Display.Controller.Events.{frontend_event, update_settings}
use obs_vscode_privacy_guard.Plugin.{
  Event, Plugin, applied, called, configured, fired, map_option, obs_module_load, obs_module_unload,
  render_privacy_overlay, rendered, tick_privacy_state, ticked,
}

module _ {Image : Type 0} where
  unfoldable pub happen : Plugin Image → Event Image → Plugin Image
  happen p (ticked now between) = tick_privacy_state now between p
  happen p (called call) = record p {
    privacy_state = map_option (λ st. step st call) p.privacy_state;
  }
  happen p (applied w) = record p {
    display_controller = map_option (apply_task w) p.display_controller;
  }
  happen p (fired w event) = record p {
    display_controller = map_option (frontend_event w event) p.display_controller;
  }
  happen p (configured settings) = record p {
    display_controller = map_option (update_settings settings) p.display_controller;
  }
  happen p (rendered g c) = (render_privacy_overlay g c p).0

  unfoldable pub happen_all : Plugin Image → List (Event Image) → Plugin Image
  unfolding happen
  happen_all p [] = p
  happen_all p (event ∷ events) = happen_all (happen p event) events

  -- OBS loads the module, what happens then, and OBS unloads it.
  unfoldable pub run_cycle : World Image → List (Event Image) → Plugin Image → Plugin Image
  unfolding obs_module_load obs_module_unload happen_all
  run_cycle w events p = obs_module_unload (happen_all (obs_module_load w p) events)

  unfoldable pub run_cycles : List (World Image × List (Event Image)) → Plugin Image → Plugin Image
  unfolding run_cycle
  run_cycles [] p = p
  run_cycles ((w, events) ∷ cycles) p = run_cycles cycles (run_cycle w events p)
