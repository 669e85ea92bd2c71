-- ===== src/Plugin.antt =====
-- obs-plugin/src/plugin-main.cpp: what OBS calls, and the objects that live from load to unload.
pub mod History
pub mod Told
pub mod Painting
pub mod Following
pub mod EndToEnd
pub mod Received
pub mod Shown
pub mod Restored
pub mod Guarded
mod Tests
use obs_vscode_privacy_guard.Base.{
  Bool, Bytes, List, Option, [], codes, false, if◌then◌else◌, none, not, some, true, ℕ, ◌&&◌, ◌++◌,
  ◌∷◌,
}
use obs_vscode_privacy_guard.Privacy.{Mode, PrivacyState, make_state, mode, tick}
use obs_vscode_privacy_guard.Privacy.History.{Call, run}
use obs_vscode_privacy_guard.Display.{DisplaySettings}
use obs_vscode_privacy_guard.Display.Renderer.{Graphics, World}
use obs_vscode_privacy_guard.Display.Controller.{Controller, make_controller, privacy_mode_changed}
use obs_vscode_privacy_guard.Display.Controller.Events.{FrontendEvent}
use obs_vscode_privacy_guard.Display.Drawing.{
  Canvas, Color, Sprite, fills, render_privacy_image, render_watermark, repeat,
}

-- Two seconds, in the nanoseconds of `std::chrono::steady_clock`.
abbrev pub liveness_timeout : ℕ
liveness_timeout = 2000000000

-- The module's variables, whether the pipe server listens, and the log of modes, the latest first.
pub record Plugin (Image : Type 0) : Type 0 where
  pub privacy_state : Option PrivacyState
  pub listening : Bool
  pub display_controller : Option (Controller Image)
  pub last_logged_mode : Option Mode
  pub log : List Bytes

abbrev pub mode_name : Mode → Bytes
mode_name Mode.disabled = codes "DISABLED"
mode_name Mode.awaiting_connection = codes "AWAITING_CONNECTION"
mode_name Mode.safe = codes "SAFE"
mode_name Mode.sensitive = codes "SENSITIVE"
mode_name Mode.disconnected = codes "DISCONNECTED"

-- `==` of two modes.
abbrev pub same_mode : Mode → Mode → Bool
same_mode Mode.disabled Mode.disabled = true
same_mode Mode.awaiting_connection Mode.awaiting_connection = true
same_mode Mode.safe Mode.safe = true
same_mode Mode.sensitive Mode.sensitive = true
same_mode Mode.disconnected Mode.disconnected = true
same_mode _ _ = false

-- `last_logged_mode.has_value() && *last_logged_mode == current_mode`
abbrev pub is_logged : Option Mode → Mode → Bool
is_logged none m = false
is_logged (some last) m = same_mode last m

abbrev pub unloaded : (Image : Type 0) → Plugin Image
unloaded Image = record {
  privacy_state = none;
  listening = false;
  display_controller = none;
  last_logged_mode = none;
  log = [];
}

abbrev pub map_option : {A B : Type 0} → (A → B) → Option A → Option B
map_option f none = none
map_option f (some a) = some (f a)

module _ {Image : Type 0} where
  unfoldable pub obs_module_load : World Image → Plugin Image → Plugin Image
  unfolding make_controller
  obs_module_load w p = record p {
    privacy_state = some (make_state liveness_timeout);
    display_controller = some (make_controller w);
    listening = true;
  }

  -- The destroyed objects are gone.
  unfoldable pub obs_module_unload : Plugin Image → Plugin Image
  obs_module_unload p = record p {
    listening = false;
    display_controller = none;
    privacy_state = none;
    last_logged_mode = none;
  }

  -- The rest of `tick_privacy_state` with the current mode.
  unfoldable pub log_mode : Mode → Plugin Image → Plugin Image
  unfolding privacy_mode_changed
  log_mode current p = if is_logged p.last_logged_mode current then p else record p {
    log = mode_name current ∷ p.log;
    last_logged_mode = some current;
    display_controller = map_option (λ d. privacy_mode_changed d current) p.display_controller;
  }

  -- The calls that other threads make between `tick` and `mode` stand in `between`.
  unfoldable pub tick_privacy_state : ℕ → List Call → Plugin Image → Plugin Image
  unfolding tick mode log_mode run
  tick_privacy_state now between p = elim p.privacy_state [
    | none ↦ p
    | some st ↦
        let st' = run (tick st now) between in
        log_mode (mode st') (record p { privacy_state = some st' })
  ]

  unfoldable pub draw_opaque_overlay : Canvas → ℕ → ℕ → List (Sprite Image)
  draw_opaque_overlay c width height = elim c.solid_passes [
    | none ↦ []
    | some passes ↦
        let color : Color = record { red = 0; green = 0; blue = 0; alpha = 1 } in
        repeat passes (fills color width height)
  ]

  -- The drawing of `render_privacy_overlay` on a canvas of a known size.
  unfoldable pub render_on :
      Graphics Image → Canvas → ℕ → ℕ → Controller Image → Controller Image × List (Sprite Image)
  unfolding draw_opaque_overlay render_privacy_image render_watermark
  render_on g c width height d =
      let (d1, image) =
        if d.overlay_required then render_privacy_image g c d width height else (d, []) in
      let overlay = if d.overlay_required then draw_opaque_overlay c width height else [] in
      let (d2, watermark) =
        if d.watermark_required then render_watermark g c d1 width height else (d1, []) in
      (d2, overlay ++ (image ++ watermark))

  -- What `obs_get_video_info` leads to.
  unfoldable pub render_sized :
      Graphics Image
      → Canvas
      → Option (ℕ × ℕ)
      → Controller Image
      → Controller Image × List (Sprite Image)
  unfolding render_on
  render_sized g c none d = (d, [])
  render_sized g c (some (width, height)) d = render_on g c width height d

  unfoldable pub render_controller :
      Graphics Image → Canvas → Controller Image → Controller Image × List (Sprite Image)
  unfolding render_sized
  render_controller g c d =
      if not d.overlay_required && not d.watermark_required
      then (d, [])
      else render_sized g c c.video_info d

  unfoldable pub render_privacy_overlay :
      Graphics Image → Canvas → Plugin Image → Plugin Image × List (Sprite Image)
  unfolding render_controller
  render_privacy_overlay g c p = elim p.display_controller [
    | none ↦ (p, [])
    | some d ↦
        let (d', sprites) = render_controller g c d in
        (record p { display_controller = some d' }, sprites)
  ]

-- What happens between load and unload: a tick of OBS, a call of a worker or the dialog on the privacy
-- state, a task of the UI queue, an event of the frontend, new settings, and the rendering of a frame.
pub data Event (Image : Type 0) : Type 0 where
  ticked : (now : ℕ) (between : List Call) → Event Image
  called : Call → Event Image
  applied : World Image → Event Image
  fired : World Image → FrontendEvent → Event Image
  configured : DisplaySettings → Event Image
  rendered : Graphics Image → Canvas → Event Image
