-- ===== src/Plugin/Told.antt =====
-- What may happen after load, and the mode that the controller was told.
use obs_vscode_privacy_guard.Base.{
  Bool, Bytes, List, Option, [], ap, arith, if_cases, if◌then◌else◌, none, not, refl, some, suc,
  sym, true, u64_mod, ℕ, ◌&&◌, ◌+◌, ◌<◌, ◌∙◌, ◌∷◌, ◌≡◌, ◌≤◌,
}
use obs_vscode_privacy_guard.Privacy.{Mode, PrivacyState, mode, tick}
use obs_vscode_privacy_guard.Privacy.History.{Call, run}
use obs_vscode_privacy_guard.Display.Renderer.{Graphics}
use obs_vscode_privacy_guard.Display.Drawing.{
  Canvas, Sprite, render_privacy_image, render_watermark,
}
use obs_vscode_privacy_guard.Display.Controller.{
  Controller, is_protected_mode, privacy_mode_changed,
}
use obs_vscode_privacy_guard.Display.Controller.Events.{Happens, changes}
use obs_vscode_privacy_guard.Display.Controller.Hiding.{Leaves}
use obs_vscode_privacy_guard.Display.Controller.Settled.{IsSettled, privacy_mode_changed-IsSettled}
use obs_vscode_privacy_guard.Display.Controller.Cover.{IsCovered, keep-IsCovered}
use obs_vscode_privacy_guard.Display.Controller.Kept.{Keeps, privacy_mode_changed-latest}
use obs_vscode_privacy_guard.Display.Controller.Safety.{Happens-Advances, Happens-IsCovered}
use obs_vscode_privacy_guard.Plugin.{
  Plugin, is_logged, log_mode, mode_name, render_controller, render_on, render_sized, same_mode,
  tick_privacy_state,
}

pub same_mode_eq : (m m' : Mode) → same_mode m m' ≡ true → m ≡ m'
same_mode_eq m m' e = ground arith

some_injective : (m m' : Mode) → some m ≡ some m' → m ≡ m'
some_injective m m' e = cc

module _ {Image : Type 0} where
  -- A plugin between load and unload.
  abbrev pub loaded :
      PrivacyState → Controller Image → Option Mode → Bool → List Bytes → Plugin Image
  loaded st d last listening log = record {
    privacy_state = some st;
    listening = listening;
    display_controller = some d;
    last_logged_mode = last;
    log = log;
  }

  -- The controller is alive, covers what it must and no more when its queue is empty, and was told the mode that was logged last.
  pub record IsTold (n : ℕ) (d : Controller Image) (last : Option Mode) : Type 0 where
    pub alive : d.alive ≡ true
    pub covered : IsCovered d
    pub settled : IsSettled d
    pub early : d.generation ≤ n
    pub told : (m : Mode) → last ≡ some m → d.latest_mode ≡ m

  pub record Follows (n : ℕ) (p : Plugin Image) : Type 0 where
    pub st : PrivacyState
    pub d : Controller Image
    pub last : Option Mode
    pub listening : Bool
    pub log : List Bytes
    pub is_loaded : p ≡ loaded st d last listening log
    pub tells : IsTold n d last

  -- A step of the display that keeps the mode.
  pub IsTold-step :
      (n : ℕ) (d d' : Controller Image) (last : Option Mode)
      → n + 1 < u64_mod
      → Happens d d'
      → Keeps d d'
      → IsSettled d'
      → IsTold n d last
      → IsTold (suc n) d' last
  IsTold-step n d d' last room h k settled t = record {
    settled = settled;
    alive = k.0 ∙ t.alive;
    covered = Happens-IsCovered h (omega (arith, t.early)) t.covered;
    early = omega (arith, t.early, Happens-Advances h);
    told = λ m e. k.1 ∙ t.told m e;
  }

  pub IsTold-later :
      (n : ℕ) (d : Controller Image) (last : Option Mode) → IsTold n d last → IsTold (suc n) d last
  IsTold-later n d last t = record {
    settled = t.settled;
    alive = t.alive;
    covered = t.covered;
    early = omega (arith, t.early);
    told = t.told;
  }

  -- A new mode is told.
  pub IsTold-changed :
      (n : ℕ) (d : Controller Image) (last : Option Mode) (m : Mode)
      → n + 1 < u64_mod
      → IsTold n d last
      → IsTold (suc n) (privacy_mode_changed d m) (some m)
  IsTold-changed n d last m room t =
      let (alive, latest) = privacy_mode_changed-latest d m t.alive in
      record {
        alive = alive;
        settled = privacy_mode_changed-IsSettled d m t.settled;
        covered = Happens-IsCovered (changes m) (omega (arith, t.early)) t.covered;
        early = omega (arith, t.early, Happens-Advances {d = d} (changes m));
        told = λ m' e. latest ∙ some_injective m m' e;
      }

  -- A frame leaves the controller as it is but for its renderers.
  abbrev IsRendered : Controller Image → Controller Image → Type 0
  IsRendered d d' =
      Leaves d d'
      × Keeps d d'
      × (d'.overlay_required ≡ d.overlay_required)
      × (d'.watermark_required ≡ d.watermark_required)
      × (d'.custom_scene_active ≡ d.custom_scene_active)
      × (d'.active_target_scene ≡ d.active_target_scene)
      × (d'.scene_log ≡ d.scene_log)

  same-IsRendered : (d : Controller Image) → IsRendered d d
  same-IsRendered d = ((refl, refl, refl), (refl, refl), refl, refl, refl, refl, refl)

  trans-IsRendered : (d e f : Controller Image) → IsRendered d e → IsRendered e f → IsRendered d f
  trans-IsRendered d e f h k = ground arith

  render_on-IsRendered :
      (g : Graphics Image) (c : Canvas) (width height : ℕ) (d : Controller Image)
      → IsRendered d (render_on g c width height d).0
  unfolding render_on render_privacy_image render_watermark
  render_on-IsRendered g c width height d =
      let first = if d.overlay_required then render_privacy_image g c d width height else (d, []) in
      let drawn =
        if_cases (λ (r : Controller Image × List (Sprite Image)). IsRendered d r.0)
          d.overlay_required (render_privacy_image g c d width height) (d, [])
          (λ _. same-IsRendered d) (λ _. same-IsRendered d) in
      let marked =
        if_cases (λ (r : Controller Image × List (Sprite Image)). IsRendered first.0 r.0)
          d.watermark_required (render_watermark g c first.0 width height) (first.0, [])
          (λ _. same-IsRendered first.0) (λ _. same-IsRendered first.0) in
      trans-IsRendered d first.0 (render_on g c width height d).0 drawn marked

  render_sized-IsRendered :
      (g : Graphics Image) (c : Canvas) (o : Option (ℕ × ℕ)) (d : Controller Image)
      → IsRendered d (render_sized g c o d).0
  unfolding render_sized
  render_sized-IsRendered g c none d = same-IsRendered d
  render_sized-IsRendered g c (some (width, height)) d = render_on-IsRendered g c width height d

  pub render_controller-IsRendered :
      (g : Graphics Image) (c : Canvas) (d : Controller Image)
      → IsRendered d (render_controller g c d).0
  unfolding render_controller
  render_controller-IsRendered g c d =
      if_cases (λ (r : Controller Image × List (Sprite Image)). IsRendered d r.0)
        (not d.overlay_required && not d.watermark_required) (d, [])
        (render_sized g c c.video_info d) (λ _. same-IsRendered d)
        (λ _. render_sized-IsRendered g c c.video_info d)

  pub IsTold-rendered :
      (n : ℕ) (d d' : Controller Image) (last : Option Mode)
      → IsRendered d d'
      → IsTold n d last
      → IsTold (suc n) d' last
  IsTold-rendered n d d' last h t =
      let (leaves, keeps, overlay, watermark, active, target, scenes) = h in
      record {
        alive = keeps.0 ∙ t.alive;
        covered =
            keep-IsCovered d d' leaves
              (λ p. rw overlay (rw active (rw target (rw scenes (t.covered.hidden p))))) t.covered;
        settled = record {
          ends = rw (leaves.0, leaves.2) t.settled.ends;
          is_clear = λ shown none_left.
              let c =
                t.settled.is_clear (sym (ap is_protected_mode keeps.1) ∙ shown)
                  (sym leaves.2 ∙ none_left) in
              (overlay ∙ c.0, watermark ∙ c.1, active ∙ c.2, target ∙ c.3);
        };
        early = omega (arith, leaves.0, t.early);
        told = λ m e. keeps.1 ∙ t.told m e;
      }

  pub tick-Follows :
      (n now : ℕ) (between : List Call) (p : Plugin Image)
      → n + 1 < u64_mod
      → Follows n p
      → Follows (suc n) (tick_privacy_state now between p)
  unfolding tick_privacy_state log_mode
  tick-Follows n now between p room f =
      rw f.is_loaded (told f.st f.d f.last f.listening f.log f.tells)
    where
      told :
          (st : PrivacyState) (d : Controller Image) (last : Option Mode) (listening : Bool)
          (log : List Bytes)
          → IsTold n d last
          → Follows (suc n) (tick_privacy_state now between (loaded st d last listening log))
      told st d last listening log t =
          let current = mode (run (tick st now) between) in
          if_cases (Follows (suc n)) (is_logged last current) _ _
            (λ _. record {
              st = run (tick st now) between;
              d = d;
              last = last;
              listening = listening;
              log = log;
              is_loaded = refl;
              tells = IsTold-later n d last t;
            })
            (λ _. record {
              st = run (tick st now) between;
              d = privacy_mode_changed d current;
              last = some current;
              listening = listening;
              log = mode_name current ∷ log;
              is_loaded = refl;
              tells = IsTold-changed n d last current room t;
            })
