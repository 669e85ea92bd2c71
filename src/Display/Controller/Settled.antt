-- ===== src/Display/Controller/Settled.antt =====
-- The controller with an empty queue of UI tasks: what was queued last is applied.
use obs_vscode_privacy_guard.Base.{
  All, List, [], ap, arith, false, if_cases, if◌then◌else◌, is_nil, length, not, refl, subst, sym,
  true, u64_mod, ℕ, ◌%◌, ◌&&◌, ◌++◌, ◌+◌, ◌-◌, ◌==◌, ◌∙◌, ◌∷◌, ◌≡◌, ◌≢◌,
}
use obs_vscode_privacy_guard.Privacy.{Mode}
use obs_vscode_privacy_guard.Display.{DisplaySettings}
use obs_vscode_privacy_guard.Display.Renderer.{World}
use obs_vscode_privacy_guard.Display.Controller.{
  ApplyRequest, Controller, apply_checked, apply_on_ui_thread, apply_task, cover, is_protected_mode,
  make_controller, privacy_mode_changed, queue_apply, restore_previous_scene, scene_exists,
  show_default,
}
use obs_vscode_privacy_guard.Display.Controller.Events.{
  FrontendEvent, collection_changing, frontend_event, other_event, scene_collection_changing,
  scene_list_changed, scene_list_changed_handler, update_settings,
}
use obs_vscode_privacy_guard.Display.Controller.Hiding.{
  apply_on_ui_thread-Leaves, restore-Leaves, restore-overlay,
}
use obs_vscode_privacy_guard.Display.Controller.Cover.{IsCovered, IsRequest}

-- The last request, if there is one, is of this generation.
unfoldable pub Ends : ℕ → List ApplyRequest → Type 0
Ends n [] = Unit {0}
Ends n (r ∷ []) = r.generation ≡ n
Ends n (r ∷ r' ∷ rs) = Ends n (r' ∷ rs)

Ends-append :
    (n : ℕ) (rs : List ApplyRequest) (r : ApplyRequest) → r.generation ≡ n → Ends n (rs ++ r ∷ [])
unfolding Ends
Ends-append n [] r e = e
Ends-append n (r' ∷ []) r e = e
Ends-append n (r' ∷ r'' ∷ rs) r e = Ends-append n (r'' ∷ rs) r e

append-ne-nil : (rs : List ApplyRequest) (r : ApplyRequest) → rs ++ r ∷ [] ≢ []
append-ne-nil [] r e = cc
append-ne-nil (r' ∷ rs) r e = cc

module _ {Image : Type 0} where
  -- Nothing is drawn over the output, and the scene of the user is left.
  abbrev pub IsClear : Controller Image → Type 0
  IsClear d =
      (d.overlay_required ≡ false)
      × (d.watermark_required ≡ false)
      × (d.custom_scene_active ≡ false)
      × (d.active_target_scene ≡ [])

  -- With no request left, the output is clear if the mode is not a protected one.
  pub record IsSettled (d : Controller Image) : Type 0 where
    pub ends : Ends d.generation d.tasks
    pub is_clear : is_protected_mode d.latest_mode ≡ false → d.tasks ≡ [] → IsClear d

  pub make_controller-IsSettled : (w : World Image) → IsSettled (make_controller w)
  unfolding make_controller Ends
  make_controller-IsSettled w = record { ends = tt; is_clear = λ e. absurd (ground (arith, e)) }

  queue_apply-IsSettled : (d : Controller Image) (m : Mode) → IsSettled (queue_apply d m)
  unfolding queue_apply
  queue_apply-IsSettled d m = record {
    ends = Ends-append ((d.generation + 1) % u64_mod) d.tasks _ refl;
    is_clear = λ _ e. absurd (append-ne-nil d.tasks _ e);
  }

  pub privacy_mode_changed-IsSettled :
      (d : Controller Image) (m : Mode) → IsSettled d → IsSettled (privacy_mode_changed d m)
  unfolding privacy_mode_changed
  privacy_mode_changed-IsSettled d m v =
      if_cases IsSettled (not d.alive) d _ (λ _. v)
        (λ _. queue_apply-IsSettled (if is_protected_mode m then cover d else d) m)

  pub update_settings-IsSettled :
      (settings : DisplaySettings) (d : Controller Image) → IsSettled (update_settings settings d)
  unfolding update_settings
  update_settings-IsSettled settings d =
      let d' : Controller Image = record d { settings = settings } in
      queue_apply-IsSettled (if is_protected_mode d.latest_mode then cover d' else d') d.latest_mode

  pub frontend_event-IsSettled :
      (w : World Image) (event : FrontendEvent) (d : Controller Image)
      → IsSettled d
      → IsSettled (frontend_event w event d)
  unfolding frontend_event collection_changing scene_list_changed_handler
  frontend_event-IsSettled w scene_collection_changing d v = record {
    ends = v.ends;
    is_clear = λ shown _. (shown, refl, refl, refl);
  }
  frontend_event-IsSettled w scene_list_changed d v =
      if_cases IsSettled
        (not (is_nil d.active_target_scene) && not (scene_exists w d.active_target_scene)) _ d
        (λ gone.
          let l = restore-Leaves w (show_default w d.latest_mode d) in
          record {
            ends = rw (l.0, l.2) v.ends;
            is_clear = λ shown none_left.
                let c = v.is_clear (sym (ap is_protected_mode l.1) ∙ shown) (sym l.2 ∙ none_left) in
                absurd (ground (arith, gone, c.3));
          })
        (λ _. v)
  frontend_event-IsSettled w other_event d v = v

  apply_checked-IsClear :
      (w : World Image) (m : Mode) (d : Controller Image)
      → is_protected_mode m ≡ false
      → IsClear (apply_checked w m d)
  unfolding restore_previous_scene
  apply_checked-IsClear w m d shown =
      let bare : Controller Image = record d {
        watermark_required = false;
        overlay_required = false;
      } in
      if_cases IsClear (not (is_protected_mode m)) (restore_previous_scene w bare) _
        (λ _.
          let (overlay, watermark, _) = restore-overlay w bare in (overlay, watermark, refl, refl))
        (λ hidden. absurd (ground (arith, hidden, shown)))

  -- The request of the latest generation is applied.
  apply_on_ui_thread-IsClear :
      (w : World Image) (m : Mode) (generation : ℕ) (d : Controller Image)
      → d.alive ≡ true
      → generation ≡ d.generation
      → is_protected_mode m ≡ false
      → IsClear (apply_on_ui_thread w m generation d)
  unfolding apply_on_ui_thread
  apply_on_ui_thread-IsClear w m generation d on latest shown =
      if_cases IsClear (not d.alive) d _ (λ off. absurd (ground (arith, off, on)))
        (λ _.
          if_cases IsClear (not (generation == d.generation)) d _
            (λ stale. absurd (ground (arith, stale, latest)))
            (λ _. apply_checked-IsClear w m d shown))

  -- A task takes its request off the queue, and with the last one the output is as it should be.
  pub apply_task-IsSettled :
      (w : World Image) (d : Controller Image)
      → d.alive ≡ true
      → IsCovered d
      → IsSettled d
      → IsSettled (apply_task w d) × (length (apply_task w d).tasks ≡ length d.tasks - 1)
  unfolding apply_task Ends
  apply_task-IsSettled w d on covered v = go d.tasks refl
    where
      go :
          (rs : List ApplyRequest)
          → d.tasks ≡ rs
          → IsSettled (apply_task w d) × (length (apply_task w d).tasks ≡ length d.tasks - 1)
      go [] e = rw (e, apply_task) (v, ap length e)
      go (r ∷ []) e =
          let d0 : Controller Image = record d { tasks = [] } in
          let l = apply_on_ui_thread-Leaves w r.mode r.generation d0 in
          let ends : Ends d.generation (r ∷ []) = subst (Ends d.generation) e v.ends in
          let request = subst (All (IsRequest d.generation d.latest_mode)) e covered.requests in
          rw (e, apply_task)
            (
              record {
                ends = rw l.2 tt;
                is_clear = λ shown _.
                    apply_on_ui_thread-IsClear w r.mode r.generation d0 on ends
                      (ap is_protected_mode (request.0.1 ends ∙ sym l.1) ∙ shown);
              },
              ap length l.2,
            )
      go (r ∷ r' ∷ rs) e =
          let d0 : Controller Image = record d { tasks = r' ∷ rs } in
          let l = apply_on_ui_thread-Leaves w r.mode r.generation d0 in
          let ends : Ends d.generation (r' ∷ rs) = subst (Ends d.generation) e v.ends in
          rw (e, apply_task)
            (
              record {
                ends = rw (l.0, l.2) ends;
                is_clear = λ _ none_left. absurd (ground (arith, l.2, none_left));
              },
              omega (arith, ap length l.2),
            )
