-- ===== src/Display/Controller/Cover.antt =====
-- The handlers of the controller, and whether the output is covered.
use obs_vscode_privacy_guard.Display.Controller.Hiding.{
  IsHidden, Leaves, apply_checked-Hides, apply_checked-Leaves,
}
use obs_vscode_privacy_guard.Base.{
  ==_iff, All, All-append, Bool-cases, List, [], arith, if_cases, if◌then◌else◌, inl, inr, not,
  refl, subst, true, u64_mod, ℕ, ◌%◌, ◌+◌, ◌<◌, ◌==◌, ◌∷◌, ◌≡◌, ◌≤◌,
}
use obs_vscode_privacy_guard.Privacy.{Mode}
use obs_vscode_privacy_guard.Display.{DisplaySettings}
use obs_vscode_privacy_guard.Display.Renderer.{World}
use obs_vscode_privacy_guard.Display.Controller.{
  ApplyRequest, Controller, apply_on_ui_thread, apply_task, cover, is_protected_mode,
  make_controller, privacy_mode_changed, queue_apply,
}
use obs_vscode_privacy_guard.Display.Controller.Events.{update_settings}

-- A request is of this or an earlier generation, and one of this generation carries the latest mode.
abbrev pub IsRequest : ℕ → Mode → ApplyRequest → Type 0
IsRequest n m r = (r.generation ≤ n) × (r.generation ≡ n → r.mode ≡ m)

pub record IsCovered {Image : Type 0} (d : Controller Image) : Type 0 where
  pub requests : All (IsRequest d.generation d.latest_mode) d.tasks
  pub bounded : d.generation < u64_mod
  pub hidden :
      is_protected_mode d.latest_mode ≡ true
      → IsHidden d.overlay_required d.custom_scene_active d.active_target_scene d.scene_log

pub older :
    (n : ℕ) (m m' : Mode) (rs : List ApplyRequest)
    → All (IsRequest n m) rs
    → All (IsRequest (n + 1) m') rs
older n m m' [] h = tt
older n m m' (r ∷ rs) h =
    ((omega (arith, h.0.0), λ e. absurd (omega (arith, h.0.0))), older n m m' rs h.1)

module _ {Image : Type 0} where
  pub make_controller-IsCovered : (w : World Image) → IsCovered (make_controller w)
  unfolding make_controller
  make_controller-IsCovered w = record {
    requests = tt;
    bounded = omega arith;
    hidden = λ _. inl refl;
  }

  queue_apply-IsCovered :
      (d : Controller Image) (m : Mode)
      → d.generation + 1 < u64_mod
      → All (IsRequest d.generation d.latest_mode) d.tasks
      → (is_protected_mode m ≡ true
          → IsHidden d.overlay_required d.custom_scene_active d.active_target_scene d.scene_log)
      → IsCovered (queue_apply d m)
  unfolding queue_apply
  queue_apply-IsCovered d m room rs h =
      let e : (d.generation + 1) % u64_mod ≡ d.generation + 1 = omega arith in
      rw e (record {
        requests =
            All-append (IsRequest (d.generation + 1) m) d.tasks _
              (older d.generation d.latest_mode m d.tasks rs) ((omega arith, λ _. refl), tt);
        bounded = room;
        hidden = h;
      })

  pub privacy_mode_changed-IsCovered :
      (d : Controller Image) (m : Mode)
      → d.generation + 1 < u64_mod
      → IsCovered d
      → IsCovered (privacy_mode_changed d m)
  unfolding privacy_mode_changed
  privacy_mode_changed-IsCovered d m room v =
      if_cases IsCovered (not d.alive) d _ (λ dead. v)
        λ on.
          queue_apply-IsCovered (if is_protected_mode m then cover d else d) m
            (if_cases (λ x. x.generation + 1 < u64_mod) (is_protected_mode m) (cover d) d
              (λ _. room) (λ _. room))
            (if_cases (λ x. All (IsRequest x.generation x.latest_mode) x.tasks)
              (is_protected_mode m) (cover d) d (λ _. v.requests) (λ _. v.requests))
            (λ p. rw p (inl refl))

  pub update_settings-IsCovered :
      (settings : DisplaySettings) (d : Controller Image)
      → d.generation + 1 < u64_mod
      → IsCovered d
      → IsCovered (update_settings settings d)
  unfolding update_settings
  update_settings-IsCovered settings d room v =
      elim (Bool-cases (is_protected_mode d.latest_mode)) [
        | inl p ↦ rw p (queue_apply-IsCovered _ d.latest_mode room v.requests (λ _. inl refl))
        | inr q ↦ rw q (queue_apply-IsCovered _ d.latest_mode room v.requests (λ p. cc))
      ]

  pub keep-IsCovered :
      (d d' : Controller Image)
      → Leaves d d'
      → (is_protected_mode d.latest_mode ≡ true
          → IsHidden d'.overlay_required d'.custom_scene_active d'.active_target_scene d'.scene_log)
      → IsCovered d
      → IsCovered d'
  keep-IsCovered d d' k h v = record {
    requests = rw (k.0, k.1, k.2) v.requests;
    bounded = rw k.0 v.bounded;
    hidden = rw k.1 h;
  }

  pub apply_on_ui_thread-IsCovered :
      (w : World Image) (m : Mode) (generation : ℕ) (d : Controller Image)
      → (generation ≡ d.generation → m ≡ d.latest_mode)
      → IsCovered d
      → IsCovered (apply_on_ui_thread w m generation d)
  unfolding apply_on_ui_thread
  apply_on_ui_thread-IsCovered w m generation d current v =
      if_cases IsCovered (not d.alive) _ _ (λ _. v)
        λ on.
          if_cases IsCovered (not (generation == d.generation)) _ _ (λ _. v)
            λ match.
              let same_mode : m ≡ d.latest_mode =
                current ((==_iff generation d.generation).0 (ground arith)) in
              keep-IsCovered d _ (apply_checked-Leaves w m d)
                (λ p. (apply_checked-Hides w m d (rw same_mode p)).1) v

  pub apply_task-IsCovered :
      (w : World Image) (d : Controller Image) → IsCovered d → IsCovered (apply_task w d)
  unfolding apply_task
  apply_task-IsCovered w d v = go d.tasks refl
    where
      go : (rs : List ApplyRequest) → d.tasks ≡ rs → IsCovered (apply_task w d)
      go [] e = rw (e, apply_task) v
      go (r ∷ rs) e =
          let waiting : All (IsRequest d.generation d.latest_mode) (r ∷ rs) =
            subst (All (IsRequest d.generation d.latest_mode)) e v.requests in
          rw (e, apply_task)
            (apply_on_ui_thread-IsCovered w r.mode r.generation (record d { tasks = rs })
              waiting.0.1 (record { requests = waiting.1; bounded = v.bounded; hidden = v.hidden }))
