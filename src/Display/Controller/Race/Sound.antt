-- ===== src/Display/Controller/Race/Sound.antt =====
-- What the tick thread and the UI thread keep between them at each step of their own handlers.
use obs_vscode_privacy_guard.Display.Controller.Race.Requests.{
  Any-append, IsLatest, IsPending, IsShut, IsSound, older_ui,
}
use obs_vscode_privacy_guard.Display.Renderer.{World}
use obs_vscode_privacy_guard.Display.Controller.Kept.{Keeps, apply_checked-Keeps}
use obs_vscode_privacy_guard.Base.{
  All, All-append, List, [], arith, if_cases, inl, inr, refl, subst, true, u64_mod, ◌%◌, ◌&&◌, ◌+◌,
  ◌<◌, ◌==◌, ◌∙◌, ◌∷◌, ◌≡◌, ◌⊎◌,
}
use obs_vscode_privacy_guard.Privacy.{Mode, tick}
use obs_vscode_privacy_guard.Display.Controller.{
  ApplyRequest, Controller, apply_checked, cover, is_protected_mode,
}
use obs_vscode_privacy_guard.Display.Controller.Hiding.{
  Leaves, apply_checked-Hides, apply_checked-Leaves,
}
use obs_vscode_privacy_guard.Display.Controller.Cover.{IsRequest, older}
use obs_vscode_privacy_guard.Display.Controller.Race.{
  Applier, Notifier, advance, applying, covering, finish_task, idle, locking, notify, queueing,
  resting, take_task,
}

module _ {Image : Type 0} where
  pub IsSound-notify :
      (d : Controller Image) (m : Mode) (ui : Applier)
      → IsSound d resting ui
      → IsSound d (notify d m) ui
  unfolding notify
  IsSound-notify d m ui v =
      if_cases (λ tick. IsSound d tick ui) d.alive (covering m) resting
        (λ _. record {
          alive = v.alive;
          requests = v.requests;
          tick_request = tt;
          ui_request = v.ui_request;
          settled = v.settled;
        })
        (λ _. v)

  pub IsSound-cover :
      (d : Controller Image) (m : Mode) (ui : Applier)
      → IsSound d (covering m) ui
      → IsSound (advance (covering m) d).1 (locking m) ui
  unfolding advance
  IsSound-cover d m ui v =
      if_cases (λ x. IsSound x (locking m) ui) (is_protected_mode m) (cover d) d
        (λ _. record {
          alive = v.alive;
          requests = v.requests;
          tick_request = tt;
          ui_request = v.ui_request;
          settled = elim v.settled [ inl p ↦ inl p | inr h ↦ inr (h.0, λ _. inl refl) ];
        })
        (λ _. record {
          alive = v.alive;
          requests = v.requests;
          tick_request = tt;
          ui_request = v.ui_request;
          settled = v.settled;
        })

  pub IsSound-lock :
      (d : Controller Image) (m : Mode) (ui : Applier)
      → d.generation + 1 < u64_mod
      → IsSound d (locking m) ui
      → IsSound (advance (locking m) d).1 (advance (locking m) d).0 ui
  unfolding advance
  IsSound-lock d m ui room v =
      let e : (d.generation + 1) % u64_mod ≡ d.generation + 1 = omega arith in
      rw e (record {
        alive = v.alive;
        requests = older d.generation d.latest_mode m d.tasks v.requests;
        tick_request = (omega arith, λ _. refl);
        ui_request = older_ui d.generation d.latest_mode m ui v.ui_request;
        settled = inl (inr (inl refl));
      })

  pub IsSound-queue :
      (d : Controller Image) (r : ApplyRequest) (ui : Applier)
      → IsSound d (queueing r) ui
      → IsSound (advance (queueing r) d).1 resting ui
  unfolding advance
  IsSound-queue d r ui v = record {
    alive = v.alive;
    requests =
        All-append (IsRequest d.generation d.latest_mode) d.tasks (r ∷ []) v.requests
          (v.tick_request, tt);
    tick_request = tt;
    ui_request = v.ui_request;
    settled = elim v.settled [
      | inl (inl h) ↦ inl (inl (Any-append (IsLatest d.generation) d.tasks r (inl h)))
      | inl (inr (inl h)) ↦ inl (inl (Any-append (IsLatest d.generation) d.tasks r (inr h)))
      | inl (inr (inr h)) ↦ inl (inr (inr h))
      | inr h ↦ inr h
    ];
  }

  pub IsSound-advance :
      (tick : Notifier) (d : Controller Image) (ui : Applier)
      → d.generation + 1 < u64_mod
      → IsSound d tick ui
      → IsSound (advance tick d).1 (advance tick d).0 ui
  unfolding advance
  IsSound-advance resting d ui room v = v
  IsSound-advance (covering m) d ui room v = IsSound-cover d m ui v
  IsSound-advance (locking m) d ui room v = IsSound-lock d m ui room v
  IsSound-advance (queueing r) d ui room v = IsSound-queue d r ui v

  pub IsSound-take :
      (tick : Notifier) (d : Controller Image)
      → IsSound d tick idle
      → IsSound (take_task d).1 tick (take_task d).0
  unfolding take_task
  IsSound-take tick d v = go d.tasks refl
    where
      go : (rs : List ApplyRequest) → d.tasks ≡ rs → IsSound (take_task d).1 tick (take_task d).0
      go [] e = rw (e, take_task) v
      go (r ∷ rs) e =
          let waiting : All (IsRequest d.generation d.latest_mode) (r ∷ rs) =
            subst (All (IsRequest d.generation d.latest_mode)) e v.requests in
          let settled =
            subst
              (λ ts.
                IsPending d.generation ts tick idle
                ⊎ ((idle ≡ idle) × (is_protected_mode d.latest_mode ≡ true → IsShut d)))
              e v.settled in
          rw (e, take_task)
            (if_cases (IsSound (record d { tasks = rs }) tick)
              (d.alive && r.generation == d.generation) (applying r) idle
              (λ taken. record {
                alive = v.alive;
                requests = waiting.1;
                tick_request = v.tick_request;
                ui_request = waiting.0;
                settled = inl (inr (inr (ground arith)));
              })
              (λ stale. record {
                alive = v.alive;
                requests = waiting.1;
                tick_request = v.tick_request;
                ui_request = tt;
                settled = ground (arith, settled, v.alive, stale);
              }))

  -- A handler that leaves the requests alone.
  pub IsSound-handle :
      (tick : Notifier) (d d' : Controller Image)
      → Leaves d d'
      → Keeps d d'
      → ((is_protected_mode d.latest_mode ≡ true → IsShut d)
          → is_protected_mode d.latest_mode ≡ true
          → IsShut d')
      → IsSound d tick idle
      → IsSound d' tick idle
  IsSound-handle tick d d' l k h v = record {
    alive = k.0 ∙ v.alive;
    requests = rw (l.0, l.1, l.2) v.requests;
    tick_request = rw (l.0, l.1) v.tick_request;
    ui_request = tt;
    settled = rw (l.0, l.1, l.2) (elim v.settled [ inl p ↦ inl p | inr s ↦ inr (refl, h s.1) ]);
  }

  pub IsSound-finish :
      (w : World Image) (tick : Notifier) (d : Controller Image) (ui : Applier)
      → IsSound d tick ui
      → IsSound (finish_task w ui d) tick idle
  unfolding finish_task
  IsSound-finish w tick d idle v = v
  IsSound-finish w tick d (applying r) v =
      let l = apply_checked-Leaves w r.mode d in
      let k = apply_checked-Keeps w r.mode d in
      let shut : (r.generation ≡ d.generation
          → is_protected_mode d.latest_mode ≡ true
          → IsShut (apply_checked w r.mode d)) =
        λ e p. (apply_checked-Hides w r.mode d (rw (v.ui_request.1 e) p)).1 in
      record {
        alive = k.0 ∙ v.alive;
        requests = rw (l.0, l.1, l.2) v.requests;
        tick_request = rw (l.0, l.1) v.tick_request;
        ui_request = tt;
        settled =
            rw (l.0, l.1, l.2)
              (elim v.settled [
                | inl (inl h) ↦ inl (inl h)
                | inl (inr (inl h)) ↦ inl (inr (inl h))
                | inl (inr (inr e)) ↦ inr (refl, shut e)
                | inr h ↦ cc
              ]);
      }
