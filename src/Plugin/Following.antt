-- ===== src/Plugin/Following.antt =====
-- What holds of the plugin from load on, through all that may happen.
use obs_vscode_privacy_guard.Base.{
  Bool, Bytes, List, Option, [], add-zero, arith, length, none, refl, subst, suc, sym, true,
  u64_mod, ℕ, ◌+◌, ◌<◌, ◌∙◌, ◌∷◌, ◌≡◌,
}
use obs_vscode_privacy_guard.Display.Controller.{Controller, apply_task, make_controller}
use obs_vscode_privacy_guard.Display.Controller.Settled.{
  apply_task-IsSettled, frontend_event-IsSettled, make_controller-IsSettled,
  update_settings-IsSettled,
}
use obs_vscode_privacy_guard.Display.Controller.Cover.{make_controller-IsCovered}
use obs_vscode_privacy_guard.Display.Controller.Events.{
  applies, configures, fires, frontend_event, update_settings,
}
use obs_vscode_privacy_guard.Display.Controller.Kept.{
  apply_task-Keeps, frontend_event-Keeps, update_settings-Keeps,
}
use obs_vscode_privacy_guard.Display.Renderer.{World}
use obs_vscode_privacy_guard.Plugin.{
  Event, Plugin, applied, called, configured, fired, liveness_timeout, obs_module_load,
  obs_module_unload, render_controller, render_privacy_overlay, rendered, tick_privacy_state,
  ticked, unloaded,
}
use obs_vscode_privacy_guard.Plugin.History.{happen, happen_all, run_cycle, run_cycles}
use obs_vscode_privacy_guard.Plugin.Told.{
  Follows, IsTold, IsTold-later, IsTold-rendered, IsTold-step, loaded, render_controller-IsRendered,
  tick-Follows,
}
use obs_vscode_privacy_guard.Privacy.{Mode, PrivacyState, make_state}
use obs_vscode_privacy_guard.Privacy.History.{step}

module _ {Image : Type 0} where
  pub happen-Follows :
      (n : ℕ) (event : Event Image) (p : Plugin Image)
      → n + 1 < u64_mod
      → Follows n p
      → Follows (suc n) (happen p event)
  unfolding happen tick_privacy_state render_privacy_overlay
  happen-Follows n event p room f =
      rw f.is_loaded (happens event f.st f.d f.last f.listening f.log f.tells)
    where
      happens :
          (event : Event Image) (st : PrivacyState) (d : Controller Image) (last : Option Mode)
          (listening : Bool) (log : List Bytes)
          → IsTold n d last
          → Follows (suc n) (happen (loaded st d last listening log) event)
      happens (ticked now between) st d last listening log t =
          tick-Follows n now between (loaded st d last listening log) room (record {
            st = st;
            d = d;
            last = last;
            listening = listening;
            log = log;
            is_loaded = refl;
            tells = t;
          })
      happens (called call) st d last listening log t = record {
        st = step st call;
        d = d;
        last = last;
        listening = listening;
        log = log;
        is_loaded = refl;
        tells = IsTold-later n d last t;
      }
      happens (applied w) st d last listening log t = record {
        st = st;
        d = apply_task w d;
        last = last;
        listening = listening;
        log = log;
        is_loaded = refl;
        tells =
            IsTold-step n d (apply_task w d) last room (applies w) (apply_task-Keeps w d)
              (apply_task-IsSettled w d t.alive t.covered t.settled).0 t;
      }
      happens (fired w event) st d last listening log t = record {
        st = st;
        d = frontend_event w event d;
        last = last;
        listening = listening;
        log = log;
        is_loaded = refl;
        tells =
            IsTold-step n d (frontend_event w event d) last room (fires w event)
              (frontend_event-Keeps w event d) (frontend_event-IsSettled w event d t.settled) t;
      }
      happens (configured settings) st d last listening log t = record {
        st = st;
        d = update_settings settings d;
        last = last;
        listening = listening;
        log = log;
        is_loaded = refl;
        tells =
            IsTold-step n d (update_settings settings d) last room (configures settings)
              (update_settings-Keeps settings d) (update_settings-IsSettled settings d) t;
      }
      happens (rendered g c) st d last listening log t = record {
        st = st;
        d = (render_controller g c d).0;
        last = last;
        listening = listening;
        log = log;
        is_loaded = refl;
        tells =
            IsTold-rendered n d (render_controller g c d).0 last
              (render_controller-IsRendered g c d) t;
      }

  pub happen_all-Follows :
      (n : ℕ) (events : List (Event Image)) (p : Plugin Image)
      → n + length events < u64_mod
      → Follows n p
      → Follows (n + length events) (happen_all p events)
  unfolding happen_all
  happen_all-Follows n [] p room f = rw (add-zero n) f
  happen_all-Follows n (event ∷ events) p room f =
      subst (λ k. Follows k (happen_all (happen p event) events)) (omega arith)
        (happen_all-Follows (suc n) events (happen p event) (omega arith)
          (happen-Follows n event p (omega arith) f))

  pub load-Follows :
      (w : World Image) (p : Plugin Image)
      → p.last_logged_mode ≡ none
      → Follows 0 (obs_module_load w p)
  unfolding obs_module_load make_controller
  load-Follows w p unlogged = record {
    st = make_state liveness_timeout;
    d = make_controller w;
    last = p.last_logged_mode;
    listening = true;
    log = p.log;
    is_loaded = refl;
    tells = record {
      alive = refl;
      settled = make_controller-IsSettled w;
      covered = make_controller-IsCovered w;
      early = omega arith;
      told = λ m e. absurd (ground (arith, sym unlogged ∙ e));
    };
  }

  -- No load cycle leaves a logged mode behind.
  pub run_cycles-unlogged :
      (cycles : List (World Image × List (Event Image))) (p : Plugin Image)
      → p.last_logged_mode ≡ none
      → (run_cycles cycles p).last_logged_mode ≡ none
  unfolding run_cycles run_cycle obs_module_unload
  run_cycles-unlogged [] p unlogged = unlogged
  run_cycles-unlogged ((w, events) ∷ cycles) p unlogged =
      run_cycles-unlogged cycles (run_cycle w events p) refl

  -- What holds after a load and these events, in any load cycle.
  pub cycles-Follows :
      (cycles : List (World Image × List (Event Image))) (w : World Image)
      (events : List (Event Image))
      → length events < u64_mod
      → Follows
          (length events)
          (happen_all (obs_module_load w (run_cycles cycles (unloaded Image))) events)
  cycles-Follows cycles w events room =
      let before = run_cycles cycles (unloaded Image) in
      let start = obs_module_load w before in
      subst (λ n. Follows n (happen_all start events)) (omega arith)
        (happen_all-Follows 0 events start (omega arith)
          (load-Follows w before (run_cycles-unlogged cycles (unloaded Image) refl)))
