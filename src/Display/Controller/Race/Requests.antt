-- ===== src/Display/Controller/Race/Requests.antt =====
-- The requests that wait in the queue or that a thread holds, and what is kept of them.
use obs_vscode_privacy_guard.Base.{All, List, [], arith, true, ℕ, ◌++◌, ◌+◌, ◌∷◌, ◌≡◌, ◌⊎◌}
use obs_vscode_privacy_guard.Display.Controller.{ApplyRequest, Controller, is_protected_mode}
use obs_vscode_privacy_guard.Display.Controller.Cover.{IsRequest}
use obs_vscode_privacy_guard.Display.Controller.Hiding.{IsHidden}
use obs_vscode_privacy_guard.Display.Controller.Race.{
  Applier, Notifier, applying, covering, idle, locking, queueing, resting,
}
use obs_vscode_privacy_guard.Privacy.{Mode, tick}

-- The requests that a thread holds.
abbrev pub TickHolds : (ApplyRequest → Type 0) → Notifier → Type 0
TickHolds P (queueing r) = P r
TickHolds P _ = ⊥

abbrev pub UiHolds : (ApplyRequest → Type 0) → Applier → Type 0
UiHolds P (applying r) = P r
UiHolds P idle = ⊥

abbrev pub TickKeeps : (ApplyRequest → Type 0) → Notifier → Type 0
TickKeeps P (queueing r) = P r
TickKeeps P _ = Unit {0}

abbrev pub UiKeeps : (ApplyRequest → Type 0) → Applier → Type 0
UiKeeps P (applying r) = P r
UiKeeps P idle = Unit {0}

abbrev pub Any : (ApplyRequest → Type 0) → List ApplyRequest → Type 0
Any P [] = ⊥
Any P (r ∷ rs) = P r ⊎ Any P rs

abbrev pub IsLatest : ℕ → ApplyRequest → Type 0
IsLatest n r = r.generation ≡ n

-- The latest request waits in the queue, or a thread has it.
abbrev pub IsPending : ℕ → List ApplyRequest → Notifier → Applier → Type 0
IsPending n rs tick ui = Any (IsLatest n) rs ⊎ TickHolds (IsLatest n) tick ⊎ UiHolds (IsLatest n) ui

module _ {Image : Type 0} where
  abbrev pub IsShut : Controller Image → Type 0
  IsShut d = IsHidden d.overlay_required d.custom_scene_active d.active_target_scene d.scene_log

  -- Every request is of this or an earlier generation, and one of this generation has the latest
  -- mode; and the latest request is pending, or what it asks for is done.
  pub record IsSound (d : Controller Image) (tick : Notifier) (ui : Applier) : Type 0 where
    pub alive : d.alive ≡ true
    pub requests : All (IsRequest d.generation d.latest_mode) d.tasks
    pub tick_request : TickKeeps (IsRequest d.generation d.latest_mode) tick
    pub ui_request : UiKeeps (IsRequest d.generation d.latest_mode) ui
    pub settled :
        IsPending d.generation d.tasks tick ui
        ⊎ ((ui ≡ idle) × (is_protected_mode d.latest_mode ≡ true → IsShut d))

pub Any-append :
    (P : ApplyRequest → Type 0) (rs : List ApplyRequest) (r : ApplyRequest)
    → Any P rs ⊎ P r
    → Any P (rs ++ r ∷ [])
Any-append P [] r h = ground arith
Any-append P (q ∷ rs) r h = ground (arith, Any-append P rs r)

pub older_ui :
    (n : ℕ) (m m' : Mode) (ui : Applier)
    → UiKeeps (IsRequest n m) ui
    → UiKeeps (IsRequest (n + 1) m') ui
older_ui n m m' idle h = tt
older_ui n m m' (applying r) h = (omega (arith, h.0), λ e. absurd (omega (arith, h.0)))

pub older_tick :
    (n : ℕ) (m m' : Mode) (tick : Notifier)
    → TickKeeps (IsRequest n m) tick
    → TickKeeps (IsRequest (n + 1) m') tick
older_tick n m m' (queueing r) h = (omega (arith, h.0), λ e. absurd (omega (arith, h.0)))
older_tick n m m' resting h = tt
older_tick n m m' (covering _) h = tt
older_tick n m m' (locking _) h = tt

pub not_pending :
    (n : ℕ) (rs : List ApplyRequest) (tick : Notifier) (ui : Applier)
    → tick ≡ resting
    → ui ≡ idle
    → rs ≡ []
    → IsPending n rs tick ui
    → ⊥
not_pending n rs tick ui e f g = rw (e, f, g) (λ h. ground arith)
