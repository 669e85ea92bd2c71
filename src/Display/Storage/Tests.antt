-- ===== src/Display/Storage/Tests.antt =====
-- The round trip with a stored object that is four functions of the key.
use obs_vscode_privacy_guard.Display.Storage.Accessors.{IsObsData}
use obs_vscode_privacy_guard.Base.{
  Bool, Bytes, Option, [], ap, codes, equal, equal_iff, false, if◌then◌else◌, none, pos, refl, some,
  true, ℕ, ℤ, ◌||◌, ◌≡◌,
}
use obs_vscode_privacy_guard.Display.{DisplayMode}
use obs_vscode_privacy_guard.Display.Controller.{Controller, is_protected_mode, make_controller}
use obs_vscode_privacy_guard.Display.Renderer.{World}
use obs_vscode_privacy_guard.Display.Storage.{ObsData, save_load}
use obs_vscode_privacy_guard.Display.Storage.RoundTrip.{save_load-save}

record Object : Type 0 where
  ints : Bytes → ℤ
  strings : Bytes → Option Bytes
  bools : Bytes → Bool
  present : Bytes → Bool

abbrev put : {A : Type 0} → Bytes → A → (Bytes → A) → Bytes → A
put k a f j = if equal j k then a else f j

abbrev objects : ObsData
objects = record {
  Data = Object;
  create = record {
    ints = λ k. pos 0;
    strings = λ k. none;
    bools = λ k. false;
    present = λ k. false;
  };
  set_int = λ k v d. record d { ints = put k v d.ints; present = put k true d.present };
  set_string =
      λ k s d. record d { strings = put k (some s) d.strings; present = put k true d.present };
  set_bool = λ k b d. record d { bools = put k b d.bools; present = put k true d.present };
  has_user_value = λ k d. d.present k;
  get_int = λ k d. d.ints k;
  get_string = λ k d. d.strings k;
  get_bool = λ k d. d.bools k;
}

put_same : {A : Type 0} (k : Bytes) (a : A) (f : Bytes → A) → put k a f k ≡ a
put_same k a f = ap (λ t. if t then a else f k) ((equal_iff k k).1 refl)

put_past :
    {A : Type 0} (k j : Bytes) (a : A) (f : Bytes → A) → equal k j ≡ false → put j a f k ≡ f k
put_past k j a f e = ap (λ t. if t then a else f k) e

objects-IsObsData : IsObsData objects
objects-IsObsData = record {
  int_int = λ k v d. put_same k v d.ints;
  string_string = λ k s d. put_same k (some s) d.strings;
  bool_bool = λ k b d. put_same k b d.bools;
  value_int = λ k v d. put_same k true d.present;
  int_past_int = λ k j v d e. put_past k j v d.ints e;
  int_past_string = λ k j s d e. refl;
  int_past_bool = λ k j b d e. refl;
  string_past_int = λ k j v d e. refl;
  string_past_string = λ k j s d e. put_past k j (some s) d.strings e;
  string_past_bool = λ k j b d e. refl;
  value_past_int = λ k j v d e. put_past k j true d.present e;
  value_past_string = λ k j s d e. put_past k j true d.present e;
  value_past_bool = λ k j b d e. put_past k j true d.present e;
}

-- No image can be loaded.
abbrev bare_world : World ℕ
bare_world = record { load = λ path. none; source = λ name. none; current_scene = none }

abbrev fresh : Controller ℕ
fresh = make_controller bare_world

abbrev chosen : Controller ℕ
chosen = record fresh {
  settings = record {
    sensitive = record {
      mode = DisplayMode.custom_scene;
      image_path = codes "a.png";
      scene = codes "Break";
    };
    connection = record {
      mode = DisplayMode.custom_image;
      image_path = codes "lost.png";
      scene = [];
    };
    custom_scene_risk_accepted = true;
  };
}

save_load-save_example :
    ((save_load objects false (save_load objects true none chosen).0 fresh).1.settings
      ≡ chosen.settings)
    × ((save_load objects false (save_load objects true none chosen).0 fresh).1.overlay_required
        ≡ (is_protected_mode fresh.latest_mode || fresh.overlay_required))
save_load-save_example = save_load-save objects chosen fresh none objects-IsObsData
