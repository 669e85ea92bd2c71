-- ===== src/Display/Dialog/Reopened.antt =====
-- The widgets of the settings dialog when it opens, and the settings that are read back from them.
use obs_vscode_privacy_guard.Base.{
  Bool, Bool-cases, Bytes, List, Option, [], arith, codes, equal, equal_iff, false, if_cases,
  if◌then◌else◌, inl, inr, is_nil, not, refl, some, subst, true, ℕ, ◌&&◌, ◌++◌, ◌||◌, ◌∷◌, ◌≡◌, ◌≢◌,
  ◌⊎◌,
}
use obs_vscode_privacy_guard.Privacy.{same}
use obs_vscode_privacy_guard.Display.{DisplayMode, DisplaySettings}
use obs_vscode_privacy_guard.Display.Dialog.{
  ComboBox, add_scenes, index_or_first, open_form, populate_display_modes, populate_scene_combo,
  scene_names, select_index, settings_of,
}

abbrev pub Found : {D : Type 0} (q : ComboBox D) → D → q.Box → Type 0
Found q d box = (i : ℕ) × (q.find_data d box ≡ some i)

-- What Qt documents of `addItem`, `findData`, `setCurrentIndex` and `currentData`: an item that was
-- added is found, also after further items, and an item that is found and selected has that data.
pub record ComboLaws {D : Type 0} (q : ComboBox D) : Type 0 where
  pub find-add : (text : Bytes) (d : D) (box : q.Box) → Found q d (q.add_item text d box)
  pub find-kept :
      (text : Bytes) (d d' : D) (box : q.Box) → Found q d box → Found q d (q.add_item text d' box)
  pub current-selected :
      (d : D) (box : q.Box) (i : ℕ)
      → q.find_data d box ≡ some i
      → q.current_data (q.set_current_index i box) ≡ d

module _ (q : ComboBox DisplayMode) (laws : ComboLaws q) where
  select-Found :
      (m : DisplayMode) (box : q.Box)
      → Found q m box
      → q.current_data (q.set_current_index (index_or_first (q.find_data m box)) box) ≡ m
  select-Found m box (i, e) = rw e (laws.current-selected m box i e)

  populate_display_modes-current :
      (m : DisplayMode) → q.current_data (populate_display_modes q m) ≡ m
  unfolding populate_display_modes
  populate_display_modes-current DisplayMode.built_in_image =
      select-Found _ _ (laws.find-kept _ _ _ _ (laws.find-kept _ _ _ _ (laws.find-add _ _ _)))
  populate_display_modes-current DisplayMode.custom_image =
      select-Found _ _ (laws.find-kept _ _ _ _ (laws.find-add _ _ _))
  populate_display_modes-current DisplayMode.custom_scene = select-Found _ _ (laws.find-add _ _ _)

listed_found :
    (selected : Bytes) (found : Bool)
    → selected ≢ []
    → (not (is_nil selected) && not found) ≡ false
    → found ≡ true
listed_found [] found ne listed = absurd (ne refl)
listed_found (c ∷ cs) found ne listed = ground (arith, listed)

module _ (q : ComboBox Bytes) (laws : ComboLaws q) where
  added-Found :
      (name selected : Bytes) (box : q.Box) (found : Bool)
      → (found ≡ true → Found q selected box)
      → (equal name selected ≡ true) ⊎ (equal name selected ≡ false)
      → (found || equal name selected) ≡ true
      → Found q selected (q.add_item name name box)
  added-Found name selected box found h (inl same) either =
      subst (λ d. Found q d (q.add_item name name box)) ((equal_iff name selected).0 same)
        (laws.find-add name name box)
  added-Found name selected box found h (inr other) either =
      laws.find-kept _ _ _ _ (h (ground (arith, other, either)))

  add_scenes-Found :
      (names : List Bytes) (selected : Bytes) (box : q.Box) (found : Bool)
      → (found ≡ true → Found q selected box)
      → (add_scenes q names selected box found).1 ≡ true
      → Found q selected (add_scenes q names selected box found).0
  unfolding add_scenes
  add_scenes-Found [] selected box found h e = h e
  add_scenes-Found (name ∷ names) selected box found h e =
      add_scenes-Found names selected (q.add_item name name box) (found || equal name selected)
        (λ either. added-Found name selected box found h (Bool-cases (equal name selected)) either)
        e

  select_index-current :
      (selected : Bytes) (box : q.Box)
      → Found q selected box
      → q.current_data (select_index q (q.find_data selected box) box) ≡ selected
  select_index-current selected box (i, e) = rw e (laws.current-selected selected box i e)

  -- The box after the item of a scene that is missing.
  completed-Found :
      (selected : Bytes) (box : q.Box) (found : Bool)
      → selected ≢ []
      → (found ≡ true → Found q selected box)
      → Found q selected (
          if not (is_nil selected) && not found
          then q.add_item (codes "Missing: " ++ selected) selected box
          else box)
  completed-Found selected box found ne h =
      if_cases (Found q selected) (not (is_nil selected) && not found) _ _
        (λ missing. laws.find-add _ _ _) (λ listed. h (listed_found selected found ne listed))

  populate_scene_combo-current :
      (names : Option (List Bytes)) (selected : Bytes)
      → selected ≢ []
      → q.current_data (populate_scene_combo q names selected) ≡ selected
  unfolding populate_scene_combo
  populate_scene_combo-current names selected ne = select_index-current selected _ (
      completed-Found selected _ _ ne
        (add_scenes-Found (scene_names names) selected q.empty_box false (λ e. ground (arith, e))))

-- What is read back from the widgets is what they were filled with.
pub open_form-settings_of :
    (modes : ComboBox DisplayMode) (scenes : ComboBox Bytes)
    → ComboLaws modes
    → ComboLaws scenes
    → (names : Option (List Bytes)) (enabled : Bool) (current : DisplaySettings)
    → current.sensitive.scene ≢ []
    → current.connection.scene ≢ []
    → (settings_of (open_form modes scenes names enabled current) ≡ current)
      × ((open_form modes scenes names enabled current).protection_enabled ≡ enabled)
unfolding settings_of open_form
open_form-settings_of modes scenes mode_laws scene_laws names enabled current named named' = (
  (λ i. record {
    sensitive = record {
      mode = populate_display_modes-current modes mode_laws current.sensitive.mode i;
      image_path = current.sensitive.image_path;
      scene = populate_scene_combo-current scenes scene_laws names current.sensitive.scene named i;
    };
    connection = record {
      mode = populate_display_modes-current modes mode_laws current.connection.mode i;
      image_path = current.connection.image_path;
      scene =
          populate_scene_combo-current scenes scene_laws names current.connection.scene named' i;
    };
    custom_scene_risk_accepted = current.custom_scene_risk_accepted;
  }),
  refl,
)
