-- ===== src/Display/Dialog/Boxes.antt =====
-- A combo box that is the list of the data of its items, the latest first, with the current index.
use obs_vscode_privacy_guard.Base.{
  Bool, Bytes, List, Option, Option-cases, [], arith, equal, equal_iff, false, if_cases,
  if◌then◌else◌, inl, inr, length, none, refl, some, subst, sym, true, ℕ, ◌<◌, ◌==◌, ◌∙◌, ◌∷◌, ◌≡◌,
}
use obs_vscode_privacy_guard.Display.{DisplayMode}
use obs_vscode_privacy_guard.Display.Dialog.{ComboBox}
use obs_vscode_privacy_guard.Display.Dialog.Reopened.{ComboLaws}

abbrev first_or : Option ℕ → ℕ → Bool → Option ℕ
first_or none n same = if same then some n else none
first_or (some i) n same = some i

first_or-none : (n i : ℕ) (same : Bool) → first_or none n same ≡ some i → (same ≡ true) × (i ≡ n)
first_or-none n i true e = (refl, ground (arith, e))
first_or-none n i false e = ground (arith, e)

module _ {D : Type 0} (eq : D → D → Bool) where
  abbrev index_of : D → List D → Option ℕ
  index_of d [] = none
  index_of d (x ∷ xs) = first_or (index_of d xs) (length xs) (eq d x)

  abbrev nth : D → ℕ → List D → D
  nth default i [] = default
  nth default i (x ∷ xs) = if i == length xs then x else nth default i xs

  abbrev pub list_combo : D → ComboBox D
  list_combo default = record {
    Box = List D × ℕ;
    empty_box = ([], 0);
    add_item = λ text d box. (d ∷ box.0, box.1);
    find_data = λ d box. index_of d box.0;
    set_current_index = λ i box. (box.0, i);
    current_data = λ box. nth default box.1 box.0;
  }

  module _ (eq_self : (d : D) → eq d d ≡ true) (eq_same : (d x : D) → eq d x ≡ true → d ≡ x) where
    index_of-nth :
        (default d : D) (xs : List D) (i : ℕ)
        → index_of d xs ≡ some i
        → (i < length xs) × (nth default i xs ≡ d)
    index_of-nth default d [] i e = ground (arith, e)
    index_of-nth default d (x ∷ xs) i e = elim (Option-cases (index_of d xs)) [
      | inl missing ↦
          let (same, last) =
            first_or-none (length xs) i (eq d x)
              (subst (λ o. first_or o (length xs) (eq d x) ≡ some i) missing e) in
          (
            omega (arith, last),
            if_cases (λ y. y ≡ d) (i == length xs) x (nth default i xs)
                (λ _. sym (eq_same d x same)) (λ other. ground (arith, other, last)),
          )
      | inr (j, found) ↦
          let e' = subst (λ o. first_or o (length xs) (eq d x) ≡ some i) found e in
          let (bound, rest) = index_of-nth default d xs i (found ∙ e') in
          (
            omega (arith, bound),
            if_cases (λ y. y ≡ d) (i == length xs) x (nth default i xs)
                (λ last. ground (arith, bound, last)) (λ _. rest),
          )
    ]

    pub list_combo-ComboLaws : (default : D) → ComboLaws (list_combo default)
    list_combo-ComboLaws default = record {
      find-add = λ text d box. elim (Option-cases (index_of d box.0)) [
        | inl missing ↦ (length box.0, rw (missing, eq_self d) refl)
        | inr (j, found) ↦ (j, rw found refl)
      ];
      find-kept = λ text d d' box found. (found.0, rw found.1 refl);
      current-selected = λ d box i e. (index_of-nth default d box.0 i e).1;
    }

abbrev pub mode_eq : DisplayMode → DisplayMode → Bool
mode_eq DisplayMode.built_in_image DisplayMode.built_in_image = true
mode_eq DisplayMode.custom_image DisplayMode.custom_image = true
mode_eq DisplayMode.custom_scene DisplayMode.custom_scene = true
mode_eq _ _ = false

mode_eq_self : (m : DisplayMode) → mode_eq m m ≡ true
mode_eq_self DisplayMode.built_in_image = refl
mode_eq_self DisplayMode.custom_image = refl
mode_eq_self DisplayMode.custom_scene = refl

abbrev pub mode_box : ComboBox DisplayMode
mode_box = list_combo mode_eq DisplayMode.built_in_image

abbrev pub scene_box : ComboBox Bytes
scene_box = list_combo equal []

pub mode_box-ComboLaws : ComboLaws mode_box
mode_box-ComboLaws =
    list_combo-ComboLaws mode_eq mode_eq_self (λ d x e. ground (arith, e))
      DisplayMode.built_in_image

pub scene_box-ComboLaws : ComboLaws scene_box
scene_box-ComboLaws =
    list_combo-ComboLaws equal (λ d. (equal_iff d d).1 refl) (λ d x e. (equal_iff d x).0 e) []
