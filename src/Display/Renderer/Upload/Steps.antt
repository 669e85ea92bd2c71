-- ===== src/Display/Renderer/Upload/Steps.antt =====
-- What the steps of `update_texture` and a selection change.
use obs_vscode_privacy_guard.Base.{
  List, Option, [], arith, if_cases, inl, inr, length, none, refl, some, u64_mod, ℕ, ◌+◌, ◌<◌, ◌∷◌,
  ◌≡◌, ◌≤◌, ◌⊎◌,
}
use obs_vscode_privacy_guard.Display.Renderer.{Graphics, Renderer, create_texture, select}
use obs_vscode_privacy_guard.Display.Renderer.Upload.{select_all}

module _ {Image : Type 0} where
  -- There is no texture, or it is that of the selected image.
  abbrev pub IsOf : Option Image → Option Image → Type 0
  IsOf texture selected = (texture ≡ none) ⊎ (texture ≡ selected)

  -- The texture is of an image that was selected, and of the latest one if the generations agree.
  pub record IsFresh (r : Renderer Image) : Type 0 where
    pub bounded : r.texture_generation ≤ r.selected_generation
    pub fresh : r.texture_generation ≡ r.selected_generation → IsOf r.texture r.selected_image

  -- What images that are selected change.
  pub record Selected (n : ℕ) (r r' : Renderer Image) : Type 0 where
    pub texture : r'.texture ≡ r.texture
    pub texture_generation : r'.texture_generation ≡ r.texture_generation
    pub selected_generation : r'.selected_generation ≡ r.selected_generation + n
    pub selected_image : n ≡ 0 → r'.selected_image ≡ r.selected_image

  pub select_all-Selected :
      (images : List (Option Image)) (r : Renderer Image)
      → r.selected_generation + length images < u64_mod
      → Selected (length images) r (select_all r images)
  unfolding select_all select
  select_all-Selected [] r room = ground arith
  select_all-Selected (image ∷ images) r room =
      let s = select_all-Selected images (select r image) (omega arith) in
      record {
        texture = s.texture;
        texture_generation = s.texture_generation;
        selected_generation = omega (arith, s.selected_generation);
        selected_image = λ e. absurd (omega (arith, e));
      }

  pub Selected-IsFresh : (n : ℕ) (r r' : Renderer Image) → Selected n r r' → IsFresh r → IsFresh r'
  Selected-IsFresh n r r' s v = record {
    bounded = omega (arith, s.texture_generation, s.selected_generation, v.bounded);
    fresh = λ e.
        rw
          (
            s.texture,
            s.selected_image
                (omega (arith, s.texture_generation, s.selected_generation, v.bounded, e)),
          )
          (v.fresh (omega (arith, s.texture_generation, s.selected_generation, v.bounded, e)));
  }

  -- What the work on the texture changes.
  pub record Built (selected : Option Image) (r r' : Renderer Image) : Type 0 where
    pub texture : IsOf r'.texture selected
    pub texture_generation : r'.texture_generation ≡ r.texture_generation
    pub selected_generation : r'.selected_generation ≡ r.selected_generation
    pub selected_image : r'.selected_image ≡ r.selected_image

  pub create_texture-Built :
      (g : Graphics Image) (selected : Option Image) (r : Renderer Image)
      → r.texture ≡ none
      → Built selected r (create_texture g selected r)
  unfolding create_texture
  create_texture-Built g none r e = record {
    texture = inl e;
    texture_generation = refl;
    selected_generation = refl;
    selected_image = refl;
  }
  create_texture-Built g (some image) r e =
      if_cases (Built (some image) r) (g.creates image) _ r
        (λ _. record {
          texture = inr refl;
          texture_generation = refl;
          selected_generation = refl;
          selected_image = refl;
        })
        (λ _. record {
          texture = inl e;
          texture_generation = refl;
          selected_generation = refl;
          selected_image = refl;
        })
