-- ===== src/Display/Renderer/Upload/Fresh.antt =====
-- Which image is on the texture when a frame draws it.
use obs_vscode_privacy_guard.Base.{
  Bool-cases, List, Option, [], arith, inl, inr, length, none, refl, subst, sym, u64_mod, ℕ, ◌+◌,
  ◌<◌, ◌==◌, ◌∙◌, ◌∷◌, ◌≡◌, ◌≤◌, ◌⊎◌,
}
use obs_vscode_privacy_guard.Display.Renderer.{Renderer, create_texture, make_renderer}
use obs_vscode_privacy_guard.Display.Renderer.Upload.Steps.{
  IsFresh, IsOf, Selected-IsFresh, create_texture-Built, select_all-Selected,
}
use obs_vscode_privacy_guard.Display.Renderer.Upload.{
  Frame, advance_update, begin_update, holding, run_frame, run_frames, run_update, select_all,
  selections, waiting,
}

module _ {Image : Type 0} where
  -- What a frame leaves behind: the texture of the image that was selected when it began, and a fresh
  -- renderer.
  abbrev Drawn : ℕ → Renderer Image → Renderer Image → Type 0
  Drawn n r r' =
      IsOf r'.texture r.selected_image
      × IsFresh r'
      × (r'.selected_generation ≡ r.selected_generation + n)

  selected_in : Frame Image → ℕ
  selected_in f = length f.before_build + (length f.before_end + length f.before_draw)

  run_update-waiting :
      (f : Frame Image) (r : Renderer Image)
      → r.selected_generation + selected_in f < u64_mod
      → IsFresh r
      → r.texture_generation ≡ r.selected_generation
      → Drawn (selected_in f) r (run_update f waiting r)
  unfolding run_update advance_update selected_in
  run_update-waiting f r room v e =
      let s1 = select_all-Selected f.before_build r (omega arith) in
      let r1 = select_all r f.before_build in
      let s2 = select_all-Selected f.before_end r1 (omega (arith, s1.selected_generation)) in
      let r2 = select_all r1 f.before_end in
      let s3 =
        select_all-Selected f.before_draw r2
          (omega (arith, s1.selected_generation, s2.selected_generation)) in
      let r3 = select_all r2 f.before_draw in
      (
        subst (λ t. IsOf t r.selected_image) (sym (s3.texture ∙ s2.texture ∙ s1.texture))
            (v.fresh e),
        Selected-IsFresh _ r2 r3 s3 (Selected-IsFresh _ r1 r2 s2 (Selected-IsFresh _ r r1 s1 v)),
        omega (arith, s1.selected_generation, s2.selected_generation, s3.selected_generation),
      )

  run_update-holding :
      (f : Frame Image) (r : Renderer Image)
      → r.selected_generation + selected_in f < u64_mod
      → r.texture_generation ≤ r.selected_generation
      → Drawn (selected_in f) r (run_update f (holding r.selected_image r.selected_generation) r)
  unfolding run_update advance_update selected_in
  run_update-holding f r room bounded =
      let s1 = select_all-Selected f.before_build r (omega arith) in
      let cleared : Renderer Image = record (select_all r f.before_build) {
        texture = none;
        texture_width = 0;
        texture_height = 0;
      } in
      let b = create_texture-Built f.graphics r.selected_image cleared refl in
      let r1 = create_texture f.graphics r.selected_image cleared in
      let s2 =
        select_all-Selected f.before_end r1
          (omega (arith, s1.selected_generation, b.selected_generation)) in
      let r2 : Renderer Image = record (select_all r1 f.before_end) {
        texture_generation = r.selected_generation;
      } in
      let s3 =
        select_all-Selected f.before_draw r2
          (omega (arith, s1.selected_generation, b.selected_generation, s2.selected_generation)) in
      let r3 = select_all r2 f.before_draw in
      let of_selected : IsOf r2.texture r.selected_image =
        subst (λ t. IsOf t r.selected_image) (sym s2.texture) b.texture in
      (
        subst (λ t. IsOf t r.selected_image) (sym s3.texture) of_selected,
        Selected-IsFresh _ r2 r3 s3 (record {
          bounded =
              omega (arith, s1.selected_generation, b.selected_generation, s2.selected_generation);
          fresh = λ e.
              let none1 : (length f.before_build ≡ 0) =
                omega (
                  arith, e, s1.selected_generation, b.selected_generation, s2.selected_generation,
                ) in
              let none2 : (length f.before_end ≡ 0) =
                omega (
                  arith, e, s1.selected_generation, b.selected_generation, s2.selected_generation,
                ) in
              subst (IsOf r2.texture)
                (sym (s2.selected_image none2 ∙ b.selected_image ∙ s1.selected_image none1))
                of_selected;
        }),
        omega (
          arith, s1.selected_generation, b.selected_generation, s2.selected_generation,
          s3.selected_generation,
        ),
      )

  run_frame-Drawn :
      (f : Frame Image) (r : Renderer Image)
      → r.selected_generation + selected_in f < u64_mod
      → IsFresh r
      → Drawn (selected_in f) r (run_frame f r)
  unfolding run_frame begin_update
  run_frame-Drawn f r room v = elim (Bool-cases (r.texture_generation == r.selected_generation)) [
    | inl agree ↦ rw agree (run_update-waiting f r room v (ground (arith, agree)))
    | inr differ ↦ rw differ (run_update-holding f r room v.bounded)
  ]

  run_frames-IsFresh :
      (fs : List (Frame Image)) (r : Renderer Image)
      → r.selected_generation + selections fs < u64_mod
      → IsFresh r
      → IsFresh (run_frames fs r)
        × ((run_frames fs r).selected_generation ≡ r.selected_generation + selections fs)
  unfolding run_frames selections selected_in
  run_frames-IsFresh [] r room v = (v, omega arith)
  run_frames-IsFresh (f ∷ fs) r room v =
      let (of_selected, fresh, advanced) = run_frame-Drawn f r (omega arith) v in
      let (later, total) = run_frames-IsFresh fs (run_frame f r) (omega (arith, advanced)) fresh in
      (later, omega (arith, advanced, total))

-- A frame draws the image that is selected when it begins, or none: from a new renderer on, after
-- any frames, with images selected by other threads before each step of `update_texture` and before
-- each drawing, fewer than 2^64 - 1 in all. So an image that was selected before is not drawn by a
-- frame that begins after the renderer was cleared or another image was selected.
pub frame_draws_selected :
    {Image : Type 0} (before : List (Option Image)) (fs : List (Frame Image)) (f : Frame Image)
    → length before + (selections fs + selections (f ∷ [])) + 1 < u64_mod
    → (let r = run_frames fs (select_all (make_renderer Image) before) in
        ((run_frame f r).texture ≡ none) ⊎ ((run_frame f r).texture ≡ r.selected_image))
unfolding selections selected_in
frame_draws_selected {Image = Image} before fs f room =
    let s = select_all-Selected before (make_renderer Image) (omega arith) in
    let start = select_all (make_renderer Image) before in
    let new : IsFresh (make_renderer Image) = record {
      bounded = omega arith;
      fresh = λ e. absurd (omega (arith, e));
    } in
    let (fresh, total) =
      run_frames-IsFresh fs start (omega (arith, s.selected_generation))
        (Selected-IsFresh (length before) (make_renderer Image) start s new) in
    (run_frame-Drawn f (run_frames fs start) (omega (arith, total, s.selected_generation)) fresh).0
