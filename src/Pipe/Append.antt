-- ===== src/Pipe/Append.antt =====
-- `drain` and `receive` of the worker, on bytes that come behind those that it has.
use obs_vscode_privacy_guard.Base.{
  Bool-cases, Bytes, Option, Option-cases, [], ap, arith, drop, false, if_cases, if◌then◌else◌, inl,
  inr, length, length-append, ltb, none, refl, some, suc, sym, take, true, zero, ℕ, ◌++◌, ◌<◌, ◌∙◌,
  ◌≡◌, ◌≤◌,
}
use obs_vscode_privacy_guard.Pipe.{
  Schedule, Worker, check_size, drain, fail_protocol, find_newline, receive, take_frame,
}
use obs_vscode_privacy_guard.Pipe.Frames.{
  IsSame, behind, check_size-graceful, check_size-over, check_size-within, drain-none,
  drain-refused, drain-some, find_newline-append, find_newline-late, no_newline, parse_frame-long,
  take_frame-append,
}
use obs_vscode_privacy_guard.Privacy.{same}
use obs_vscode_privacy_guard.Protocol.{Frame, max_frame_size, parse_frame}

module _ (s : Schedule) (id : ℕ) where
  -- A round that goes on leaves what follows its newline.
  pub take_frame-rest :
      (o : Option Frame) (rest : Bytes) (w : Worker)
      → (take_frame s id o rest w).1 ≡ true
      → (take_frame s id o rest w).0.pending ≡ rest
  take_frame-rest o rest w go = elim (take_frame-append s id o rest [] w) [
    | inl h ↦ h.1
    | inr h ↦ cc
  ]

  pub drain-fuel :
      (f g : ℕ) (w : Worker)
      → length w.pending ≤ f
      → length w.pending ≤ g
      → drain s id f w ≡ drain s id g w
  drain-fuel zero g w lf lg =
      let e = no_newline w.pending lf in drain-none s id 0 w e ∙ sym (drain-none s id g w e)
  drain-fuel (suc f) zero w lf lg =
      let e = no_newline w.pending lg in drain-none s id (suc f) w e ∙ sym (drain-none s id 0 w e)
  drain-fuel (suc f) (suc g) w lf lg = elim (Option-cases (find_newline w.pending)) [
    | inl e ↦ drain-none s id (suc f) w e ∙ sym (drain-none s id (suc g) w e)
    | inr (k, e) ↦
        let o = parse_frame (take k w.pending) in
        let rest = drop (suc k) w.pending in
        let r = take_frame s id o rest w in
        let (go_f, stop_f) = drain-some s id f w k e in
        let (go_g, stop_g) = drain-some s id g w k e in
        let (_, _, _, less) = find_newline-append w.pending [] k e in
        elim (Bool-cases r.1) [
          | inl go ↦
              let le : length r.0.pending < length w.pending =
                rw (take_frame-rest o rest w go) less in
              go_f go ∙ drain-fuel f g r.0 (omega (arith, le)) (omega (arith, le)) ∙ sym (go_g go)
          | inr stop ↦ stop_f stop ∙ sym (stop_g stop)
        ]
  ]

  -- What a read does to a worker that may be done.
  pub resume : Bytes → Worker → Worker
  resume b w = if w.graceful then w else receive s id b w

  pub resume-graceful : (b : Bytes) (w : Worker) → w.graceful ≡ true → resume b w ≡ w
  unfolding resume
  resume-graceful b w e = rw e refl

  pub resume-going : (b : Bytes) (w : Worker) → w.graceful ≡ false → resume b w ≡ receive s id b w
  unfolding resume
  resume-going b w e = rw e refl

  pub IsSame-cong : (a b c d : Worker) → a ≡ b → c ≡ d → IsSame s id b d → IsSame s id a c
  IsSame-cong a b c d p q h = rw p (rw q h)

  pub IsSame-trans : (a b c : Worker) → IsSame s id a b → IsSame s id b c → IsSame s id a c
  IsSame-trans a b c h h' = ground arith

  pub IsSame-sym : (a b : Worker) → IsSame s id a b → IsSame s id b a
  IsSame-sym a b h = ground arith

  -- The bytes that follow end an oversized line.
  pub drain-over :
      (g : ℕ) (b : Bytes) (w : Worker)
      → find_newline w.pending ≡ none
      → length (w.pending ++ b) ≤ g
      → w.graceful ≡ false
      → max_frame_size < length w.pending
      → check_size s id (drain s id g (behind s id b w)) ≡ fail_protocol s id (behind s id b w)
  unfolding fail_protocol
  drain-over g b w e lg on big =
      let total = length-append w.pending b in
      elim (Option-cases (find_newline (w.pending ++ b))) [
        | inl none_there ↦
            ap (check_size s id) (drain-none s id g (behind s id b w) none_there)
            ∙ check_size-over s id (behind s id b w) on (omega (arith, total))
        | inr (k, there) ↦
            let long =
              parse_frame-long (take k (w.pending ++ b))
                (omega (arith, find_newline-late w.pending b k e there)) in
            let stopped = fail_protocol s id (behind s id b w) in
            ap (check_size s id)
              (drain-refused s id g (behind s id b w) k (omega (arith, total)) there long)
            ∙ check_size-graceful s id stopped refl
      ]

  -- A worker with no newline in its pending bytes.
  pub drain-append_none :
      (g : ℕ) (b : Bytes) (w : Worker)
      → find_newline w.pending ≡ none
      → length (w.pending ++ b) ≤ g
      → w.graceful ≡ false
      → IsSame s id
          (resume b (check_size s id w))
          (check_size s id (drain s id g (behind s id b w)))
  unfolding fail_protocol receive
  drain-append_none g b w e lg on = elim (Bool-cases (ltb max_frame_size (length w.pending))) [
    | inl big ↦
        let over : max_frame_size < length w.pending = ground arith in
        IsSame-cong (resume b (check_size s id w)) (fail_protocol s id w)
          (check_size s id (drain s id g (behind s id b w))) (fail_protocol s id (behind s id b w))
          (ap (resume b) (check_size-over s id w on over)
            ∙ resume-graceful b (fail_protocol s id w) refl)
          (drain-over g b w e lg on over) (inr (refl, refl, refl, refl, refl))
    | inr small ↦ inl (
        ap (resume b) (check_size-within s id w (ground arith))
        ∙ resume-going b w on
        ∙ ap (check_size s id)
            (drain-fuel (length (w.pending ++ b)) g (behind s id b w) (omega arith) lg))
  ]

  -- The next round, with the line and the rest as they are found.
  pub drain-next :
      (g : ℕ) (w : Worker) (k : ℕ) (line rest : Bytes)
      → find_newline w.pending ≡ some k
      → take k w.pending ≡ line
      → drop (suc k) w.pending ≡ rest
      → let r = take_frame s id (parse_frame line) rest w in
        drain s id (suc g) w ≡ (if r.1 then drain s id g r.0 else r.0)
  drain-next g w k line rest e same_line same_rest = rw (sym same_line) (
      rw (sym same_rest) (
        let r = take_frame s id (parse_frame (take k w.pending)) (drop (suc k) w.pending) w in
        if_cases (λ x. drain s id (suc g) w ≡ x) r.1 (drain s id g r.0) r.0
          (drain-some s id g w k e).0 (drain-some s id g w k e).1))

  pub drain-append :
      (f g : ℕ) (b : Bytes) (w : Worker)
      → length w.pending ≤ f
      → length (w.pending ++ b) ≤ g
      → w.graceful ≡ false
      → IsSame s id
          (resume b (check_size s id (drain s id f w)))
          (check_size s id (drain s id g (behind s id b w)))
  drain-append zero g b w lf lg on =
      let e = no_newline w.pending lf in
      rw (drain-none s id 0 w e) (drain-append_none g b w e lg on)
  drain-append (suc f) zero b w lf lg on =
      let e = no_newline w.pending (omega (arith, length-append w.pending b)) in
      rw (drain-none s id (suc f) w e) (drain-append_none 0 b w e lg on)
  drain-append (suc f) (suc g) b w lf lg on = elim (Option-cases (find_newline w.pending)) [
    | inl e ↦ rw (drain-none s id (suc f) w e) (drain-append_none (suc g) b w e lg on)
    | inr (k, e) ↦
        let line = take k w.pending in
        let rest = drop (suc k) w.pending in
        let (there, same_line, same_rest, less) = find_newline-append w.pending b k e in
        let r = take_frame s id (parse_frame line) rest w in
        let r' = take_frame s id (parse_frame line) (rest ++ b) (behind s id b w) in
        let more : (drain s id (suc g) (behind s id b w)
            ≡ (if r'.1 then drain s id g r'.0 else r'.0)) =
          drain-next g (behind s id b w) k line (rest ++ b) there same_line same_rest in
        elim (take_frame-append s id (parse_frame line) rest b w) [
          | inl (go, pend, gr, e') ↦
              IsSame-cong (resume b (check_size s id (drain s id (suc f) w)))
                (resume b (check_size s id (drain s id f r.0)))
                (check_size s id (drain s id (suc g) (behind s id b w)))
                (check_size s id (drain s id g (behind s id b r.0)))
                (ap (λ x. resume b (check_size s id x)) ((drain-some s id f w k e).0 go))
                (ap (check_size s id) (more ∙ ap (λ x. if x.1 then drain s id g x.0 else x.0) e'))
                (drain-append f g b r.0 (omega (arith, less, ap (length {A = ℕ}) pend))
                  (rw pend (omega (arith, less, length-append rest b, length-append w.pending b)))
                  (gr ∙ on))
          | inr (stop, stop', done, same) ↦
              IsSame-cong (resume b (check_size s id (drain s id (suc f) w))) r.0
                (check_size s id (drain s id (suc g) (behind s id b w))) r'.0
                (ap (λ x. resume b (check_size s id x)) ((drain-some s id f w k e).1 stop)
                  ∙ ap (resume b) (check_size-graceful s id r.0 done)
                  ∙ resume-graceful b r.0 done)
                (ap (check_size s id) (more ∙ ap (λ x. if x then drain s id g r'.0 else r'.0) stop')
                  ∙ check_size-graceful s id r'.0 (ground (arith, same, done)))
                same
        ]
  ]
