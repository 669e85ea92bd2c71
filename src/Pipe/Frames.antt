-- ===== src/Pipe/Frames.antt =====
-- The loop over the frames, its fuel, and bytes that come behind those that it has.
use obs_vscode_privacy_guard.Base.{
  Bool, Bytes, List, Option, [], ap, arith, drop, false, inl, inr, length, none, refl, some, suc,
  take, true, zero, ℕ, ◌++◌, ◌<◌, ◌∙◌, ◌∷◌, ◌≡◌, ◌≤◌, ◌⊎◌,
}
use obs_vscode_privacy_guard.Protocol.{Frame, max_frame_size, parse_frame}
use obs_vscode_privacy_guard.Pipe.{
  FrameResult, Round, Schedule, Worker, after_frame, apply_frame, breaks, check_size, drain, enter,
  fail_protocol, find_newline, reads, receive, serve, take_frame, waits,
}

-- Where the newline is: within the bytes, and at the same place when more bytes follow.
pub find_newline-append :
    (p b : Bytes) (k : ℕ)
    → find_newline p ≡ some k
    → (find_newline (p ++ b) ≡ some k)
      × (take k (p ++ b) ≡ take k p)
      × (drop (suc k) (p ++ b) ≡ drop (suc k) p ++ b)
      × (length (drop (suc k) p) < length p)
unfolding find_newline
find_newline-append [] b k e = cc
find_newline-append (c ∷ cs) b zero e = (ground (arith), refl, refl, omega arith)
find_newline-append (c ∷ cs) b (suc k) e =
    let (found, line, rest, le) = find_newline-append cs b k (ground arith) in
    (ground arith, ap (◌∷◌ c) line, rest, omega (arith, le))

pub no_newline : (p : Bytes) → length p ≤ 0 → find_newline p ≡ none
unfolding find_newline
no_newline [] le = refl
no_newline (c ∷ cs) le = absurd (omega (arith, le))

-- With no newline in the first bytes, the line is at least as long as they are.
pub find_newline-late :
    (p b : Bytes) (k : ℕ)
    → find_newline p ≡ none
    → find_newline (p ++ b) ≡ some k
    → length p ≤ length (take k (p ++ b))
unfolding find_newline
find_newline-late [] b k e f = omega arith
find_newline-late (c ∷ cs) b zero e f = ground arith
find_newline-late (c ∷ cs) b (suc k) e f =
    omega (arith, find_newline-late cs b k (ground arith) (ground arith))

pub parse_frame-long : (line : Bytes) → max_frame_size < length line → parse_frame line ≡ none
unfolding parse_frame
parse_frame-long line long = ground arith

module _ (s : Schedule) (id : ℕ) where
  pub drain-none : (fuel : ℕ) (w : Worker) → find_newline w.pending ≡ none → drain s id fuel w ≡ w
  unfolding drain
  drain-none zero w e = refl
  drain-none (suc fuel) w e = rw (e, drain) refl

  -- The same worker, with `b` behind its pending bytes.
  abbrev pub behind : Bytes → Worker → Worker
  behind b w = record w { pending = w.pending ++ b }

  -- The same up to the pending bytes of a worker that is done.
  abbrev pub IsSame : Worker → Worker → Type 0
  IsSame w w' =
      (w ≡ w')
      ⊎ ((w.graceful ≡ true)
          × (w'.graceful ≡ true)
          × (w.shared ≡ w'.shared)
          × (w.uses ≡ w'.uses)
          × (w.state_entry_active ≡ w'.state_entry_active))

  -- Bytes behind those of a round change nothing but the pending bytes.
  abbrev IsAppended : Bytes → Bytes → Worker → Worker × Bool → Worker × Bool → Type 0
  IsAppended rest b w r r' =
      ((r.1 ≡ true)
        × (r.0.pending ≡ rest)
        × (r.0.graceful ≡ w.graceful)
        × (r' ≡ (behind b r.0, true)))
      ⊎ ((r.1 ≡ false) × (r'.1 ≡ false) × (r.0.graceful ≡ true) × IsSame r.0 r'.0)

  after_frame-append :
      (result : FrameResult) (rest b : Bytes) (w : Worker)
      → IsAppended rest b w
          (after_frame s id rest w result)
          (after_frame s id (rest ++ b) (behind b w) result)
  unfolding fail_protocol
  after_frame-append FrameResult.continue rest b w = inl (refl, refl, refl, refl)
  after_frame-append FrameResult.goodbye rest b w =
      inr (refl, refl, refl, inr (refl, refl, refl, refl, refl))
  after_frame-append FrameResult.invalid rest b w =
      inr (refl, refl, refl, inr (refl, refl, refl, refl, refl))

  pub take_frame-append :
      (o : Option Frame) (rest b : Bytes) (w : Worker)
      → IsAppended rest b w (take_frame s id o rest w) (take_frame s id o (rest ++ b) (behind b w))
  unfolding take_frame fail_protocol
  take_frame-append none rest b w = inr (refl, refl, refl, inr (refl, refl, refl, refl, refl))
  take_frame-append (some frame) rest b w =
      let r = apply_frame (enter s id w) id (s.clock w.uses) frame in
      after_frame-append r.1 rest b (record w { shared = r.0; uses = suc w.uses })

  -- One round of the loop.
  pub drain-some :
      (fuel : ℕ) (w : Worker) (k : ℕ)
      → find_newline w.pending ≡ some k
      → let r = take_frame s id (parse_frame (take k w.pending)) (drop (suc k) w.pending) w in
        ((r.1 ≡ true) → drain s id (suc fuel) w ≡ drain s id fuel r.0)
        × ((r.1 ≡ false) → drain s id (suc fuel) w ≡ r.0)
  unfolding drain
  drain-some fuel w k e =
      ((λ go. rw (e, drain) (rw go refl)), (λ stop. rw (e, drain) (rw stop refl)))

  pub serve-graceful : (rs : List Round) (w : Worker) → w.graceful ≡ true → serve s id rs w ≡ w
  unfolding serve
  serve-graceful [] w e = refl
  serve-graceful (r ∷ rs) w e = simp (e, serve)

  -- The rounds of a worker that goes on.
  pub serve-first :
      (a : Bytes) (rs : List Round) (w : Worker)
      → w.graceful ≡ false
      → serve s id (reads a ∷ rs) w ≡ serve s id rs (receive s id a w)
  unfolding serve
  serve-first a rs w on = simp (on, serve)

  pub serve-waits :
      (rs : List Round) (w : Worker)
      → w.graceful ≡ false
      → serve s id (waits ∷ rs) w ≡ serve s id rs w
  unfolding serve
  serve-waits rs w on = simp (on, serve)

  pub serve-breaks :
      (rs : List Round) (w : Worker) → w.graceful ≡ false → serve s id (breaks ∷ rs) w ≡ w
  unfolding serve
  serve-breaks rs w on = simp (on, serve)

  pub check_size-graceful : (w : Worker) → w.graceful ≡ true → check_size s id w ≡ w
  unfolding check_size
  check_size-graceful w e = ground arith

  pub check_size-within : (w : Worker) → length w.pending ≤ max_frame_size → check_size s id w ≡ w
  unfolding check_size
  check_size-within w e = ground arith

  pub check_size-over :
      (w : Worker)
      → w.graceful ≡ false
      → max_frame_size < length w.pending
      → check_size s id w ≡ fail_protocol s id w
  unfolding check_size
  check_size-over w e f = ground arith

  pub drain-refused :
      (g : ℕ) (w : Worker) (k : ℕ)
      → 1 ≤ g
      → find_newline w.pending ≡ some k
      → parse_frame (take k w.pending) ≡ none
      → drain s id g w ≡ fail_protocol s id w
  unfolding take_frame
  drain-refused zero w k some_fuel e refused = absurd (omega (arith, some_fuel))
  drain-refused (suc g) w k some_fuel e refused =
      (drain-some g w k e).1 (rw refused refl) ∙ rw refused refl
