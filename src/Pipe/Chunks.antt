-- ===== src/Pipe/Chunks.antt =====
-- `serve` and `process_connection` on the reads that the bytes of a connection are split into.
use obs_vscode_privacy_guard.Pipe.Append.{
  IsSame-cong, IsSame-trans, drain-append, resume, resume-going, resume-graceful,
}
use obs_vscode_privacy_guard.Base.{
  Bool, Bool-cases, Bytes, List, [], ap, append-nil, append_assoc, arith, false, if_cases,
  if◌then◌else◌, inl, inr, length, map, refl, suc, sym, ℕ, ◌&&◌, ◌++◌, ◌∙◌, ◌∷◌, ◌≡◌,
}
use obs_vscode_privacy_guard.Privacy.{PrivacyState, connection_closed}
use obs_vscode_privacy_guard.Privacy.History.{run}
use obs_vscode_privacy_guard.Pipe.{
  Schedule, Worker, check_size, drain, finish, make_worker, process_connection, reads, receive,
  serve,
}
use obs_vscode_privacy_guard.Pipe.Frames.{IsSame, behind, serve-first, serve-graceful}

abbrev pub concat : List Bytes → Bytes
concat [] = []
concat (b ∷ bs) = b ++ concat bs

module _ (s : Schedule) (id : ℕ) where
  -- Two reads in a row do what one read of both does.
  receive-receive :
      (a b : Bytes) (w : Worker)
      → w.graceful ≡ false
      → IsSame s id (resume s id b (receive s id a w)) (receive s id (a ++ b) w)
  unfolding receive
  receive-receive a b w on = rw (sym (append_assoc w.pending a b)) (
      drain-append s id (length (w.pending ++ a)) (length ((w.pending ++ a) ++ b)) b
        (behind s id a w) (omega arith) (omega arith) on)

  serve-reads :
      (a : Bytes) (more : List Bytes) (w : Worker)
      → w.graceful ≡ false
      → IsSame s id (serve s id (map reads (a ∷ more)) w) (receive s id (a ++ concat more) w)
  unfolding serve
  serve-reads a [] w on =
      inl (serve-first s id a [] w on ∙ ap (λ x. receive s id x w) (sym (append-nil a)))
  serve-reads a (a' ∷ more) w on =
      let w' = receive s id a w in
      let b = a' ++ concat more in
      let first = serve-first s id a (map reads (a' ∷ more)) w on in
      elim (Bool-cases w'.graceful) [
        | inl done ↦
            IsSame-cong s id (serve s id (map reads (a ∷ a' ∷ more)) w) (resume s id b w')
              (receive s id (a ++ b) w) (receive s id (a ++ b) w)
              (first
                ∙ serve-graceful s id (map reads (a' ∷ more)) w' done
                ∙ sym (resume-graceful s id b w' done))
              refl (receive-receive a b w on)
        | inr going ↦
            IsSame-trans s id (serve s id (map reads (a ∷ a' ∷ more)) w) (resume s id b w')
              (receive s id (a ++ b) w)
              (IsSame-cong s id (serve s id (map reads (a ∷ a' ∷ more)) w)
                (serve s id (map reads (a' ∷ more)) w') (resume s id b w') (receive s id b w') first
                (resume-going s id b w' going) (serve-reads a' more w' going))
              (receive-receive a b w on)
      ]

  -- From the start, the reads together do what one read of all bytes does.
  serve-concat :
      (bs : List Bytes) (st : PrivacyState)
      → IsSame s id
          (serve s id (map reads bs) (make_worker st))
          (receive s id (concat bs) (make_worker st))
  unfolding serve receive drain check_size
  serve-concat [] st = inl refl
  serve-concat (b ∷ bs) st = serve-reads b bs (make_worker st) refl

  finish-shared :
      (running : Bool) (w : Worker)
      → (finish s id running w).shared ≡ (
          if w.state_entry_active && running
          then connection_closed (run w.shared (s.others w.uses)) id
          else w.shared)
  unfolding finish
  finish-shared running w =
      let closing = w.state_entry_active && running in
      let closed = connection_closed (run w.shared (s.others w.uses)) id in
      if_cases (λ x. x.shared ≡ (if closing then closed else w.shared)) closing
        (record w { shared = closed; uses = suc w.uses }) w
        (λ t. ap (λ c. if c then closed else w.shared) (sym t))
        (λ f. ap (λ c. if c then closed else w.shared) (sym f))

  finish-IsSame :
      (running : Bool) (w w' : Worker)
      → IsSame s id w w'
      → (finish s id running w).shared ≡ (finish s id running w').shared
  finish-IsSame running w w' (inl e) = ap (λ x. (finish s id running x).shared) e
  finish-IsSame running w w' (inr (_, _, shared, uses, active)) =
      finish-shared running w
      ∙ rw shared (rw uses (rw active refl))
      ∙ sym (finish-shared running w')

-- However the bytes of a connection are split into reads, the worker leaves the same shared state:
-- the same frames are applied at the same turns, and the same errors are found, an oversized partial
-- line included.
pub process_connection-concat :
    (s : Schedule) (id : ℕ) (running : Bool) (st : PrivacyState) (bs cs : List Bytes)
    → concat bs ≡ concat cs
    → (process_connection s id (map reads bs) running st).shared
      ≡ (process_connection s id (map reads cs) running st).shared
unfolding process_connection
process_connection-concat s id running st bs cs e =
    let served = λ (x : List Bytes). serve s id (map reads x) (make_worker st) in
    let whole = λ (x : List Bytes). receive s id (concat x) (make_worker st) in
    finish-IsSame s id running (served bs) (whole bs) (serve-concat s id bs st)
    ∙ ap (λ x. (finish s id running (receive s id x (make_worker st))).shared) e
    ∙ sym (finish-IsSame s id running (served cs) (whole cs) (serve-concat s id cs st))
