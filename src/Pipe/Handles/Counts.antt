-- ===== src/Pipe/Handles/Counts.antt =====
-- How often a pipe is created, closed and held.
use obs_vscode_privacy_guard.Base.{
  ==_iff, Bool, Bool-cases, List, Option, [], arith, if◌then◌else◌, inl, inr, none, some, subst,
  suc, ℕ, ◌+◌, ◌==◌, ◌∷◌, ◌≡◌, ◌≤◌,
}
use obs_vscode_privacy_guard.Pipe.Handles.{
  PipeCall, closes_pipe, creates_pipe, disconnects_pipe, pipe_of, release,
}

abbrev pub one_if : Bool → ℕ
one_if b = if b then 1 else 0

unfoldable pub created : ℕ → List PipeCall → ℕ
created h [] = 0
created h (creates_pipe k ∷ calls) = one_if (k == h) + created h calls
created h (_ ∷ calls) = created h calls

unfoldable pub closed : ℕ → List PipeCall → ℕ
closed h [] = 0
closed h (closes_pipe k ∷ calls) = one_if (k == h) + closed h calls
closed h (_ ∷ calls) = closed h calls

-- How many of the calls before leave the pipe open.
abbrev pub IsOpen : ℕ → List PipeCall → Type 0
IsOpen h calls = created h calls ≡ suc (closed h calls)

abbrev pub IsClosed : ℕ → List PipeCall → Type 0
IsClosed h calls = created h calls ≡ closed h calls

-- Each call is made on a pipe that is open then, and a new pipe is not.
abbrev pub IsProper : List PipeCall → Type 0
IsProper [] = Unit
IsProper (creates_pipe h ∷ calls) = IsClosed h calls × IsProper calls
IsProper (disconnects_pipe h ∷ calls) = IsOpen h calls × IsProper calls
IsProper (closes_pipe h ∷ calls) = IsOpen h calls × IsProper calls

unfoldable pub held_by_workers : ℕ → List (ℕ × ℕ) → ℕ
held_by_workers h [] = 0
held_by_workers h ((id, pipe) ∷ held) = one_if (pipe == h) + held_by_workers h held

abbrev pub held_locally : ℕ → Option ℕ → ℕ
held_locally h none = 0
held_locally h (some pipe) = one_if (pipe == h)

-- How many hold the pipe.
abbrev pub owners : ℕ → Option ℕ → List (ℕ × ℕ) → ℕ
owners h local held = held_locally h local + held_by_workers h held

pub held_by_workers-release :
    (h id pipe : ℕ) (held : List (ℕ × ℕ))
    → pipe_of id held ≡ some pipe
    → held_by_workers h held ≡ one_if (pipe == h) + held_by_workers h (release id held)
unfolding held_by_workers pipe_of release
held_by_workers-release h id pipe [] e = ground (arith, e)
held_by_workers-release h id pipe ((key, c) ∷ held) e =
    ground (arith, e, held_by_workers-release h id pipe held)

-- Every open pipe has one owner, no closed pipe has any, and all calls were proper.
pub record IsBalanced (local : Option ℕ) (held : List (ℕ × ℕ)) (calls : List PipeCall)
    : Type 0 where
  pub balanced : (h : ℕ) → created h calls ≡ closed h calls + owners h local held
  pub single : (h : ℕ) → owners h local held ≤ 1
  pub proper : IsProper calls

owner-IsOpen :
    (pipe n : ℕ) (local : Option ℕ) (held : List (ℕ × ℕ)) (calls : List PipeCall)
    → owners pipe local held ≡ one_if (pipe == pipe) + n
    → IsBalanced local held calls
    → IsOpen pipe calls
owner-IsOpen pipe n local held calls owns v = ground (arith, v.balanced pipe, v.single pipe, owns)

-- The owner of a pipe closes it and has it no more.
pub IsBalanced-close :
    (pipe : ℕ) {local local' : Option ℕ} {held held' : List (ℕ × ℕ)} {calls : List PipeCall}
    → ((h : ℕ) → owners h local held ≡ one_if (pipe == h) + owners h local' held')
    → IsBalanced local held calls
    → IsBalanced local' held' (closes_pipe pipe ∷ calls)
unfolding created closed
IsBalanced-close pipe moved v = record {
  balanced = λ h. omega (arith, moved h, v.balanced h);
  single = λ h. omega (arith, moved h, v.single h);
  proper = (owner-IsOpen pipe _ _ _ _ (moved pipe) v, v.proper);
}

IsBalanced-disconnect :
    (pipe n : ℕ) {local : Option ℕ} {held : List (ℕ × ℕ)} {calls : List PipeCall}
    → owners pipe local held ≡ one_if (pipe == pipe) + n
    → IsBalanced local held calls
    → IsBalanced local held (disconnects_pipe pipe ∷ calls)
unfolding created closed
IsBalanced-disconnect pipe n owns v = record {
  balanced = v.balanced;
  single = v.single;
  proper = (owner-IsOpen pipe n _ _ _ owns v, v.proper);
}

-- It disconnects and closes it.
pub IsBalanced-end :
    (pipe : ℕ) {local local' : Option ℕ} {held held' : List (ℕ × ℕ)} {calls : List PipeCall}
    → ((h : ℕ) → owners h local held ≡ one_if (pipe == h) + owners h local' held')
    → IsBalanced local held calls
    → IsBalanced local' held' (closes_pipe pipe ∷ disconnects_pipe pipe ∷ calls)
IsBalanced-end pipe moved v =
    IsBalanced-close pipe moved (IsBalanced-disconnect pipe _ (moved pipe) v)

-- A new pipe is the local one.
pub IsBalanced-create :
    (pipe : ℕ) (held : List (ℕ × ℕ)) (calls : List PipeCall)
    → IsClosed pipe calls
    → IsBalanced none held calls
    → IsBalanced (some pipe) held (creates_pipe pipe ∷ calls)
unfolding created closed
IsBalanced-create pipe held calls new v = record {
  balanced = λ h. omega (arith, v.balanced h);
  single = λ h. elim (Bool-cases (pipe == h)) [
    | inl same ↦
        let none_held : (owners pipe none held ≡ 0) = omega (arith, v.balanced pipe, new) in
        rw same
          (omega (arith, subst (λ k. owners k none held ≡ 0) ((==_iff pipe h).0 same) none_held))
    | inr other ↦ rw other (v.single h)
  ];
  proper = (new, v.proper);
}
