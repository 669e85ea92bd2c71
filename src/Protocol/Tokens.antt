-- ===== src/Protocol/Tokens.antt =====
-- The frames of docs/protocol.md, and the tokens that `read_tokens` reads as each of them.
use obs_vscode_privacy_guard.Base.{
  Bool, Bool-cases, Bytes, List, Option, [], ap, arith, codes, equal, equal_iff, false, inl, inr,
  none, refl, some, true, ℕ, ◌++◌, ◌∷◌, ◌≡◌,
}
use obs_vscode_privacy_guard.Protocol.{
  Frame, FrameKind, parse_sequence, read_goodbye, read_hello, read_state, read_tokens, state_frame,
}
use obs_vscode_privacy_guard.Protocol.Number.{Spells, parse_sequence_iff}
use obs_vscode_privacy_guard.Protocol.Uuid.{IsUuid, is_uuid_iff}

abbrev pub hello_of : Bytes → Frame
hello_of id = record { kind = FrameKind.hello; client_id = id; sequence = 0; sensitive = false }

abbrev pub state_of : ℕ → Bool → Frame
state_of n s = record { kind = FrameKind.state; client_id = []; sequence = n; sensitive = s }

abbrev pub goodbye_of : Frame
goodbye_of = record { kind = FrameKind.goodbye; client_id = []; sequence = 0; sensitive = false }

abbrev pub state_word : Bool → Bytes
state_word true = codes "SENSITIVE"
state_word false = codes "SAFE"

-- `line` is one of the four client frames, and `f` is what it says.
pub data Grammar (line : Bytes) (f : Frame) : Type 0 where
  says_hello :
      (id : Bytes) → IsUuid id → line ≡ codes "PG/1 HELLO " ++ id → f ≡ hello_of id → Grammar line f
  says_state :
      (digits : Bytes) (n : ℕ) (s : Bool)
      → Spells digits n
      → line ≡ codes "PG/1 STATE " ++ (digits ++ (b' ' ∷ state_word s))
      → f ≡ state_of n s
      → Grammar line f
  says_goodbye : line ≡ codes "PG/1 GOODBYE" → f ≡ goodbye_of → Grammar line f

-- The same, cut into tokens.
pub data Tokens (ts : List Bytes) (f : Frame) : Type 0 where
  hello_tokens :
      (id : Bytes)
      → IsUuid id
      → ts ≡ codes "PG/1" ∷ codes "HELLO" ∷ id ∷ []
      → f ≡ hello_of id
      → Tokens ts f
  state_tokens :
      (digits : Bytes) (n : ℕ) (s : Bool)
      → Spells digits n
      → ts ≡ codes "PG/1" ∷ codes "STATE" ∷ digits ∷ state_word s ∷ []
      → f ≡ state_of n s
      → Tokens ts f
  goodbye_tokens : ts ≡ codes "PG/1" ∷ codes "GOODBYE" ∷ [] → f ≡ goodbye_of → Tokens ts f

pub read_hello-some :
    (rest : List Bytes) (f : Frame)
    → read_hello rest ≡ some f
    → (id : Bytes) × (rest ≡ id ∷ []) × IsUuid id × (f ≡ hello_of id)
unfolding read_hello
read_hello-some [] f e = cc
read_hello-some (id ∷ []) f e = (id, refl, (is_uuid_iff id).0 (ground arith), ground arith)
read_hello-some (id ∷ _ ∷ _) f e = cc

pub state_frame-some :
    (number : Option ℕ) (word : Bytes) (f : Frame)
    → state_frame number word ≡ some f
    → (n : ℕ) × (s : Bool) × (number ≡ some n) × (word ≡ state_word s) × (f ≡ state_of n s)
unfolding state_frame
state_frame-some none word f e = cc
state_frame-some (some n) word f e = elim (Bool-cases (equal word (codes "SENSITIVE"))) [
  | inl q ↦ (n, true, refl, (equal_iff word (codes "SENSITIVE")).0 q, ground arith)
  | inr q ↦ (n, false, refl, (equal_iff word (codes "SAFE")).0 (ground arith), ground arith)
]

pub read_state-some :
    (rest : List Bytes) (f : Frame)
    → read_state rest ≡ some f
    → (digits : Bytes) × (n : ℕ) × (s : Bool) × (rest ≡ digits ∷ state_word s ∷ [])
      × Spells digits n
      × (f ≡ state_of n s)
unfolding read_state
read_state-some [] f e = cc
read_state-some (_ ∷ []) f e = cc
read_state-some (digits ∷ word ∷ []) f e =
    let (n, s, number, w, q) = state_frame-some (parse_sequence digits) word f e in
    (digits, n, s, ap (λ t. digits ∷ t ∷ []) w, (parse_sequence_iff digits n).0 number, q)
read_state-some (_ ∷ _ ∷ _ ∷ _) f e = cc

pub read_goodbye-some :
    (rest : List Bytes) (f : Frame) → read_goodbye rest ≡ some f → (rest ≡ []) × (f ≡ goodbye_of)
unfolding read_goodbye
read_goodbye-some [] f e = (refl, ground arith)
read_goodbye-some (_ ∷ _) f e = cc

pub read_tokens-Tokens : (ts : List Bytes) (f : Frame) → read_tokens ts ≡ some f → Tokens ts f
unfolding read_tokens
read_tokens-Tokens [] f e = cc
read_tokens-Tokens (_ ∷ []) f e = cc
read_tokens-Tokens (version ∷ command ∷ rest) f e =
    elim (Bool-cases (equal command (codes "HELLO"))) [
      | inl is_hello ↦
          let (id, r, u, q) = read_hello-some rest f (ground arith) in
          hello_tokens id u (shape (codes "HELLO") is_hello r) q
      | inr not_hello ↦ elim (Bool-cases (equal command (codes "STATE"))) [
        | inl is_state ↦
            let (digits, n, s, r, h, q) = read_state-some rest f (ground arith) in
            state_tokens digits n s h (shape (codes "STATE") is_state r) q
        | inr not_state ↦
            let is_goodbye : equal command (codes "GOODBYE") ≡ true = ground arith in
            let (r, q) = read_goodbye-some rest f (ground arith) in
            goodbye_tokens (shape (codes "GOODBYE") is_goodbye r) q
      ]
    ]
  where
    versioned : version ≡ codes "PG/1"
    versioned = (equal_iff version (codes "PG/1")).0 (ground arith)

    shape :
        (word : Bytes) {args : List Bytes}
        → equal command word ≡ true
        → rest ≡ args
        → version ∷ command ∷ rest ≡ codes "PG/1" ∷ word ∷ args
    shape word is_word r = cc (versioned, (equal_iff command word).0 is_word)

pub Tokens-read_tokens : (ts : List Bytes) (f : Frame) → Tokens ts f → read_tokens ts ≡ some f
unfolding read_tokens
Tokens-read_tokens ts f (hello_tokens id u e q) =
    rw (e, (is_uuid_iff id).1 u, q) (unfold equal read_hello in refl)
Tokens-read_tokens ts f (state_tokens digits n true h e q) =
    rw (e, q) (unfold equal read_state state_frame in rw ((parse_sequence_iff digits n).1 h))
Tokens-read_tokens ts f (state_tokens digits n false h e q) =
    rw (e, q) (unfold equal read_state state_frame in rw ((parse_sequence_iff digits n).1 h))
Tokens-read_tokens ts f (goodbye_tokens e q) = rw (e, q) (unfold equal read_goodbye in refl)
