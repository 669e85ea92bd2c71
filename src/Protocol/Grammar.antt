-- ===== src/Protocol/Grammar.antt =====
-- `parse_frame` against the frames of docs/protocol.md.
use obs_vscode_privacy_guard.Protocol.Tokens.{
  Grammar, Tokens, Tokens-read_tokens, goodbye_tokens, hello_tokens, read_tokens-Tokens,
  says_goodbye, says_hello, says_state, state_tokens, state_word,
}
use obs_vscode_privacy_guard.Base.{
  All, All-append, Bool, Bytes, List, [], ap, append_assoc, arith, codes, false, length, refl, some,
  sym, true, ℕ, ◌++◌, ◌↔◌, ◌∙◌, ◌∷◌, ◌≡◌, ◌≢◌, ◌≤◌,
}
use obs_vscode_privacy_guard.Protocol.{
  Frame, back, front, is_refused, max_frame_size, parse_frame, read_tokens, split_tokens,
}
use obs_vscode_privacy_guard.Protocol.Split.{IsToken, back-append, join, split_tokens_iff}
use obs_vscode_privacy_guard.Protocol.Number.{IsDigit}
use obs_vscode_privacy_guard.Protocol.Uuid.{HexGroup, IsHex, IsUuid}

-- Neither a space nor a carriage return.
abbrev IsPlain : ℕ → Type 0
IsPlain c = (c ≢ b' ') × (c ≢ b'\r')

All-mono : {P Q : ℕ → Type 0} (s : Bytes) → ((c : ℕ) → P c → Q c) → All P s → All Q s
All-mono [] f h = tt
All-mono (c ∷ s) f (hc, hs) = (f c hc, All-mono s f hs)

All-back : (P : ℕ → Type 0) (s : Bytes) → s ≢ [] → All P s → P (back s)
All-back P [] ne h = absurd (ne refl)
All-back P (c ∷ []) ne h = h.0
All-back P (c ∷ d ∷ s) ne h = All-back P (d ∷ s) (λ q. cc) h.1

IsDigit-IsPlain : (c : ℕ) → IsDigit c → IsPlain c
IsDigit-IsPlain c h = (λ e. omega arith, λ e. omega arith)

IsHex-IsPlain : (c : ℕ) → IsHex c → IsPlain c
IsHex-IsPlain c h = (λ e. ground arith, λ e. ground arith)

append-cons-ne-nil : (s : Bytes) (c : ℕ) (t : Bytes) → s ++ (c ∷ t) ≢ []
append-cons-ne-nil [] c t e = cc
append-cons-ne-nil (d ∷ s) c t e = cc

IsUuid-IsPlain : (s : Bytes) → IsUuid s → (s ≢ []) × All IsPlain s
IsUuid-IsPlain s u = (
  (λ e. append-cons-ne-nil g1 b'-' _ (sym u.shape ∙ e)),
  rw u.shape (
      group g1 _ hex1
        (group g2 _ hex2 (group g3 _ hex3 (group g4 _ hex4 (All-mono g5 IsHex-IsPlain hex5.1))))),
)
  where
    open u use {g1, g2, g3, g4, g5, hex1, hex2, hex3, hex4, hex5}

    group : (g t : Bytes) {n : ℕ} → HexGroup n g → All IsPlain t → All IsPlain (g ++ (b'-' ∷ t))
    group g t h rest =
        All-append IsPlain g (b'-' ∷ t) (All-mono g IsHex-IsPlain h.1)
          (((λ e. omega arith), λ e. omega arith), rest)

-- What the guard of `parse_frame` lets through.
record IsClean (line : Bytes) : Type 0 where
  some_byte : line ≢ []
  short : length line ≤ max_frame_size
  starts : front line ≢ b' '
  ends : IsPlain (back line)

is_refused_iff : (line : Bytes) → (is_refused line ≡ false) ↔ IsClean line
is_refused_iff [] = ((λ e. cc), λ h. absurd (h.some_byte refl))
is_refused_iff (c ∷ cs) = (
  (λ e. record {
    some_byte = λ q. cc;
    short = ground arith;
    starts = ground arith;
    ends = ((λ q. ground arith), λ q. ground arith);
  }),
  (λ h. ground (arith, h.starts, h.ends.0, h.ends.1)),
)

Tokens-Grammar : (ts : List Bytes) (f : Frame) → Tokens ts f → (ts ≢ []) × Grammar (join ts) f
Tokens-Grammar ts f (hello_tokens id u e q) = ((λ z. cc), says_hello id u (ap join e) q)
Tokens-Grammar ts f (state_tokens digits n s h e q) =
    ((λ z. cc), says_state digits n s h (ap join e) q)
Tokens-Grammar ts f (goodbye_tokens e q) = ((λ z. cc), says_goodbye (ap join e) q)

-- A line of the grammar, with what `parse_frame` needs of it.
record Parts (line : Bytes) (f : Frame) : Type 0 where
  ts : List Bytes
  tokens : Tokens ts f
  words : All IsToken ts
  joined : join ts ≡ line
  some_token : ts ≢ []
  clean : length line ≤ max_frame_size → IsClean line

IsPlain-IsToken : (s : Bytes) → s ≢ [] → All IsPlain s → IsToken s
IsPlain-IsToken s ne h = (ne, All-mono s (λ c p. p.0) h)

pg1-IsToken : IsToken (codes "PG/1")
pg1-IsToken = ((λ z. cc), omega arith)

hello-IsToken : IsToken (codes "HELLO")
hello-IsToken = ((λ z. cc), omega arith)

state-IsToken : IsToken (codes "STATE")
state-IsToken = ((λ z. cc), omega arith)

goodbye-IsToken : IsToken (codes "GOODBYE")
goodbye-IsToken = ((λ z. cc), omega arith)

state_word-IsPlain : (s : Bool) → (state_word s ≢ []) × All IsPlain (state_word s)
state_word-IsPlain true = ((λ z. cc), omega arith)
state_word-IsPlain false = ((λ z. cc), omega arith)

-- A line that begins with `P` and ends in plain bytes is clean.
IsClean-line :
    (line s t : Bytes)
    → line ≡ (b'P' ∷ s) ++ t
    → t ≢ []
    → All IsPlain t
    → length line ≤ max_frame_size
    → IsClean line
IsClean-line line s t e ne plain short = record {
  some_byte = λ z. cc e;
  short = short;
  starts = rw e (λ z. omega arith);
  ends = rw (e, back-append (b'P' ∷ s) t ne) (All-back IsPlain t ne plain);
}

Grammar-Parts : (line : Bytes) (f : Frame) → Grammar line f → Parts line f
Grammar-Parts line f (says_hello id u e q) =
    let (ne, plain) = IsUuid-IsPlain id u in
    record {
      ts = codes "PG/1" ∷ codes "HELLO" ∷ id ∷ [];
      tokens = hello_tokens id u refl q;
      words = (pg1-IsToken, (hello-IsToken, (IsPlain-IsToken id ne plain, tt)));
      joined = sym e;
      some_token = λ z. cc;
      clean = IsClean-line line (codes "G/1 HELLO ") id e ne plain;
    }
Grammar-Parts line f (says_state digits n s h e q) =
    let (ne, plain) = state_word-IsPlain s in
    let number = IsPlain-IsToken digits h.some_digit (All-mono digits IsDigit-IsPlain h.digits) in
    record {
      ts = codes "PG/1" ∷ codes "STATE" ∷ digits ∷ state_word s ∷ [];
      tokens = state_tokens digits n s h refl q;
      words =
          (pg1-IsToken, (state-IsToken, (number, (IsPlain-IsToken (state_word s) ne plain, tt))));
      joined = sym e;
      some_token = λ z. cc;
      clean =
          IsClean-line line (codes "G/1 STATE " ++ (digits ++ (b' ' ∷ []))) (state_word s)
            (e
              ∙ ap (λ t. codes "PG/1 STATE " ++ t)
                  (sym (append_assoc digits (b' ' ∷ []) (state_word s))))
            ne plain;
    }
Grammar-Parts line f (says_goodbye e q) = record {
  ts = codes "PG/1" ∷ codes "GOODBYE" ∷ [];
  tokens = goodbye_tokens refl q;
  words = (pg1-IsToken, (goodbye-IsToken, tt));
  joined = sym e;
  some_token = λ z. cc;
  clean = IsClean-line line (codes "G/1 GOO") (codes "DBYE") e (λ z. cc) (omega arith);
}

parse_frame_cases :
    (line : Bytes) (f : Frame)
    → (parse_frame line ≡ some f)
      ↔ ((is_refused line ≡ false) × (read_tokens (split_tokens line) ≡ some f))
unfolding parse_frame
parse_frame_cases line f = ((λ e. ground arith), λ h. rw (h.0, h.1))

read_tokens-ne-nil : (ts : List Bytes) (f : Frame) → read_tokens ts ≡ some f → ts ≢ []
unfolding read_tokens
read_tokens-ne-nil [] f e = cc
read_tokens-ne-nil (t ∷ ts) f e = λ z. cc

-- The parser accepts exactly the frames of the protocol, up to 1024 bytes, and reads each as what it
-- says; on all other lines it fails.
pub parse_frame_iff :
    (line : Bytes) (f : Frame)
    → (parse_frame line ≡ some f) ↔ (Grammar line f × (length line ≤ max_frame_size))
parse_frame_iff line f = (sound, complete)
  where
    sound : parse_frame line ≡ some f → Grammar line f × (length line ≤ max_frame_size)
    sound e =
        let (accepted, tokens) = (parse_frame_cases line f).0 e in
        let clean = (is_refused_iff line).0 accepted in
        let ne = read_tokens-ne-nil (split_tokens line) f tokens in
        let (_, joined) =
          (split_tokens_iff line (split_tokens line) clean.some_byte clean.ends.0 ne).0 refl in
        (
          rw joined at
              (Tokens-Grammar (split_tokens line) f
                (read_tokens-Tokens (split_tokens line) f tokens)).1,
          clean.short,
        )

    complete : Grammar line f × (length line ≤ max_frame_size) → parse_frame line ≡ some f
    complete (g, short) =
        let parts = Grammar-Parts line f g in
        let clean = parts.clean short in
        let tokens =
          (split_tokens_iff line parts.ts clean.some_byte clean.ends.0 parts.some_token).1
            (parts.words, parts.joined) in
        (parse_frame_cases line f).1
          ((is_refused_iff line).1 clean, rw tokens (Tokens-read_tokens parts.ts f parts.tokens))
