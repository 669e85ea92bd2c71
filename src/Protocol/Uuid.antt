-- ===== src/Protocol/Uuid.antt =====
-- `is_uuid` against the 8-4-4-4-12 shape of an identifier.
use obs_vscode_privacy_guard.Base.{
  All, Bytes, [], add-zero, ap, append-nil, arith, false, length, length-append, refl, subst, suc,
  sym, true, zero, ℕ, ◌++◌, ◌+◌, ◌<◌, ◌↔◌, ◌∙◌, ◌∷◌, ◌≡◌, ◌≤◌, ◌⊎◌,
}
use obs_vscode_privacy_guard.Protocol.{is_hexadecimal, is_separator, is_uuid, uuid_from}

abbrev pub IsHex : ℕ → Type 0
IsHex c = ((b'0' ≤ c) × (c ≤ b'9')) ⊎ (((b'a' ≤ c) × (c ≤ b'f')) ⊎ ((b'A' ≤ c) × (c ≤ b'F')))

-- A group of `n` hexadecimal digits.
abbrev pub HexGroup : ℕ → Bytes → Type 0
HexGroup n s = (length s ≡ n) × All IsHex s

pub record IsUuid (s : Bytes) : Type 0 where
  pub g1 : Bytes
  pub g2 : Bytes
  pub g3 : Bytes
  pub g4 : Bytes
  pub g5 : Bytes
  pub shape : s ≡ g1 ++ (b'-' ∷ (g2 ++ (b'-' ∷ (g3 ++ (b'-' ∷ (g4 ++ (b'-' ∷ g5)))))))
  pub hex1 : HexGroup 8 g1
  pub hex2 : HexGroup 4 g2
  pub hex3 : HexGroup 4 g3
  pub hex4 : HexGroup 4 g4
  pub hex5 : HexGroup 12 g5

is_hexadecimal_iff : (c : ℕ) → (is_hexadecimal c ≡ true) ↔ IsHex c
unfolding is_hexadecimal
is_hexadecimal_iff c = ((λ e. ground arith), λ h. ground arith)

-- One round of the loop.
uuid_from-IsHex :
    (i c : ℕ) (s : Bytes)
    → is_separator i ≡ false
    → (uuid_from i (c ∷ s) ≡ true) ↔ (IsHex c × (uuid_from (i + 1) s ≡ true))
unfolding uuid_from
uuid_from-IsHex i c s e =
    (λ h. ground (arith, is_hexadecimal_iff c), λ h. ground (arith, is_hexadecimal_iff c))

uuid_from-dash :
    (i c : ℕ) (s : Bytes)
    → is_separator i ≡ true
    → (uuid_from i (c ∷ s) ≡ true) ↔ ((c ≡ b'-') × (uuid_from (i + 1) s ≡ true))
unfolding uuid_from
uuid_from-dash i c s e = ((λ h. ground arith), λ h. ground arith)

-- No separator stands at the `n` places from `i` on.
abbrev Clear : ℕ → ℕ → Type 0
Clear i n = (k : ℕ) → i ≤ k → k < i + n → is_separator k ≡ false

uuid_from-group :
    (g rest : Bytes) (i : ℕ)
    → Clear i (length g)
    → (uuid_from i (g ++ rest) ≡ true) ↔ (All IsHex g × (uuid_from (i + length g) rest ≡ true))
uuid_from-group [] rest i clear = rw add-zero ((λ h. (tt, h)), λ h. h.1)
uuid_from-group (c ∷ g) rest i clear =
    let step = uuid_from-IsHex i c (g ++ rest) (clear i (omega arith) (omega arith)) in
    let more = uuid_from-group g rest (i + 1) (λ k a b. clear k (omega arith) (omega arith)) in
    let same : i + 1 + length g ≡ i + suc (length g) = omega arith in
    (
      (λ h. let (hc, h') = step.0 h in let (hg, h'') = more.0 h' in ((hc, hg), rw same at h'')),
      (λ h. step.1 (h.0.0, more.1 (h.0.1, rw (← same) at h.1))),
    )

split_at :
    (n : ℕ) (s : Bytes)
    → n ≤ length s
    → (g : Bytes) × (rest : Bytes) × (s ≡ g ++ rest) × (length g ≡ n)
split_at zero s h = ([], s, refl, refl)
split_at (suc n) [] h = absurd (omega arith)
split_at (suc n) (c ∷ s) h =
    let (g, rest, e, len) = split_at n s (omega arith) in (c ∷ g, rest, ap (◌∷◌ c) e, ap suc len)

-- A group and the dash behind it, read off a text that the loop accepts.
record Group (n i : ℕ) (s : Bytes) : Type 0 where
  group : Bytes
  rest : Bytes
  splits : s ≡ group ++ (b'-' ∷ rest)
  hex : HexGroup n group
  accepted : uuid_from (i + n + 1) rest ≡ true
  room : length rest + n + 1 ≡ length s

take-Group :
    (n i : ℕ) (s : Bytes)
    → Clear i n
    → is_separator (i + n) ≡ true
    → n < length s
    → uuid_from i s ≡ true
    → Group n i s
take-Group n i s clear sep h e =
    let (g, rest, split, len) = split_at n s (omega arith) in go g rest split len
  where
    go : (g rest : Bytes) → s ≡ g ++ rest → length g ≡ n → Group n i s
    go g [] split len = absurd (omega (arith, ap length split, length-append g [], len, h))
    go g (c ∷ rest) split len =
        let ran =
          (uuid_from-group g (c ∷ rest) i (subst (Clear i) (sym len) clear)).0
            (subst (λ t. uuid_from i t ≡ true) split e) in
        let (dash, more) =
          (uuid_from-dash (i + n) c rest sep).0
            (subst (λ k. uuid_from (i + k) (c ∷ rest) ≡ true) len ran.1) in
        record {
          group = g;
          rest = rest;
          splits = split ∙ ap (λ d. g ++ (d ∷ rest)) dash;
          hex = (len, ran.0);
          accepted = more;
          room = omega (arith, ap length split, length-append g (c ∷ rest), len);
        }

put_group :
    (n i : ℕ) (g rest : Bytes)
    → Clear i n
    → is_separator (i + n) ≡ true
    → HexGroup n g
    → uuid_from (i + n + 1) rest ≡ true
    → uuid_from i (g ++ (b'-' ∷ rest)) ≡ true
put_group n i g rest clear sep (len, hex) e =
    (uuid_from-group g (b'-' ∷ rest) i (subst (Clear i) (sym len) clear)).1 (
      hex,
      subst (λ k. uuid_from (i + k) (b'-' ∷ rest) ≡ true) (sym len)
          ((uuid_from-dash (i + n) b'-' rest sep).1 (refl, e)),
    )

is_uuid_cases : (s : Bytes) → (is_uuid s ≡ true) ↔ ((length s ≡ 36) × (uuid_from 0 s ≡ true))
unfolding is_uuid
is_uuid_cases s = ((λ e. ground arith), λ e. ground arith)

Clear-8 : Clear 0 8
Clear-8 k a b = ground arith

Clear-13 : Clear 9 4
Clear-13 k a b = ground arith

Clear-18 : Clear 14 4
Clear-18 k a b = ground arith

Clear-23 : Clear 19 4
Clear-23 k a b = ground arith

Clear-36 : Clear 24 12
Clear-36 k a b = ground arith

-- The loop past the last separator.
uuid_from_tail : (g : Bytes) → length g ≡ 12 → (uuid_from 24 g ≡ true) ↔ All IsHex g
unfolding uuid_from
uuid_from_tail g len =
    let run = uuid_from-group g [] 24 (subst (Clear 24) (sym len) Clear-36) in
    (
      (λ e. (run.0 (subst (λ t. uuid_from 24 t ≡ true) (sym (append-nil g)) e)).0),
      (λ h. subst (λ t. uuid_from 24 t ≡ true) (append-nil g) (run.1 (h, refl))),
    )

is_uuid-IsUuid : (s : Bytes) → is_uuid s ≡ true → IsUuid s
is_uuid-IsUuid s e =
    let (len, e0) = (is_uuid_cases s).0 e in
    let a = take-Group 8 0 s Clear-8 refl (omega arith) e0 in
    let b = take-Group 4 9 a.rest Clear-13 refl (omega (arith, a.room)) a.accepted in
    let c = take-Group 4 14 b.rest Clear-18 refl (omega (arith, a.room, b.room)) b.accepted in
    let d =
      take-Group 4 19 c.rest Clear-23 refl (omega (arith, a.room, b.room, c.room)) c.accepted in
    let last : length d.rest ≡ 12 = omega (arith, a.room, b.room, c.room, d.room) in
    record {
      g1 = a.group;
      g2 = b.group;
      g3 = c.group;
      g4 = d.group;
      g5 = d.rest;
      shape =
          a.splits
          ∙ ap (λ t. a.group ++ (b'-' ∷ t))
              (b.splits
                ∙ ap (λ t. b.group ++ (b'-' ∷ t))
                    (c.splits ∙ ap (λ t. c.group ++ (b'-' ∷ t)) d.splits));
      hex1 = a.hex;
      hex2 = b.hex;
      hex3 = c.hex;
      hex4 = d.hex;
      hex5 = (last, (uuid_from_tail d.rest last).0 d.accepted);
    }

IsUuid-is_uuid : (s : Bytes) → IsUuid s → is_uuid s ≡ true
IsUuid-is_uuid s u = (is_uuid_cases s).1 (rw u.shape whole, rw u.shape accepted)
  where
    open u use {g1, g2, g3, g4, g5, hex1, hex2, hex3, hex4, hex5}

    t4 : Bytes
    t4 = g4 ++ (b'-' ∷ g5)

    t3 : Bytes
    t3 = g3 ++ (b'-' ∷ t4)

    t2 : Bytes
    t2 = g2 ++ (b'-' ∷ t3)

    whole : length (g1 ++ (b'-' ∷ t2)) ≡ 36
    whole = omega (
      arith,
      length-append g1 (b'-' ∷ t2),
      length-append g2 (b'-' ∷ t3),
      length-append g3 (b'-' ∷ t4),
      length-append g4 (b'-' ∷ g5),
      hex1.0,
      hex2.0,
      hex3.0,
      hex4.0,
      hex5.0,
    )

    accepted : uuid_from 0 (g1 ++ (b'-' ∷ t2)) ≡ true
    accepted = put_group 8 0 g1 t2 Clear-8 refl hex1 (
        put_group 4 9 g2 t3 Clear-13 refl hex2 (
          put_group 4 14 g3 t4 Clear-18 refl hex3
            (put_group 4 19 g4 g5 Clear-23 refl hex4 ((uuid_from_tail g5 hex5.0).1 hex5.1))))

-- An identifier is accepted exactly if it is five groups of 8, 4, 4, 4 and 12 hexadecimal digits
-- with a dash between each two.
pub is_uuid_iff : (s : Bytes) → (is_uuid s ≡ true) ↔ IsUuid s
is_uuid_iff s = (is_uuid-IsUuid s, IsUuid-is_uuid s)
