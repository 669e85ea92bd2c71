-- ===== src/Protocol/Split.antt =====
-- `split_tokens` against the joining of tokens by single spaces.
use obs_vscode_privacy_guard.Base.{
  All, Bytes, List, Option-cases, [], ap, append_assoc, arith, drop, inl, inr, length,
  length-append, none, refl, some, suc, sym, take, take-length-append, zero, ℕ, ◌++◌, ◌<◌, ◌↔◌, ◌∙◌,
  ◌∷◌, ◌≡◌, ◌≢◌, ◌≤◌, ◌⊎◌,
}
use obs_vscode_privacy_guard.Protocol.{back, find_space, split_loop, split_tokens}

-- A token holds a byte and no space.
abbrev pub IsToken : Bytes → Type 0
IsToken t = (t ≢ []) × All (λ c. c ≢ b' ') t

-- The tokens behind one another, a space between each two.
abbrev pub join : List Bytes → Bytes
join [] = []
join (t ∷ []) = t
join (t ∷ u ∷ ts) = t ++ (b' ' ∷ join (u ∷ ts))

find_space-none : (t : Bytes) → All (λ c. c ≢ b' ') t → find_space t ≡ none
unfolding find_space
find_space-none [] h = refl
find_space-none (c ∷ t) (hc, ht) = ground (arith, find_space-none t ht)

find_space-append :
    (t rest : Bytes) → All (λ c. c ≢ b' ') t → find_space (t ++ (b' ' ∷ rest)) ≡ some (length t)
unfolding find_space
find_space-append [] rest h = refl
find_space-append (c ∷ t) rest (hc, ht) = ground (arith, find_space-append t rest ht)

-- Where a space is found, it splits the text, and there is none before it.
find_space-some :
    (t : Bytes) (n : ℕ)
    → find_space t ≡ some n
    → (t ≡ take n t ++ (b' ' ∷ drop (suc n) t)) × All (λ c. c ≢ b' ') (take n t)
unfolding find_space
find_space-some [] n e = cc
find_space-some (c ∷ t) zero e = (ground arith, tt)
find_space-some (c ∷ t) (suc n) e =
    let (split, lacks) = find_space-some t n (ground arith) in
    (ap (◌∷◌ c) split, (ground arith, lacks))

find_space-none-All : (t : Bytes) → find_space t ≡ none → All (λ c. c ≢ b' ') t
unfolding find_space
find_space-none-All [] e = tt
find_space-none-All (c ∷ t) e = ground (arith, find_space-none-All t)

-- One round of the loop, at each outcome of the search for a space.
split_loop-last :
    (fuel : ℕ) (t : Bytes) (tokens : List Bytes)
    → t ≢ []
    → find_space t ≡ none
    → split_loop (suc fuel) t tokens ≡ tokens ++ t ∷ []
unfolding split_loop
split_loop-last fuel [] tokens ne e = absurd (ne refl)
split_loop-last fuel (c ∷ t) tokens ne e = rw (e, split_loop)

split_loop-next :
    (fuel : ℕ) (t : Bytes) (n : ℕ) (tokens : List Bytes)
    → find_space t ≡ some (suc n)
    → split_loop (suc fuel) t tokens
      ≡ split_loop fuel (drop (suc (suc n)) t) (tokens ++ take (suc n) t ∷ [])
unfolding split_loop
split_loop-next fuel [] n tokens e = unfold find_space in cc
split_loop-next fuel (c ∷ t) n tokens e = rw (e, split_loop) (ground arith)

split_loop-empty :
    (fuel : ℕ) (t : Bytes) (tokens : List Bytes)
    → find_space t ≡ some 0
    → split_loop (suc fuel) t tokens ≡ []
unfolding split_loop
split_loop-empty fuel [] tokens e = unfold find_space in cc
split_loop-empty fuel (c ∷ t) tokens e = rw (e, split_loop)

back-cons : (c : ℕ) (t : Bytes) → t ≢ [] → back (c ∷ t) ≡ back t
back-cons c [] h = absurd (h refl)
back-cons c (d ∷ t) h = refl

pub back-append : (s t : Bytes) → t ≢ [] → back (s ++ t) ≡ back t
back-append [] t h = refl
back-append (c ∷ s) [] h = absurd (h refl)
back-append (c ∷ []) (d ∷ t) h = refl
back-append (c ∷ e ∷ s) (d ∷ t) h = back-append (e ∷ s) (d ∷ t) h

join-cons : (t : Bytes) (us : List Bytes) → us ≢ [] → join (t ∷ us) ≡ t ++ (b' ' ∷ join us)
join-cons t [] h = absurd (h refl)
join-cons t (u ∷ us) h = refl

length-drop-le : {A : Type 0} (n : ℕ) (t : List A) → length (drop n t) ≤ length t
length-drop-le zero t = omega arith
length-drop-le (suc n) [] = omega arith
length-drop-le (suc n) (c ∷ t) = omega (arith, length-drop-le n t)

length-drop-lt : {A : Type 0} (n : ℕ) (t : List A) → t ≢ [] → length (drop (suc n) t) < length t
length-drop-lt n [] h = absurd (h refl)
length-drop-lt n (c ∷ t) h = omega (arith, length-drop-le n t)

-- The tokens found in `t` are those that it joins.
abbrev Found : Bytes → List Bytes → List Bytes → Type 0
Found t tokens result =
    (us : List Bytes) × (result ≡ tokens ++ us) × (join us ≡ t) × (us ≢ []) × All IsToken us

Found-next :
    (t : Bytes) (n : ℕ) (tokens result : List Bytes)
    → find_space t ≡ some (suc n)
    → Found (drop (suc (suc n)) t) (tokens ++ take (suc n) t ∷ []) result
    → Found t tokens result
Found-next t n tokens result e (us, r, j, ne, h) =
    let (split, lacks) = find_space-some t (suc n) e in
    (
      take (suc n) t ∷ us,
      r ∙ append_assoc tokens (take (suc n) t ∷ []) us,
      join-cons (take (suc n) t) us ne ∙ rw j (sym split),
      (λ q. cc),
      ((take-ne-nil t e, lacks), h),
    )
  where
    take-ne-nil : (s : Bytes) → find_space s ≡ some (suc n) → take (suc n) s ≢ []
    take-ne-nil [] q = unfold find_space in cc
    take-ne-nil (c ∷ s) q = λ r. cc

-- What follows a space has the last byte of the whole, and is not empty unless that is a space.
back-split : (s d : Bytes) → back (s ++ (b' ' ∷ d)) ≢ b' ' → (d ≢ []) × (back d ≢ b' ')
back-split s [] h = absurd (h (back-append s (b' ' ∷ []) (λ q. cc)))
back-split s (c ∷ d) h = ((λ q. cc), λ q. h (back-append s (b' ' ∷ c ∷ d) (λ r. cc) ∙ q))

split_loop_sound :
    (fuel : ℕ) (t : Bytes) (tokens : List Bytes)
    → length t ≤ fuel
    → t ≢ []
    → back t ≢ b' '
    → Found t tokens (split_loop fuel t tokens) ⊎ (split_loop fuel t tokens ≡ [])
split_loop_sound zero [] tokens h ne b = absurd (ne refl)
split_loop_sound zero (c ∷ t) tokens h ne b = absurd (omega arith)
split_loop_sound (suc fuel) t tokens h ne b = elim (Option-cases (find_space t)) [
  | inl e ↦ inl (
    t ∷ [],
    split_loop-last fuel t tokens ne e,
    refl,
    (λ q. cc),
    ((ne, find_space-none-All t e), tt),
  )
  | inr (zero, e) ↦ inr (split_loop-empty fuel t tokens e)
  | inr (suc n, e) ↦
      let d = drop (suc (suc n)) t in
      let (ne', b') =
        back-split (take (suc n) t) d (λ q. b (ap back (find_space-some t (suc n) e).0 ∙ q)) in
      let rest =
        split_loop_sound fuel d (tokens ++ take (suc n) t ∷ [])
          (omega (arith, length-drop-lt (suc n) t ne)) ne' b' in
      rw (split_loop-next fuel t n tokens e)
        (elim rest [ inl f ↦ inl (Found-next t n tokens _ e f) | inr z ↦ inr z ])
]

drop-length-append_suc :
    (t : Bytes) (c : ℕ) (rest : Bytes) → drop (suc (length t)) (t ++ (c ∷ rest)) ≡ rest
drop-length-append_suc [] c rest = refl
drop-length-append_suc (d ∷ t) c rest = drop-length-append_suc t c rest

split_loop-join :
    (fuel : ℕ) (t : Bytes) (ts tokens : List Bytes)
    → IsToken t
    → All IsToken ts
    → length (join (t ∷ ts)) ≤ fuel
    → split_loop fuel (join (t ∷ ts)) tokens ≡ tokens ++ t ∷ ts
split_loop-join fuel [] [] tokens (ne, lacks) hs h = absurd (ne refl)
split_loop-join zero (c ∷ cs) [] tokens token hs h = absurd (omega arith)
split_loop-join (suc fuel) (c ∷ cs) [] tokens (ne, lacks) hs h =
    split_loop-last fuel (c ∷ cs) tokens ne (find_space-none (c ∷ cs) lacks)
split_loop-join fuel [] (u ∷ us) tokens (ne, lacks) hs h = absurd (ne refl)
split_loop-join zero (c ∷ cs) (u ∷ us) tokens token hs h = absurd (omega arith)
split_loop-join (suc fuel) (c ∷ cs) (u ∷ us) tokens (ne, lacks) (hu, hus) h =
    let t = c ∷ cs in
    let rest = join (u ∷ us) in
    split_loop-next fuel (t ++ (b' ' ∷ rest)) (length cs) tokens (find_space-append t rest lacks)
    ∙ rw (take-length-append t (b' ' ∷ rest), drop-length-append_suc t b' ' rest)
        (split_loop-join fuel u us (tokens ++ t ∷ []) hu hus
            (omega (arith, length-append t (b' ' ∷ rest)))
          ∙ append_assoc tokens (t ∷ []) (u ∷ us))

-- On a line that is not empty and does not end in a space, the tokens found are those that the line
-- joins, and none are found if it joins no tokens.
pub split_tokens_iff :
    (line : Bytes) (ts : List Bytes)
    → line ≢ []
    → back line ≢ b' '
    → ts ≢ []
    → (split_tokens line ≡ ts) ↔ (All IsToken ts × (join ts ≡ line))
unfolding split_tokens
split_tokens_iff line ts ne b some_token = (to, from ts some_token)
  where
    to : split_loop (length line) line [] ≡ ts → All IsToken ts × (join ts ≡ line)
    to e = elim (split_loop_sound (length line) line [] (omega arith) ne b) [
      | inl (us, r, j, _, h) ↦ rw (sym e ∙ r) (h, j)
      | inr z ↦ absurd (some_token (sym e ∙ z))
    ]

    from :
        (us : List Bytes)
        → us ≢ []
        → All IsToken us × (join us ≡ line)
        → split_loop (length line) line [] ≡ us
    from [] h q = absurd (h refl)
    from (u ∷ us) h ((hu, hus), j) =
        rw (← j) (split_loop-join (length (join (u ∷ us))) u us [] hu hus (omega arith))
