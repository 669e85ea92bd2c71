-- ===== src/Privacy/Clients.antt =====
-- The map of clients: what each operation on it does to a lookup, and to a property of all entries.
use mathlib.Core.Option
use obs_vscode_privacy_guard.Base.{
  Bool-cases, [], ap, arith, false, if◌then◌else◌, inl, inr, length, map, none, refl, some, true, ℕ,
  ◌+◌, ◌<◌, ◌==◌, ◌∙◌, ◌∷◌, ◌≡◌, ◌≢◌, ◌≤◌,
}
use obs_vscode_privacy_guard.Privacy.{
  Client, Clients, assign, emplace, erase, find, is_expired, reset_client,
}

-- No connection has two entries.
abbrev pub Distinct : Clients → Type 0
Distinct [] = Unit {0}
Distinct ((key, c) ∷ cs) = (find key cs ≡ none) × Distinct cs

-- Every entry satisfies `P`.
abbrev pub Each : (ℕ → Client → Type 0) → Clients → Type 0
Each P [] = Unit {0}
Each P ((key, c) ∷ cs) = P key c × Each P cs

pub find-assign :
    (j id : ℕ) (d : Client) (cs : Clients)
    → find j (assign id d cs) ≡ (if id == j then Option.map (λ _. d) (find j cs) else find j cs)
unfolding find assign
find-assign j id d [] = ground arith
find-assign j id d ((key, c) ∷ cs) = ground (arith, find-assign j id d cs)

pub find-erase :
    (j id : ℕ) (cs : Clients)
    → Distinct cs
    → find j (erase id cs) ≡ (if id == j then none else find j cs)
unfolding find erase
find-erase j id [] h = ground arith
find-erase j id ((key, c) ∷ cs) h = ground (arith, find-erase j id cs h.1)

pub find-emplace :
    (j id : ℕ) (d : Client) (cs : Clients)
    → find id cs ≡ none
    → find j (emplace id d cs) ≡ (if id == j then some d else find j cs)
unfolding find emplace
find-emplace j id d cs h = ground arith

abbrev pub reset : Client → Client
reset c = record c { sensitive = none }

pub find-map-reset :
    (j : ℕ) (cs : Clients) → find j (map reset_client cs) ≡ Option.map reset (find j cs)
unfolding find
find-map-reset j [] = refl
find-map-reset j ((key, c) ∷ cs) = ground (arith, find-map-reset j cs)

-- The entries that `tick` keeps.
unfoldable pub live : ℕ → ℕ → Clients → Clients
live timeout now [] = []
live timeout now ((id, c) ∷ cs) =
    if is_expired timeout now c then live timeout now cs else (id, c) ∷ live timeout now cs

pub find-live-none :
    (j timeout now : ℕ) (cs : Clients) → find j cs ≡ none → find j (live timeout now cs) ≡ none
unfolding find live
find-live-none j timeout now [] h = refl
find-live-none j timeout now ((key, c) ∷ cs) h = ground (arith, find-live-none j timeout now cs)

live-expired :
    (timeout now id : ℕ) (c : Client) (cs : Clients)
    → is_expired timeout now c ≡ true
    → live timeout now ((id, c) ∷ cs) ≡ live timeout now cs
unfolding live
live-expired timeout now id c cs h = ground arith

live-kept :
    (timeout now id : ℕ) (c : Client) (cs : Clients)
    → is_expired timeout now c ≡ false
    → live timeout now ((id, c) ∷ cs) ≡ (id, c) ∷ live timeout now cs
unfolding live
live-kept timeout now id c cs h = ground arith

-- A client that `tick` keeps is one that was there and has not expired.
pub find-live :
    (j timeout now : ℕ) (cs : Clients) (d : Client)
    → Distinct cs
    → find j (live timeout now cs) ≡ some d
    → (find j cs ≡ some d) × (is_expired timeout now d ≡ false)
unfolding find
find-live j timeout now [] d dist h = unfold live in cc
find-live j timeout now ((key, c) ∷ cs) d dist h = elim (Bool-cases (is_expired timeout now c)) [
  | inl x ↦
      let h' = rw (live-expired timeout now key c cs x) at h in
      ground (arith, find-live j timeout now cs d dist.1, find-live-none j timeout now cs)
  | inr x ↦
      let h' = rw (live-kept timeout now key c cs x) at h in
      ground (arith, find-live j timeout now cs d dist.1)
]

module _ (P : ℕ → Client → Type 0) where
  pub Each-find : (id : ℕ) (cs : Clients) (d : Client) → Each P cs → find id cs ≡ some d → P id d
  unfolding find
  Each-find id [] d h e = cc
  Each-find id ((key, c) ∷ cs) d h e = ground (arith, Each-find id cs d h.1)

  pub Each-assign :
      (id : ℕ) (d : Client) (cs : Clients) → Each P cs → P id d → Each P (assign id d cs)
  unfolding assign
  Each-assign id d [] h p = tt
  Each-assign id d ((key, c) ∷ cs) h p = ground (arith, Each-assign id d cs h.1)

  pub Each-erase : (id : ℕ) (cs : Clients) → Each P cs → Each P (erase id cs)
  unfolding erase
  Each-erase id [] h = tt
  Each-erase id ((key, c) ∷ cs) h = ground (arith, Each-erase id cs h.1)

  pub Each-live : (timeout now : ℕ) (cs : Clients) → Each P cs → Each P (live timeout now cs)
  unfolding live
  Each-live timeout now [] h = tt
  Each-live timeout now ((key, c) ∷ cs) h = ground (arith, Each-live timeout now cs h.1)

  pub Each-emplace :
      (id : ℕ) (d : Client) (cs : Clients) → Each P cs → P id d → Each P (emplace id d cs)
  unfolding emplace
  Each-emplace id d cs h p = ground arith

pub Each-mono :
    (P Q : ℕ → Client → Type 0) (cs : Clients)
    → ((id : ℕ) (c : Client) → P id c → Q id c)
    → Each P cs
    → Each Q cs
Each-mono P Q [] f h = tt
Each-mono P Q ((id, c) ∷ cs) f h = (f id c h.0, Each-mono P Q cs f h.1)

-- A connection number above those in use names no client.
pub find-none_of_le :
    (next id : ℕ) (cs : Clients) → Each (λ key _. key < next) cs → next ≤ id → find id cs ≡ none
unfolding find
find-none_of_le next id [] h le = refl
find-none_of_le next id ((key, c) ∷ cs) h le = ground (arith, find-none_of_le next id cs h.1 le)

pub Distinct-assign : (id : ℕ) (d : Client) (cs : Clients) → Distinct cs → Distinct (assign id d cs)
unfolding find assign
Distinct-assign id d [] h = tt
Distinct-assign id d ((key, c) ∷ cs) h =
    ground (arith, Distinct-assign id d cs h.1, find-assign key id d cs)

pub Distinct-erase : (id : ℕ) (cs : Clients) → Distinct cs → Distinct (erase id cs)
unfolding find erase
Distinct-erase id [] h = tt
Distinct-erase id ((key, c) ∷ cs) h =
    ground (arith, Distinct-erase id cs h.1, find-erase key id cs h.1)

pub Distinct-emplace :
    (id : ℕ) (d : Client) (cs : Clients) → Distinct cs → Distinct (emplace id d cs)
unfolding find emplace
Distinct-emplace id d cs h = ground (arith)

pub Distinct-map_reset : (cs : Clients) → Distinct cs → Distinct (map reset_client cs)
Distinct-map_reset [] h = tt
Distinct-map_reset ((key, c) ∷ cs) h =
    (find-map-reset key cs ∙ ap (Option.map reset) h.0, Distinct-map_reset cs h.1)

pub Distinct-live : (timeout now : ℕ) (cs : Clients) → Distinct cs → Distinct (live timeout now cs)
unfolding live
Distinct-live timeout now [] h = tt
Distinct-live timeout now ((key, c) ∷ cs) h =
    ground (arith, Distinct-live timeout now cs h.1, find-live-none key timeout now cs h.0)

pub length-assign : (id : ℕ) (d : Client) (cs : Clients) → length (assign id d cs) ≡ length cs
unfolding assign
length-assign id d [] = refl
length-assign id d ((key, c) ∷ cs) = ground (arith, length-assign id d cs)

pub length-erase :
    (id : ℕ) (c : Client) (cs : Clients)
    → find id cs ≡ some c
    → length (erase id cs) + 1 ≡ length cs
unfolding find erase
length-erase id c [] h = cc
length-erase id c ((key, d) ∷ cs) h = ground (arith, length-erase id c cs)

pub length-emplace : (id : ℕ) (d : Client) (cs : Clients) → length (emplace id d cs) ≤ length cs + 1
unfolding emplace
length-emplace id d cs = ground arith

pub assign-ne-nil :
    (id : ℕ) (d : Client) (cs : Clients) (c : Client) → find id cs ≡ some c → assign id d cs ≢ []
unfolding find assign
assign-ne-nil id d [] c e = cc
assign-ne-nil id d ((key, b) ∷ cs) c e = ground arith
