-- ===== src/Privacy/Order.antt =====
-- The order in which `std::unordered_map` is walked: what the operations on the map of clients make of
-- two orders of the same entries.
pub mod Swept
pub mod Rehash
mod Tests
use obs_vscode_privacy_guard.Base.{
  Bool, Bool-cases, Bytes, ap, arith, equal, if◌then◌else◌, inl, inr, is_nil, is_some, map, not,
  refl, sym, true, ℕ, ◌&&◌, ◌==◌, ◌||◌, ◌∙◌, ◌∷◌, ◌≡◌,
}
use obs_vscode_privacy_guard.Privacy.{
  Client, Clients, Mode, assign, emplace, erase, find, is_taken, reset_client, scan_clients,
  value_or_false,
}
use obs_vscode_privacy_guard.Privacy.Clients.{Distinct}

-- The same entries in another order.
pub data Shuffled : Clients → Clients → Type 0 where
  unchanged : (cs : Clients) → Shuffled cs cs
  under : (e : ℕ × Client) {cs ds : Clients} → Shuffled cs ds → Shuffled (e ∷ cs) (e ∷ ds)
  exchange : (e e' : ℕ × Client) (cs : Clients) → Shuffled (e ∷ e' ∷ cs) (e' ∷ e ∷ cs)
  both : {cs ds es : Clients} → Shuffled cs ds → Shuffled ds es → Shuffled cs es

-- The two entries do not both belong to the connection `id`.
apart :
    (key key' id : ℕ) (c c' : Client) (cs : Clients)
    → Distinct ((key, c) ∷ (key', c') ∷ cs)
    → (key == id) ≡ true
    → (key' == id) ≡ true
    → ⊥
unfolding find
apart key key' id c c' cs h e e' = ground (arith, h.0, e, e')

pub Shuffled-lookup :
    {cs ds : Clients}
    → Shuffled cs ds
    → Distinct cs
    → Distinct ds × ((j : ℕ) → find j cs ≡ find j ds)
unfolding find
Shuffled-lookup (unchanged cs) h = (h, λ j. refl)
Shuffled-lookup (under (key, c) p) h =
    let (distinct, same_find) = Shuffled-lookup p h.1 in
    ((sym (same_find key) ∙ h.0, distinct), λ j. rw (same_find j) refl)
Shuffled-lookup (exchange (key, c) (key', c') cs) h =
    ((ground (arith, h.0, h.1.0), (ground (arith, h.0), h.1.1)), λ j. ground (arith, h.0))
Shuffled-lookup (both p q) h =
    let (distinct, same_find) = Shuffled-lookup p h in
    let (distinct', same_find') = Shuffled-lookup q distinct in
    (distinct', λ j. same_find j ∙ same_find' j)

pub Shuffled-erase :
    (id : ℕ) {cs ds : Clients} → Shuffled cs ds → Distinct cs → Shuffled (erase id cs) (erase id ds)
unfolding erase find
Shuffled-erase id (unchanged cs) h = unchanged _
Shuffled-erase id (under (key, c) p) h = elim (Bool-cases (key == id)) [
  | inl e ↦ rw e p
  | inr e ↦ rw e (under (key, c) (Shuffled-erase id p h.1))
]
Shuffled-erase id (exchange (key, c) (key', c') cs) h = elim (Bool-cases (key == id)) [
  | inl e ↦ elim (Bool-cases (key' == id)) [
    | inl e' ↦ absurd (apart key key' id c c' cs h e e')
    | inr e' ↦ rw (e, e') (unchanged ((key', c') ∷ cs))
  ]
  | inr e ↦ elim (Bool-cases (key' == id)) [
    | inl e' ↦ rw (e, e') (unchanged ((key, c) ∷ cs))
    | inr e' ↦ rw (e, e') (exchange (key, c) (key', c') (erase id cs))
  ]
]
Shuffled-erase id (both p q) h =
    both (Shuffled-erase id p h) (Shuffled-erase id q (Shuffled-lookup p h).0)

pub Shuffled-assign :
    (id : ℕ) (d : Client) {cs ds : Clients}
    → Shuffled cs ds
    → Distinct cs
    → Shuffled (assign id d cs) (assign id d ds)
unfolding assign find
Shuffled-assign id d (unchanged cs) h = unchanged _
Shuffled-assign id d (under (key, c) p) h = elim (Bool-cases (key == id)) [
  | inl e ↦ rw e (under (key, d) p)
  | inr e ↦ rw e (under (key, c) (Shuffled-assign id d p h.1))
]
Shuffled-assign id d (exchange (key, c) (key', c') cs) h = elim (Bool-cases (key == id)) [
  | inl e ↦ elim (Bool-cases (key' == id)) [
    | inl e' ↦ absurd (apart key key' id c c' cs h e e')
    | inr e' ↦ rw (e, e') (exchange (key, d) (key', c') cs)
  ]
  | inr e ↦ elim (Bool-cases (key' == id)) [
    | inl e' ↦ rw (e, e') (exchange (key, c) (key', d) cs)
    | inr e' ↦ rw (e, e') (exchange (key, c) (key', c') (assign id d cs))
  ]
]
Shuffled-assign id d (both p q) h =
    both (Shuffled-assign id d p h) (Shuffled-assign id d q (Shuffled-lookup p h).0)

pub Shuffled-emplace :
    (id : ℕ) (d : Client) {cs ds : Clients}
    → Shuffled cs ds
    → Distinct cs
    → Shuffled (emplace id d cs) (emplace id d ds)
unfolding emplace
Shuffled-emplace id d {cs = cs} {ds = ds} p h = elim (Bool-cases (is_some (find id ds))) [
  | inl e ↦ rw ((Shuffled-lookup p h).1 id, e) p
  | inr e ↦ rw ((Shuffled-lookup p h).1 id, e) (under (id, d) p)
]

pub Shuffled-map-reset :
    {cs ds : Clients} → Shuffled cs ds → Shuffled (map reset_client cs) (map reset_client ds)
Shuffled-map-reset (unchanged cs) = unchanged _
Shuffled-map-reset (under e p) = under (reset_client e) (Shuffled-map-reset p)
Shuffled-map-reset (exchange e e' cs) =
    exchange (reset_client e) (reset_client e') (map reset_client cs)
Shuffled-map-reset (both p q) = both (Shuffled-map-reset p) (Shuffled-map-reset q)

pub is_taken-Shuffled :
    (id : ℕ) (client_id : Bytes) {cs ds : Clients}
    → Shuffled cs ds
    → is_taken id client_id cs ≡ is_taken id client_id ds
unfolding is_taken
is_taken-Shuffled id client_id (unchanged cs) = refl
is_taken-Shuffled id client_id (under (key, c) p) =
    ap (λ b. (not (key == id) && c.hello_received && equal c.client_id client_id) || b)
      (is_taken-Shuffled id client_id p)
is_taken-Shuffled id client_id (exchange (key, c) (key', c') cs) = ground arith
is_taken-Shuffled id client_id (both p q) =
    is_taken-Shuffled id client_id p ∙ is_taken-Shuffled id client_id q

pub scan_clients-Shuffled :
    (any : Bool) {cs ds : Clients} → Shuffled cs ds → scan_clients any cs ≡ scan_clients any ds
unfolding scan_clients
scan_clients-Shuffled any (unchanged cs) = refl
scan_clients-Shuffled any (under (key, c) p) =
    ap
      (λ m.
        if not c.hello_received || not (is_some c.sensitive) then Mode.awaiting_connection else m)
      (scan_clients-Shuffled (any || value_or_false c.sensitive) p)
scan_clients-Shuffled any (exchange (key, c) (key', c') cs) = ground arith
scan_clients-Shuffled any (both p q) = scan_clients-Shuffled any p ∙ scan_clients-Shuffled any q

pub is_nil-Shuffled : {cs ds : Clients} → Shuffled cs ds → is_nil cs ≡ is_nil ds
is_nil-Shuffled (unchanged cs) = refl
is_nil-Shuffled (under e p) = refl
is_nil-Shuffled (exchange e e' cs) = refl
is_nil-Shuffled (both p q) = is_nil-Shuffled p ∙ is_nil-Shuffled q
