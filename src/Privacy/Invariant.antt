-- ===== src/Privacy/Invariant.antt =====
-- What holds of a `PrivacyState` after every history of calls.
use obs_vscode_privacy_guard.Base.{
  Bytes, Option-cases, [], ap, arith, equal_iff, false, inl, inr, is_some, length, map, none, refl,
  some, suc, true, u64_mod, ℕ, ◌+◌, ◌<◌, ◌∷◌, ◌≡◌, ◌≢◌, ◌≤◌,
}
use obs_vscode_privacy_guard.Privacy.{
  Client, Clients, PrivacyState, assign, emplace, erase, find, is_taken, new_client, reset_client,
}
use obs_vscode_privacy_guard.Privacy.Clients.{
  Distinct, Distinct-assign, Distinct-emplace, Distinct-erase, Distinct-live, Distinct-map_reset,
  Each, Each-assign, Each-emplace, Each-erase, Each-live, Each-mono, find-assign, find-emplace,
  find-erase, find-live, find-map-reset, find-none_of_le, length-assign, length-emplace,
  length-erase, live, reset,
}
use obs_vscode_privacy_guard.Privacy.Sweep.{length-live, lost}

-- A client that has reported a state has said HELLO and has a last sequence.
abbrev pub IsClient : ℕ → Client → Type 0
IsClient _ c =
    is_some c.sensitive ≡ true → (c.hello_received ≡ true) × (is_some c.last_sequence ≡ true)

abbrev pub IsBelow : ℕ → ℕ → Client → Type 0
IsBelow next key _ = key < next

-- Two connections that have said HELLO have different identities.
abbrev pub Unique : Clients → Type 0
Unique cs =
    (i j : ℕ) (c d : Client)
    → find i cs ≡ some c
    → find j cs ≡ some d
    → c.hello_received ≡ true
    → d.hello_received ≡ true
    → c.client_id ≡ d.client_id
    → i ≡ j

-- The invariant, over the counter of connections, the count of failures and the clients.
pub record Sound (next failed : ℕ) (cs : Clients) : Type 0 where
  pub distinct : Distinct cs
  pub below : Each (IsBelow next) cs
  pub reported : Each IsClient cs
  pub unique : Unique cs
  pub counted : failed + length cs < next
  pub bounded : next < u64_mod

abbrev pub Inv : PrivacyState → Type 0
Inv st = Sound st.next_connection_id st.disconnected_clients st.clients

-- An identity that is not taken belongs to no other connection.
pub not-is_taken :
    (id j : ℕ) (client_id : Bytes) (cs : Clients) (c : Client)
    → is_taken id client_id cs ≡ false
    → find j cs ≡ some c
    → j ≢ id
    → c.hello_received ≡ true
    → c.client_id ≢ client_id
unfolding is_taken find
not-is_taken id j client_id [] c t e ne h = cc
not-is_taken id j client_id ((key, d) ∷ cs) c t e ne h =
    ground (arith, equal_iff d.client_id client_id, not-is_taken id j client_id cs c)

Unique-assign :
    (id : ℕ) (d : Client) (cs : Clients)
    → Unique cs
    → ((j : ℕ) (c : Client)
        → j ≢ id
        → find j cs ≡ some c
        → c.hello_received ≡ true
        → d.hello_received ≡ true
        → c.client_id ≢ d.client_id)
    → Unique (assign id d cs)
Unique-assign id d cs h other i j a b ei ej hi hj same_id =
    ground (arith, h i j a b, other i a, other j b, find-assign i id d cs, find-assign j id d cs)

-- A part of the clients keeps distinct identities.
Unique-sub :
    (cs ds : Clients)
    → ((j : ℕ) (c : Client) → find j ds ≡ some c → find j cs ≡ some c)
    → Unique cs
    → Unique ds
Unique-sub cs ds sub h i j a b ei ej = h i j a b (sub i a ei) (sub j b ej)

pub Sound-assign :
    (next failed id : ℕ) (d : Client) (cs : Clients)
    → Sound next failed cs
    → id < next
    → IsClient id d
    → ((j : ℕ) (c : Client)
        → j ≢ id
        → find j cs ≡ some c
        → c.hello_received ≡ true
        → d.hello_received ≡ true
        → c.client_id ≢ d.client_id)
    → Sound next failed (assign id d cs)
Sound-assign next failed id d cs v lt client other = record {
  distinct = Distinct-assign id d cs v.distinct;
  below = Each-assign (IsBelow next) id d cs v.below lt;
  reported = Each-assign IsClient id d cs v.reported client;
  unique = Unique-assign id d cs v.unique other;
  counted = omega (arith, v.counted, length-assign id d cs);
  bounded = v.bounded;
}

pub Sound-erase :
    (next failed failed' id : ℕ) (c : Client) (cs : Clients)
    → Sound next failed cs
    → find id cs ≡ some c
    → failed' ≤ failed + 1
    → Sound next failed' (erase id cs)
Sound-erase next failed failed' id c cs v e le = record {
  distinct = Distinct-erase id cs v.distinct;
  below = Each-erase (IsBelow next) id cs v.below;
  reported = Each-erase IsClient id cs v.reported;
  unique =
      Unique-sub cs (erase id cs) (λ j d q. ground (arith, find-erase j id cs v.distinct)) v.unique;
  counted = omega (arith, v.counted, length-erase id c cs e);
  bounded = v.bounded;
}

pub Sound-live :
    (next failed timeout now : ℕ) (cs : Clients)
    → Sound next failed cs
    → Sound next (failed + lost timeout now cs) (live timeout now cs)
Sound-live next failed timeout now cs v = record {
  distinct = Distinct-live timeout now cs v.distinct;
  below = Each-live (IsBelow next) timeout now cs v.below;
  reported = Each-live IsClient timeout now cs v.reported;
  unique =
      Unique-sub cs (live timeout now cs) (λ j d q. (find-live j timeout now cs d v.distinct q).0)
        v.unique;
  counted = omega (arith, v.counted, length-live timeout now cs);
  bounded = v.bounded;
}

Each-map-reset :
    (P : ℕ → Client → Type 0) (cs : Clients)
    → ((id : ℕ) (c : Client) → P id c → P id (reset c))
    → Each P cs
    → Each P (map reset_client cs)
Each-map-reset P [] f h = tt
Each-map-reset P ((id, c) ∷ cs) f h = (f id c h.0, Each-map-reset P cs f h.1)

length-map_reset : (cs : Clients) → length (map reset_client cs) ≡ length cs
length-map_reset [] = refl
length-map_reset (e ∷ cs) = ap suc (length-map_reset cs)

Unique-map_reset : (cs : Clients) → Unique cs → Unique (map reset_client cs)
Unique-map_reset cs h i j a b ei ej hi hj same_id = elim (Option-cases (find i cs)) [
  | inl e ↦ ground (arith, find-map-reset i cs)
  | inr (c, e) ↦ elim (Option-cases (find j cs)) [
    | inl e' ↦ ground (arith, find-map-reset j cs)
    | inr (d, e') ↦ ground (arith, find-map-reset i cs, find-map-reset j cs, h i j c d)
  ]
]

pub Sound-map_reset :
    (next failed : ℕ) (cs : Clients) → Sound next failed cs → Sound next 0 (map reset_client cs)
Sound-map_reset next failed cs v = record {
  distinct = Distinct-map_reset cs v.distinct;
  below = Each-map-reset (IsBelow next) cs (λ id c h. h) v.below;
  reported = Each-map-reset IsClient cs (λ id c h e. cc) v.reported;
  unique = Unique-map_reset cs v.unique;
  counted = omega (arith, v.counted, length-map_reset cs);
  bounded = v.bounded;
}

pub Sound-emplace :
    (next failed now : ℕ) (cs : Clients)
    → Sound next failed cs
    → next + 1 < u64_mod
    → Sound (next + 1) failed (emplace next (new_client now) cs)
Sound-emplace next failed now cs v room = record {
  distinct = Distinct-emplace next (new_client now) cs v.distinct;
  below =
      Each-emplace (IsBelow (next + 1)) next (new_client now) cs
        (Each-mono (IsBelow next) (IsBelow (next + 1)) cs (λ key c h. omega arith) v.below)
        (omega arith);
  reported = Each-emplace IsClient next (new_client now) cs v.reported (λ e. cc);
  unique = λ i j a b ei ej hi hj same_id. ground (
    arith,
    find-emplace i next (new_client now) cs absent,
    find-emplace j next (new_client now) cs absent,
    v.unique i j a b,
  );
  counted = omega (arith, v.counted, length-emplace next (new_client now) cs);
  bounded = room;
}
  where
    absent : find next cs ≡ none
    absent = find-none_of_le next next cs v.below (omega arith)
