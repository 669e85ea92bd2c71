-- ===== src/Privacy/Order/Swept.antt =====
-- The loop of `tick` in two orders of the same clients.
use obs_vscode_privacy_guard.Base.{
  Bool-cases, [], ap, arith, if◌then◌else◌, inl, inr, refl, sym, ℕ, ◌∙◌, ◌∷◌, ◌≡◌,
}
use obs_vscode_privacy_guard.Privacy.{
  Client, Clients, PrivacyState, is_expired, record_connection_failure, sweep,
}
use obs_vscode_privacy_guard.Privacy.Clients.{live}
use obs_vscode_privacy_guard.Privacy.Sweep.{clients-sweep}
use obs_vscode_privacy_guard.Privacy.Order.{Shuffled, both, exchange, unchanged, under}

Shuffled-live :
    (timeout now : ℕ) {cs ds : Clients}
    → Shuffled cs ds
    → Shuffled (live timeout now cs) (live timeout now ds)
unfolding live
Shuffled-live timeout now (unchanged cs) = unchanged _
Shuffled-live timeout now (under (id, c) p) = elim (Bool-cases (is_expired timeout now c)) [
  | inl e ↦ rw e (Shuffled-live timeout now p)
  | inr e ↦ rw e (under (id, c) (Shuffled-live timeout now p))
]
Shuffled-live timeout now (exchange (id, c) (id', c') cs) =
    elim (Bool-cases (is_expired timeout now c)) [
      | inl e ↦ elim (Bool-cases (is_expired timeout now c')) [
        | inl e' ↦ rw (e, e') (unchanged _)
        | inr e' ↦ rw (e, e') (unchanged _)
      ]
      | inr e ↦ elim (Bool-cases (is_expired timeout now c')) [
        | inl e' ↦ rw (e, e') (unchanged _)
        | inr e' ↦ rw (e, e') (exchange (id, c) (id', c') (live timeout now cs))
      ]
    ]
Shuffled-live timeout now (both p q) =
    both (Shuffled-live timeout now p) (Shuffled-live timeout now q)

-- All of a state but its clients.
abbrev pub rest : PrivacyState → PrivacyState
rest st = record st { clients = [] }

-- The failure that `tick` records for a client, if it has expired.
noted : (timeout now : ℕ) → PrivacyState → Client → PrivacyState
noted timeout now st c = if is_expired timeout now c then record_connection_failure st c else st

failed : (timeout now : ℕ) → PrivacyState → Clients → PrivacyState
failed timeout now st [] = st
failed timeout now st ((id, c) ∷ cs) = failed timeout now (noted timeout now st c) cs

noted-noted :
    (timeout now : ℕ) (st : PrivacyState) (c c' : Client)
    → noted timeout now (noted timeout now st c) c' ≡ noted timeout now (noted timeout now st c') c
unfolding noted record_connection_failure
noted-noted timeout now st c c' = ground arith

failed-Shuffled :
    (timeout now : ℕ) {cs ds : Clients}
    → Shuffled cs ds
    → (st : PrivacyState) → failed timeout now st cs ≡ failed timeout now st ds
unfolding failed
failed-Shuffled timeout now (unchanged cs) st = refl
failed-Shuffled timeout now (under (id, c) p) st =
    failed-Shuffled timeout now p (noted timeout now st c)
failed-Shuffled timeout now (exchange (id, c) (id', c') cs) st =
    ap (λ s. failed timeout now s cs) (noted-noted timeout now st c c')
failed-Shuffled timeout now (both p q) st =
    failed-Shuffled timeout now p st ∙ failed-Shuffled timeout now q st

rest-failure :
    (st : PrivacyState) (c : Client)
    → (rest (record_connection_failure st c) ≡ record_connection_failure (rest st) c)
      × ((record_connection_failure st c).liveness_timeout ≡ st.liveness_timeout)
unfolding record_connection_failure
rest-failure st c = ground arith

rest-sweep :
    (now : ℕ) (cs : Clients) (st : PrivacyState)
    → rest (sweep now st cs) ≡ failed st.liveness_timeout now (rest st) cs
unfolding sweep failed noted
rest-sweep now [] st = refl
rest-sweep now ((id, c) ∷ cs) st = elim (Bool-cases (is_expired st.liveness_timeout now c)) [
  | inl e ↦
      let (moved, kept) = rest-failure st c in
      rw e (
        rest-sweep now cs (record_connection_failure st c)
        ∙ (λ i. failed (kept i) now (moved i) cs))
  | inr e ↦ rw e (rest-sweep now cs st)
]

-- The same state but for the order of the clients.
abbrev pub Rearranged : PrivacyState → PrivacyState → Type 0
Rearranged st st' = Shuffled st.clients st'.clients × (rest st ≡ rest st')

pub sweep-Rearranged :
    (now : ℕ) (st : PrivacyState) {cs ds : Clients}
    → Shuffled cs ds
    → Rearranged (sweep now st cs) (sweep now (record st { clients = ds }) ds)
sweep-Rearranged now st {cs = cs} {ds = ds} p = (
  rw (clients-sweep now cs st, clients-sweep now ds (record st { clients = ds }))
      (Shuffled-live st.liveness_timeout now p),
  rest-sweep now cs st
      ∙ failed-Shuffled st.liveness_timeout now p (rest st)
      ∙ sym (rest-sweep now ds (record st { clients = ds })),
)
