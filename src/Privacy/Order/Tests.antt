-- ===== src/Privacy/Order/Tests.antt =====
-- The theorem on the order of the clients at three calls.
use obs_vscode_privacy_guard.Base.{[], refl, ◌∷◌, ◌≡◌}
use obs_vscode_privacy_guard.Privacy.{
  PrivacyState, connection_opened, emplace, find, make_state, mode, new_client,
}
use obs_vscode_privacy_guard.Privacy.History.{errors, opens, run, step}
use obs_vscode_privacy_guard.Privacy.Order.{exchange, unchanged}
use obs_vscode_privacy_guard.Privacy.Order.Swept.{Rearranged}
use obs_vscode_privacy_guard.Privacy.Order.Rehash.{Walks, Walks-run, calls, stays}

-- Two connections are open, and the map is walked in either order.
abbrev two_opened : PrivacyState
two_opened = run (make_state 3000) (opens 5 ∷ opens 6 ∷ [])

abbrev walked_back : PrivacyState
walked_back = record two_opened { clients = (1, new_client 5) ∷ (2, new_client 6) ∷ [] }

a_walk : Walks (make_state 3000) (opens 5 ∷ opens 6 ∷ errors 2 ∷ []) (step walked_back (errors 2))
unfolding run step connection_opened emplace find
a_walk =
    calls (opens 5) (unchanged _, refl)
      (calls (opens 6) (exchange (2, new_client 6) (1, new_client 5) [], refl)
        (calls (errors 2) (unchanged _, refl) stays))

Walks-run_example :
    Rearranged
      (run (make_state 3000) (opens 5 ∷ opens 6 ∷ errors 2 ∷ []))
      (step walked_back (errors 2))
    × (mode (run (make_state 3000) (opens 5 ∷ opens 6 ∷ errors 2 ∷ []))
        ≡ mode (step walked_back (errors 2)))
Walks-run_example = Walks-run 3000 (opens 5 ∷ opens 6 ∷ errors 2 ∷ []) _ a_walk
