-- ===== src/Tests/Runner.antt =====
-- The manual trigger, the choice by height, and the test of hosts, on concrete inputs.
use lumescope.Prelude.{◌≡◌, refl, ◌≤◌, ◌↔◌, Bool, true, false, List, [], ◌∷◌, ◌||◌, length, ℕ}
use lumescope.Prelude.Text.{codes}
use lumescope.Background.Trigger.{
  Runner, idle, trigger_sync_and_probe, request, advance, syncing, probing, sync_returns, Reach,
  here, next,
}
use lumescope.Background.Trigger.Safety.{
  one_run_at_a_time, flag_is_cleared, Held, held_here, held_next,
}
use lumescope.Background.Hosts.{is_valid_host}
use lumescope.Background.Hosts.Laws.{describes_host, is_valid_host_lem}
use lumescope.Background.Heights.{SupernodeState, latest_state}

-- the state after one request
abbrev busy : Runner
busy = (trigger_sync_and_probe idle).0

busy-Reach : Reach idle busy
busy-Reach = next here (request idle)

one_run_at_a_time_example :
    (length busy.jobs ≤ 1) × (((trigger_sync_and_probe busy).1 ≡ true) ↔ (busy.jobs ≡ []))
one_run_at_a_time_example = one_run_at_a_time busy busy-Reach

-- a second request comes while the goroutine goes on to the probes
abbrev busy_probing : Runner
busy_probing = record busy { jobs = probing ∷ [] }

busy-Held : Held busy 1 busy_probing
unfolding trigger_sync_and_probe
busy-Held =
    held_next (held_next (held_here refl) (request busy) refl)
      (advance busy [] [] syncing probing refl sync_returns) refl

flag_is_cleared_example : (1 ≤ 2) × Reach busy_probing idle
flag_is_cleared_example = flag_is_cleared busy busy_probing 1 busy-Reach busy-Held

abbrev no_ip : List ℕ → Bool
no_ip host = false

is_valid_host_lem_example :
    is_valid_host no_ip (codes "node-1.example.com")
    ≡ (no_ip (codes "node-1.example.com") || describes_host (codes "node-1.example.com"))
is_valid_host_lem_example = is_valid_host_lem no_ip (codes "node-1.example.com")

-- a label of 64 letters, and labels that end in a hyphen, are accepted
host_tests :
    (is_valid_host no_ip
        (codes "aaaaaaaaaaaaaaaaaaaaaaaaaaaaaaaaaaaaaaaaaaaaaaaaaaaaaaaaaaaaaaaa.com")
      ≡ true)
    × (is_valid_host no_ip (codes "a-.-b.com") ≡ true)
    × (is_valid_host no_ip (codes "a..b") ≡ false)
    × (is_valid_host no_ip (codes "localhost") ≡ false)
unfolding is_valid_host
host_tests = (refl, refl, refl, refl)

abbrev states : List SupernodeState
states =
    record { state = "SUPERNODE_STATE_ACTIVE"; height = "8" }
    ∷ record { state = "SUPERNODE_STATE_STOPPED"; height = "9" }
    ∷ record { state = "SUPERNODE_STATE_DISABLED"; height = "9" }
    ∷ []

height_test : latest_state states ≡ ("SUPERNODE_STATE_STOPPED", "9")
unfolding latest_state lumescope.Background.Heights.highest lumescope.Strconv.parse_int
height_test = refl
