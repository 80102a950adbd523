-- ===== src/Client/Locking.antt =====
-- The mutex of client/client.go over the ways in which a call can end.
use quash.Client.{Ran, World, came_back, panicked_at, shut_out, waits}
use quash.Prelude.{false, true, ◌≡◌}

-- What is known of the mutex after a call from `s`: it is free where the call came back, and held
-- where the call panicked or waits; only a call that found it held is shut out, and changes nothing.
abbrev pub Settles : {W A : Type 0} → World W → Ran W A → Type 0
Settles s (came_back r s') = (s.locked ≡ false) × (s'.locked ≡ false)
Settles s (panicked_at s') = (s.locked ≡ false) × (s'.locked ≡ true)
Settles s (waits r s') = (s.locked ≡ false) × (s'.locked ≡ true)
Settles s (shut_out s') = (s.locked ≡ true) × (s' ≡ s)
