-- ===== src/Autoscaler/Control/Life.antt =====
-- pkg/autoscaler/manager.go: Start and Stop.
use waverless.Base.{◌≡◌, refl, Bool, true, false, ◌||◌}
use waverless.Autoscaler.Control.{Manager, start, stop}

-- A manager cannot be started again: after Stop a second Start answers that the manager runs, but
-- the channel that tells the control loop to leave is still closed, and the Stop after it closes the
-- channel again, which panics.
pub stop-start-stop :
    (m : Manager) (watches : Bool)
    → m.running ≡ true
    → let again = start (stop m).0 watches in
      (again.1 ≡ true)
      × (again.0.running ≡ true)
      × (again.0.stop_closed ≡ true)
      × ((stop again.0).0.panicked ≡ true)
unfolding start stop
stop-start-stop m watches runs = rw runs (refl, refl, refl, or_true m.panicked m.stop_closed)
  where
    or_true : (a b : Bool) → (a || b) || true ≡ true
    or_true true b = refl
    or_true false true = refl
    or_true false false = refl
