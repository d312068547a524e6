-- ===== src/Resilience/Load/Tests.antt =====
-- The bounds on concurrent callers at concrete inputs.
use syntor.Common.{◌≤◌, ◌≡◌, refl, true, false, List, [], ◌∷◌}
use syntor.Resilience.Load.{Backpressure, new_backpressure}
use syntor.Resilience.Load.Bounds.{
  Event, arrives, returns, run, run-new_load, Use, tries, waits, releases,
}

abbrev rush : List Event
rush = arrives 0 ∷ arrives 400 ∷ arrives 700 ∷ returns ∷ arrives 100 ∷ arrives 900 ∷ []

-- Two at most, shedding half of the calls above half load.
rush_load : (run (record { control = new_backpressure 2 500 500; running = 0 }) rush).running ≡ 2
unfolding run new_backpressure
rush_load = refl

run-new_load_example :
    let s = run (record { control = new_backpressure 2 500 500; running = 0 }) rush in
    (s.control.current_load ≡ s.running) × (s.running ≤ 2)
run-new_load_example = run-new_load 2 500 500 rush

abbrev half_full : Backpressure
half_full = record {
  max_concurrent = 4;
  current_load = 2;
  shed_threshold = 500;
  shed_probability = 300;
}

abbrev uses : List Use
uses = tries ∷ waits false false ∷ tries ∷ releases ∷ waits true true ∷ tries ∷ []
