-- ===== src/Resilience/Detector/Tests.antt =====
-- Histories of the failure detector, and its theorem at a concrete one.
use syntor.Common.{◌≡◌, refl, true, List, [], ◌∷◌, contains}
use syntor.Common.Dict.{insert, delete}
use syntor.Resilience.Detector.{new_failure_detector, check_failures}
use syntor.Resilience.Detector.Failures.{Event, beats, leaves, run, check_failures_lem}

abbrev history : List Event
history = beats "a" 1 ∷ beats "b" 5 ∷ beats "a" 20 ∷ beats "c" 2 ∷ leaves "c" ∷ []

b_failed : check_failures 36 (run (new_failure_detector 10 30 true) history) ≡ ("b" ∷ [], "b" ∷ [])
unfolding check_failures run new_failure_detector insert delete
b_failed = refl

check_failures_lem_example :
    contains "b" (check_failures 36 (run (new_failure_detector 10 30 true) history)).0 ≡ true
unfolding new_failure_detector
check_failures_lem_example = (check_failures_lem "b" 10 30 36 true history).1
