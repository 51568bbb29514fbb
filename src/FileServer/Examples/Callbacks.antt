-- ===== src/FileServer/Examples/Callbacks.antt =====
-- Sessions that callbacks go to.
use distributed_virtual_file.Prelude.{◌≡◌, refl, false, true, none, some, List, [], ◌∷◌, string_eq}
use distributed_virtual_file.GoMap.{get}
use distributed_virtual_file.FileServer.Examples.{fid_of}
use distributed_virtual_file.FileServer.Callbacks.{max_callback_failures}
use distributed_virtual_file.FileServer.Callbacks.Failures.{
  Event, upserts, touches, answers, run, AreFine, fail_times, run-fail_times,
}

abbrev busy : List Event
busy =
    upserts 1 "bob" "10.0.0.2:9000" (some (fid_of 1))
    ∷ answers "bob" false
    ∷ touches 2 "bob"
    ∷ answers "bob" false
    ∷ answers "bob" true
    ∷ []

run-fail_times_example :
    AreFine (run busy [])
    × (get "bob" (fail_times max_callback_failures "bob" (run busy [])) ≡ none)
run-fail_times_example = run-fail_times busy "bob" refl
