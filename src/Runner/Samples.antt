-- ===== src/Runner/Samples.antt =====
-- Examples for macqueue/runner.py.
use macqueue.Base.{
  ℕ, String, true, false, none, List, [], ◌∷◌, Result, ok, err, runtime, ◌≡◌, ◌==◌, string_eq,
  if◌then◌else◌, refl,
}
use macqueue.Base.Actions.{Ends, return, ◌>>=◌, ◌>>◌, lift, reads, modify, for_each}
use macqueue.Base.Files.{Files, find_file}
use macqueue.Base.Int.{pos}
use macqueue.Base.Lists.{length}
use macqueue.Common.{relative, text_where, object, list_where, keys, integer}
use macqueue.Json.{Json, int, arr, obj, nil, cons, Fields, end, field}
use macqueue.Runner.{Entry, directory, regular, Listed, collect, manifest_name, pack_artifacts}
use macqueue.Runner.Closed.{AllClosed, compare-AllClosed}
use macqueue.Runner.Comparing.{
  Outside, Step, Benchmark, Command, fixed, cores_of, counts_of, compare, compare_workers,
  run_sessions, close_each, verify_frozen, finally, run_round, pair, measure, open_session,
  sample_command, write_line, expand, start_process, close_process,
}
use macqueue.Runner.Counts.{occurrences, counts_of-occurrences}
use macqueue.Runner.Measured.{compare-places}
use macqueue.Runner.Planned.{places, planned, Adds}
use macqueue.Runner.Packed.{Packed, pack_artifacts-Packed}
use macqueue.Schema.{expand_seed_request, seed_request, explicit_request}

abbrev sha256 : List ℕ → String
sha256 _ = "a"

abbrev dumps : List Listed → List ℕ
dumps listed = length listed ∷ []

abbrev compressed : Files (List ℕ) → ℕ
compressed files = length files

abbrev artifacts : Files Entry
artifacts =
    ("job.json", regular (1 ∷ [])) ∷ ("logs", directory) ∷ ("logs/a", regular (2 ∷ 3 ∷ [])) ∷ []

abbrev manifest : List Listed
manifest =
    record { path = "job.json"; bytes = 1; sha256 = "a" }
    ∷ record { path = "logs/a"; bytes = 2; sha256 = "a" }
    ∷ []

abbrev archive : Files (List ℕ)
archive = ("job.json", 1 ∷ []) ∷ ("logs/a", 2 ∷ 3 ∷ []) ∷ (manifest_name, 2 ∷ []) ∷ []

packed : pack_artifacts sha256 dumps compressed 3 artifacts ≡ ok (manifest, archive)
unfolding pack_artifacts collect find_file relative text_where
packed = refl

pack_artifacts-Packed_example : Packed sha256 dumps compressed 3 artifacts manifest archive
pack_artifacts-Packed_example =
    pack_artifacts-Packed sha256 dumps compressed 3 artifacts manifest archive packed

abbrev binaries : Files (Files String)
binaries = ("baseline", ("bench", "a") ∷ []) ∷ ("candidate", ("bench", "b") ∷ []) ∷ []

abbrev digest_of : String → Result String
digest_of variant = if variant == "baseline" then ok "a" else ok "b"

abbrev answer_of : String → Result Fields
answer_of variant = if variant == "baseline" then ok end else err (runtime "process ended")

abbrev outside : Outside
outside = record {
  cores = ("performance", 2) ∷ [];
  frozen = binaries;
  digest = λ variant _. digest_of variant;
  create = ok tt;
  write = λ _. ok tt;
  start = λ _ _ _. ok tt;
  first = λ _ _. ok end;
  check = λ _. ok tt;
  ask = λ place _. answer_of place.variant;
  execute = λ _ _. ok end;
  finish_session = λ _ _. ok tt;
  close = λ _ _. ok tt;
  decimal = λ _. "2";
}

abbrev commands : Files Command
commands =
    (
      "candidate",
      record { program = "${JOB}/artifacts/frozen/candidate/bench"; stdout = "o"; stderr = "e" },
    )
    ∷ (
      "baseline",
      record { program = "${JOB}/artifacts/frozen/baseline/bench"; stdout = "o"; stderr = "e" },
    )
    ∷ []

abbrev runs : Step
runs = record {
  worker_counts = fixed 2 ∷ cores_of "performance" ∷ fixed 3 ∷ [];
  is_jsonl = false;
  ready = none;
  requests = [];
  commands = commands;
  warmups = 1;
  samples = 2;
}

abbrev seeds : Json
seeds = obj (field "seeds" (arr (cons (int (pos 7)) nil)) end)

abbrev conversations : Step
conversations = record runs { is_jsonl = true; requests = seeds ∷ [] }

abbrev started : Benchmark
started = record { lines = []; sessions = []; running = [] }

two_counts :
    counts_of outside [] (fixed 2 ∷ cores_of "performance" ∷ fixed 3 ∷ []) started
    ≡ (ok (2 ∷ 3 ∷ []), started)
unfolding counts_of return ◌>>=◌ lift find_file
two_counts = refl

-- A comparison of processes returns, with each variant in 3 rounds for 2 counts.
all_measured : length (places (compare outside runs started).1.lines) ≡ 12
unfolding compare start_process close_process compare_workers run_sessions close_each counts_of
    verify_frozen finally run_round pair measure open_session sample_command write_line expand
    return ◌>>=◌ ◌>>◌ lift reads modify for_each find_file
all_measured = refl

-- One of sessions raises where the candidate ends.
candidate_ended : (compare outside conversations started).0 ≡ err (runtime "process ended")
unfolding compare start_process close_process compare_workers run_sessions close_each counts_of
    verify_frozen finally run_round pair measure open_session sample_command write_line expand
    return ◌>>=◌ ◌>>◌ lift reads modify for_each find_file expand_seed_request seed_request
    explicit_request object list_where keys integer
candidate_ended = refl

compare-AllClosed_example : AllClosed (compare outside conversations started).1
compare-AllClosed_example = compare-AllClosed outside (λ _ _. refl) conversations started refl

compare-places_example : Adds (planned runs (2 ∷ 3 ∷ [])) started (compare outside runs started)
compare-places_example = compare-places outside runs (2 ∷ 3 ∷ []) started two_counts

counts_of-occurrences_example :
    Ends
      (λ _. Unit)
      (λ counts _. occurrences 2 counts ≡ 1)
      (counts_of outside [] (fixed 2 ∷ cores_of "performance" ∷ fixed 3 ∷ []) started)
unfolding find_file
counts_of-occurrences_example =
    counts_of-occurrences outside 2 (fixed 2 ∷ cores_of "performance" ∷ fixed 3 ∷ []) started
