-- ===== src/Cli/Tests.antt =====
-- The transports of conformance_cli.py at a module and an endpoint, and their theorems there.
use ars_solana.Prelude.{
  ℕ, ◌+◌, ◌≡◌, ◌↔◌, ◌⊎◌, refl, String, Bool, none, true, false, some, List, [], ◌∷◌, length, All, ℤ,
  pos, Exception, Result, ok, raise, value_error, ◌>>=◌, to_bytes,
}
use ars_solana.Json.{Json, null}
use ars_solana.Solders.Model.{solders}
use ars_solana.Pda.{Constants}
use ars_solana.State.{Job, state_name, replay}
use ars_solana.Binding.Params.{LockCollateralParams}
use ars_solana.Binding.Builders.{build_view_bond_ix}
use ars_solana.X402.Lookup.{Response}
use ars_solana.Conformance.{ConformanceReport, ViewBondVector, report_ok, harness, run_vectors}
use ars_solana.Conformance.Vectors.{state_vectors, illegal_vectors, loaded_vectors}
use ars_solana.Cli.Python.{TargetModule, params_of, run_target}
use ars_solana.Cli.Target.{StateConforms, Refuses, Encodes, run_target_iff}
use ars_solana.Cli.Http.{run_http, run_http_transport}
use ars_solana.Cli.Replies.{Replays, Rejects, Answers, run_http_iff}
use ars_solana.Cli.Main.{run, Host, main}
use ars_solana.Cli.Fingerprint.{SameCounts, IsCollision, fingerprint_of-injective}
use ars_solana.Cli.Certificate.{
  hashed, passed, certificate_from_report, passed-certificate_from_report,
}

abbrev keys : Constants ℕ
keys = record { program_id_devnet = 11; token_program_id = 12; system_program_id = 13 }

abbrev encoded : LockCollateralParams ℕ → Result (List ℕ)
encoded params = build_view_bond_ix solders keys params 11 >>= λ ix. ok ix.data_bytes

abbrev is_own_error : Exception → Bool
is_own_error (Exception.ars_transition_error m) = true
is_own_error e = false

-- The repository's own functions as the module under test.
abbrev own_module : TargetModule ℕ
own_module = record {
  has_export = λ n. true;
  Job = Job;
  replay = replay;
  state_of = λ job. ok (state_name job.state);
  released_of = λ job. some job.released_atomic;
  is_target_error = is_own_error;
  build_view_bond = encoded;
}

own_encodes :
    All
      (λ (v : ViewBondVector).
        (bytes : List ℕ) × (own_module.build_view_bond (params_of own_module 5 v) ≡ ok bytes))
      loaded_vectors
unfolding build_view_bond_ix to_bytes
own_encodes = ((_, refl), ((_, refl), ((_, refl), ((_, refl), tt))))

run_target_iff_example :
    (r : ConformanceReport) × (run_target own_module 5 ≡ ok r)
    × (r.state_passed + length r.state_failed ≡ 5)
    × (r.illegal_passed + length r.illegal_failed ≡ 3)
    × (r.view_bond_passed + length r.view_bond_failed ≡ 4)
    × ((report_ok r ≡ true) ↔ (
        All (StateConforms own_module 5) state_vectors
        × All (Refuses own_module 5) illegal_vectors
        × All (Encodes own_module 5) loaded_vectors))
run_target_iff_example = run_target_iff own_module 5 own_encodes

abbrev parse_int : String → Result ℤ
parse_int t = raise (value_error "invalid literal for int()")

abbrev str_json : Json → String
str_json v = "None"

-- An endpoint that answers 404 to everything.
abbrev absent : String → Json → Result Response
absent url body = ok (record { status_code = 404; raise_for_status = ok tt; json = ok null })

run_http_iff_example :
    (r : ConformanceReport) × (run_http parse_int str_json absent "http://localhost" ≡ ok r)
    × (r.state_passed + length r.state_failed ≡ 5)
    × (r.illegal_passed + length r.illegal_failed ≡ 3)
    × (r.view_bond_passed + length r.view_bond_failed ≡ 4)
    × ((report_ok r ≡ true) ↔ (
        All (Replays parse_int str_json absent "http://localhost") state_vectors
        × All (Rejects parse_int str_json absent "http://localhost") illegal_vectors
        × All (Answers parse_int str_json absent "http://localhost") loaded_vectors))
run_http_iff_example = run_http_iff parse_int str_json absent "http://localhost"

abbrev half : ConformanceReport
half = record {
  state_passed = 4;
  state_failed = "a" ∷ [];
  illegal_passed = 3;
  illegal_failed = [];
  view_bond_passed = 4;
  view_bond_failed = [];
}

passed-certificate_from_report_example :
    passed (certificate_from_report half "python:m" "python" (pos 1_700_000_000)) ≡ report_ok half
passed-certificate_from_report_example =
    passed-certificate_from_report half "python:m" "python" (pos 1_700_000_000)

-- A host with the repository's own module, and with the endpoint that answers 404.
abbrev host : Host ℕ
host = record {
  now = pos 1_700_000_000;
  read_secret = λ path. raise (value_error "no such file");
  sign_message = λ secret text. ok text;
  write_file = λ path text. ok tt;
  dumps = λ sort_keys v. "{}";
  repr = λ t. t;
  repr_list = λ ts. "[]";
  import_module = λ path. ok own_module;
  parse_int = parse_int;
  str_json = str_json;
  post = some absent;
}

-- The endpoint that answers 404 refuses the illegal logs, and fails the others.
run_absent : (main solders keys 5 host (run "http:localhost" none none)).exit ≡ ok 1
unfolding main run_http_transport run_http harness run_vectors report_ok
run_absent = refl

run_unknown : (main solders keys 5 host (run "ftp:localhost" none none)).exit ≡ ok 2
unfolding main
run_unknown = refl

abbrev module_spec : String
module_spec = "python:m"

abbrev issue_time : ℤ
issue_time = pos 1_700_000_000

fingerprint_of-injective_example :
    ((module_spec ≡ module_spec) × (issue_time ≡ issue_time) × SameCounts half half)
    ⊎ IsCollision (hashed half module_spec issue_time) (hashed half module_spec issue_time)
fingerprint_of-injective_example =
    fingerprint_of-injective half half module_spec module_spec issue_time issue_time refl
