-- ===== src/Package/Tests.antt =====
-- The package under its own command line, on the model of keys.
use ars_solana.Prelude.{
  ℕ, String, ◌≡◌, refl, none, true, [], ◌∷◌, pos, Result, ok, raise, value_error, encode,
  from_bytes, str_eq, if◌then◌else◌, all,
}
use ars_solana.Solders.Model.{solders}
use ars_solana.Pda.{Constants}
use ars_solana.Conformance.{ConformanceReport, report_ok, summary}
use ars_solana.Cli.Python.{TargetModule}
use ars_solana.Cli.Certificate.{certificate_from_report}
use ars_solana.Cli.Main.{certificate_json, run, print_error, print_out, Host, main}
use ars_solana.Package.{exported, has_attribute, telaro_ars}
use ars_solana.Package.Conforms.{telaro_ars-conforms}

abbrev keys : Constants ℕ
keys = record { program_id_devnet = 11; token_program_id = 12; system_program_id = 13 }

abbrev agent : ℕ
agent = from_bytes (encode "4Nd1mYJgC7DsB3v9pkM9CRZxoUTfXn1kbm1zFM5hZRgM")

abbrev import_module : String → Result (TargetModule ℕ)
import_module path =
    if str_eq path "telaro_ars"
    then ok (telaro_ars solders keys)
    else raise (value_error "no such module")

-- A machine that can import nothing but the package, and has no network.
abbrev host : Host ℕ
host = record {
  now = pos 1_700_000_000;
  read_secret = λ path. raise (value_error "no such file");
  sign_message = λ secret text. ok text;
  write_file = λ path text. raise (value_error "read-only");
  dumps = λ sort_keys v. "{}";
  repr = λ t. t;
  repr_list = λ ts. "[]";
  import_module = import_module;
  parse_int = λ t. raise (value_error "invalid literal for int()");
  str_json = λ v. "None";
  post = none;
}

-- Every name of `__all__` is bound.
exported_bound : all has_attribute exported ≡ true
unfolding has_attribute
exported_bound = refl

telaro_ars-conforms_example :
    (r : ConformanceReport) × (r.state_passed ≡ 5)
    × (r.illegal_passed ≡ 3)
    × (r.view_bond_passed ≡ 4)
    × (report_ok r ≡ true)
    × (main solders keys 5 host (run "python:telaro_ars" none none) ≡ record {
      effects =
          print_error (summary r)
          ∷ print_out (
              host.dumps true (
                certificate_json (certificate_from_report r "python:telaro_ars" "python" host.now)))
          ∷ [];
      exit = ok 0;
    })
telaro_ars-conforms_example = telaro_ars-conforms solders keys agent 5 host refl refl
