-- ===== src/Cli/Certificate.antt =====
-- The certificate of conformance_cli.py. The time and the signature of the key pair are parameters.
use ars_solana.Prelude.{
  ◌≡◌, refl, ℕ, ◌+◌, String, Bool, true, false, not, ◌||◌, ◌&&◌, ◌==◌, ==_iff, Option, none, List,
  [], ◌∷◌, ◌++◌, length, ℤ, str_ℕ, str_int, ◌<+>◌, encode, hex_text, Result, ok, ◌>>=◌, arith,
}
use ars_solana.Hashlib.{sha256}
use ars_solana.Conformance.{ConformanceReport, is_filled, report_ok}

pub record ConformanceCertificate : Type 0 where
  pub profile : String
  pub profile_version : String
  pub issuer : String
  pub subject : String
  pub issued_at : ℤ
  pub transport : String
  pub state_passed : ℕ
  pub state_total : ℕ
  pub illegal_passed : ℕ
  pub illegal_total : ℕ
  pub view_bond_passed : ℕ
  pub view_bond_total : ℕ
  pub fingerprint : String
  pub signature : Option String

-- The property `passed`.
abbrev pub passed : ConformanceCertificate → Bool
passed c =
    c.state_passed == c.state_total
    && c.illegal_passed == c.illegal_total
    && c.view_bond_passed == c.view_bond_total

abbrev pub counts : String → ℕ → List String → String
counts letter passed failed = letter <+> str_ℕ passed <+> "/" <+> str_ℕ (passed + length failed)

-- The bytes given to the hash, one `update` after another.
unfoldable pub hashed : ConformanceReport → String → ℤ → List ℕ
unfolding encode str_ℕ str_int
hashed r subject issued_at =
    encode subject
    ++ encode "|"
    ++ encode (str_int issued_at)
    ++ encode "|"
    ++ encode (counts "s" r.state_passed r.state_failed)
    ++ encode "|"
    ++ encode (counts "i" r.illegal_passed r.illegal_failed)
    ++ encode "|"
    ++ encode (counts "v" r.view_bond_passed r.view_bond_failed)

-- `_fingerprint`
unfoldable pub fingerprint_of : ConformanceReport → String → ℤ → String
unfolding hashed sha256 hex_text
fingerprint_of r subject issued_at = hex_text (sha256 (hashed r subject issued_at))

-- `_certificate_from_report`, at a time.
unfoldable pub certificate_from_report :
    ConformanceReport → String → String → ℤ → ConformanceCertificate
unfolding fingerprint_of
certificate_from_report r subject transport issued_at = record {
  profile = "ARS-Solana";
  profile_version = "v0.1";
  issuer = "telaro-ars conformance harness";
  subject = subject;
  issued_at = issued_at;
  transport = transport;
  state_passed = r.state_passed;
  state_total = r.state_passed + length r.state_failed;
  illegal_passed = r.illegal_passed;
  illegal_total = r.illegal_passed + length r.illegal_failed;
  view_bond_passed = r.view_bond_passed;
  view_bond_total = r.view_bond_passed + length r.view_bond_failed;
  fingerprint = fingerprint_of r subject issued_at;
  signature = none;
}

-- `_sign_certificate`: the secret is read from the file, and the key pair made of it signs.
unfoldable pub sign_certificate :
    (read_secret : String → Result (List ℕ))
    → (sign_message : List ℕ → List ℕ → Result (List ℕ)) → ConformanceCertificate
    → String
    → Result String
unfolding encode hex_text
sign_certificate read_secret sign_message cert keypair_path = do
  secret ← read_secret keypair_path
  sig ← sign_message secret (encode cert.fingerprint)
  ok (hex_text sig)

complete : (n : ℕ) (fs : List String) → (n == n + length fs) ≡ not (is_filled fs)
complete n [] = (==_iff n (n + 0)).1 (omega arith)
complete n (f ∷ fs) = ground arith

none_filled : (a b c : Bool) → (not a && not b && not c) ≡ not (a || b || c)
none_filled true b c = refl
none_filled false true c = refl
none_filled false false c = refl

-- The certificate of a report, whatever its subject, transport and time, passes exactly if the
-- report is ok.
pub passed-certificate_from_report :
    (r : ConformanceReport) (subject transport : String) (issued_at : ℤ)
    → passed (certificate_from_report r subject transport issued_at) ≡ report_ok r
unfolding certificate_from_report report_ok
passed-certificate_from_report r subject transport issued_at =
    rw
      (
        complete r.state_passed r.state_failed,
        complete r.illegal_passed r.illegal_failed,
        complete r.view_bond_passed r.view_bond_failed,
      )
      (none_filled (is_filled r.state_failed) (is_filled r.illegal_failed)
        (is_filled r.view_bond_failed))
