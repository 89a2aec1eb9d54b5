-- ===== src/Cli/Main.antt =====
-- `main` of conformance_cli.py over its parsed arguments: what it prints and writes, in order, and
-- its exit code.
use text.Mathlib.Text.{starts_with}
use ars_solana.Prelude.{
  ◌≡◌, ◌⊎◌, inl, inr, refl, sym, ap, ◌∙◌, ℕ, zero, suc, String, Bool, true, false, ◌||◌, Option,
  none, some, List, [], ◌∷◌, ◌++◌, ℤ, pos, str_eq, ◌<+>◌, if◌then◌else◌, Result, ok, raise,
  ok-injective, Result-cases, Option-cases, ◌>>=◌,
}
use ars_solana.Json.{Json, int, string, end, field, object}
use ars_solana.Solders.{Solders}
use ars_solana.Pda.{Constants}
use ars_solana.X402.Lookup.{Response}
use ars_solana.Conformance.{ConformanceReport, report_ok, summary}
use ars_solana.Conformance.Dump.{optional, as_json}
use ars_solana.Conformance.Vectors.{loaded_vectors}
use ars_solana.Conformance.SelfTest.{run_self_test}
use ars_solana.Cli.Python.{TargetModule, run_python_transport}
use ars_solana.Cli.Http.{run_http_transport}
use ars_solana.Cli.Certificate.{ConformanceCertificate, certificate_from_report, sign_certificate}

-- The namespace that `argparse` returns.
pub data Command : Type 0 where
  self_test : (cert : Bool) → (sign_with out : Option String) → Command
  run : (against : String) → (sign_with out : Option String) → Command
  dump_vectors : (out : Option String) → Command

pub data Effect : Type 0 where
  print_error print_out : String → Effect
  write_to : (path text : String) → Effect

-- What was printed and written, and the exit code or the exception that left `main`.
pub record Outcome : Type 0 where
  pub effects : List Effect
  pub exit : Result ℕ

-- What `main` uses of Python and of the machine.
pub record Host (P : Type 0) : Type 1 where
  pub now : ℤ
  pub read_secret : String → Result (List ℕ)
  pub sign_message : List ℕ → List ℕ → Result (List ℕ)
  pub write_file : String → String → Result (Unit {0})
  pub dumps : (sort_keys : Bool) → Json → String
  pub repr : String → String
  pub repr_list : List String → String
  pub import_module : String → Result (TargetModule P)
  pub parse_int : String → Result ℤ
  pub str_json : Json → String
  pub post : Option (String → Json → Result Response)

-- The text after its first `n` characters.
abbrev drop_text : ℕ → String → String
drop_text zero t = t
drop_text (suc n) String.[] = ""
drop_text (suc n) (String.◌∷◌ c t) = drop_text n t

-- An option that is absent or empty is not given.
abbrev given : Option String → Option String
given none = none
given (some text) = if str_eq text "" then none else some text

abbrev pub exit_code : ConformanceReport → ℕ
exit_code r = if report_ok r then 0 else 1

-- `asdict(cert)`
abbrev pub certificate_json : ConformanceCertificate → Json
certificate_json c = object (
    field "profile" (string c.profile) (
      field "profile_version" (string c.profile_version) (
        field "issuer" (string c.issuer) (
          field "subject" (string c.subject) (
            field "issued_at" (int c.issued_at) (
              field "transport" (string c.transport) (
                field "state_passed" (int (pos c.state_passed)) (
                  field "state_total" (int (pos c.state_total)) (
                    field "illegal_passed" (int (pos c.illegal_passed)) (
                      field "illegal_total" (int (pos c.illegal_total)) (
                        field "view_bond_passed" (int (pos c.view_bond_passed)) (
                          field "view_bond_total" (int (pos c.view_bond_total)) (
                            field "fingerprint" (string c.fingerprint)
                              (field "signature" (optional c.signature) end))))))))))))))

module _ (s : Solders) (c : Constants s.Pubkey) (agent : s.Pubkey) (host : Host s.Pubkey) where
  open host use {
    now, read_secret, sign_message, write_file, dumps, repr, repr_list, import_module, parse_int,
    str_json, post,
  }

  -- `if args.out: ... else: print(body)`, after some printing.
  abbrev deliver : List Effect → Option String → String → ℕ → Outcome
  deliver before none body code = record { effects = before ++ print_out body ∷ []; exit = ok code }
  deliver before (some path) body code = elim (write_file path body) [
    | raise e ↦ record { effects = before; exit = raise e }
    | ok done ↦ record {
      effects = before ++ write_to path body ∷ print_error ("wrote " <+> path) ∷ [];
      exit = ok code;
    }
  ]

  abbrev signed : ConformanceCertificate → Option String → Result ConformanceCertificate
  signed cert none = ok cert
  signed cert (some path) = sign_certificate read_secret sign_message cert path >>= λ signature.
      ok (record cert { signature = some signature })

  -- From the summary on: the certificate, its signature, its delivery.
  unfoldable pub certify :
      ConformanceReport → (subject transport : String) → (sign_with out : Option String) → Outcome
  unfolding summary certificate_from_report sign_certificate
  certify r subject transport sign_with out =
      elim (signed (certificate_from_report r subject transport now) (given sign_with)) [
        | raise e ↦ record { effects = print_error (summary r) ∷ []; exit = raise e }
        | ok cert ↦
            deliver (print_error (summary r) ∷ []) (given out) (dumps true (certificate_json cert))
              (exit_code r)
      ]

  -- The report on what `--against` names, its subject and its transport; nothing for another spec.
  unfoldable pub report_against : String → Option (Result ConformanceReport × String × String)
  unfolding run_python_transport run_http_transport
  report_against spec =
      if starts_with spec "python:"
      then (let module_path = drop_text 7 spec in
          some (
            run_python_transport s repr repr_list import_module module_path,
            "python:" <+> module_path,
            "python",
          ))
      else if starts_with spec "http:" || starts_with spec "https:"
      then (let endpoint = if starts_with spec "http:" then drop_text 5 spec else spec in
          some (
            run_http_transport parse_int str_json post
                (if starts_with endpoint "http" then endpoint else "http:" <+> endpoint),
            spec,
            "http",
          ))
      else none

  unfoldable pub main : Command → Outcome
  unfolding run_self_test summary certify report_against as_json
  main (self_test cert sign_with out) = elim (run_self_test s c agent) [
    | raise e ↦ record { effects = []; exit = raise e }
    | ok r ↦ plain r cert sign_with (given out)
  ]
    where
      plain : ConformanceReport → Bool → Option String → Option String → Outcome
      plain r false sign_with none = record {
        effects = print_error (summary r) ∷ [];
        exit = ok (exit_code r);
      }
      plain r cert sign_with out =
          certify r "telaro-ars reference (python)" "self-test" sign_with out
  main (run against sign_with out) = elim (report_against against) [
    | none ↦ record {
      effects = print_error "error: --against must be 'python:<module>' or 'http:<endpoint>'" ∷ [];
      exit = ok 2;
    }
    | some (raise e, subject, transport) ↦ record { effects = []; exit = raise e }
    | some (ok r, subject, transport) ↦ certify r subject transport sign_with out
  ]
  main (dump_vectors out) = deliver [] (given out) (dumps false (as_json loaded_vectors)) 0

  deliver_code :
      (before : List Effect) (out : Option String) (body : String) (code : ℕ) {n : ℕ}
      → (deliver before out body code).exit ≡ ok n
      → n ≡ code
  deliver_code before none body code h = sym (ok-injective h)
  deliver_code before (some path) body code h = elim (Result-cases (write_file path body)) [
    | inl (done, e) ↦ let h' = rw (deliver, e) at h in sym (ok-injective h')
    | inr (x, e) ↦ let h' = rw (deliver, e) at h in cc
  ]

  certify_code :
      (r : ConformanceReport) (subject transport : String) (sign_with out : Option String) {n : ℕ}
      → (certify r subject transport sign_with out).exit ≡ ok n
      → n ≡ exit_code r
  unfolding certify
  certify_code r subject transport sign_with out h =
      elim (Result-cases
        (signed (certificate_from_report r subject transport now) (given sign_with))) [
          | inl (cert, e) ↦
              deliver_code (print_error (summary r) ∷ []) (given out)
                (dumps true (certificate_json cert)) (exit_code r) (rw (certify, e) at h)
          | inr (x, e) ↦ let h' = rw (certify, e) at h in cc
        ]

  -- The spec names a module or an endpoint, and its transport gave this report.
  abbrev pub Reports : String → ConformanceReport → Type 0
  Reports against r =
      (subject : String) × (transport : String) × (report_against against
        ≡ some (ok r, subject, transport))

  pub run-exit_code :
      (against : String)
      → ((sign_with out : Option String) (n : ℕ)
          → (main (run against sign_with out)).exit ≡ ok n
          → ((n ≡ 2) × (report_against against ≡ none))
            ⊎ ((r : ConformanceReport) × Reports against r × (n ≡ exit_code r)))
        × ((r : ConformanceReport)
            → (subject transport : String)
            → report_against against ≡ some (ok r, subject, transport)
            → main (run against none none) ≡ record {
              effects =
                  print_error (summary r)
                  ∷ print_out (
                      dumps true
                        (certificate_json (certificate_from_report r subject transport now)))
                  ∷ [];
              exit = ok (exit_code r);
            })
  unfolding main certify
  run-exit_code against = (codes, prints)
    where
      codes :
          (sign_with out : Option String) (n : ℕ)
          → (main (run against sign_with out)).exit ≡ ok n
          → ((n ≡ 2) × (report_against against ≡ none))
            ⊎ ((r : ConformanceReport) × Reports against r × (n ≡ exit_code r))
      codes sign_with out n h = elim (Option-cases (report_against against)) [
        | inl e ↦ let h' = rw (main, e) at h in inl (sym (ok-injective h'), e)
        | inr ((result, subject, transport), e) ↦ elim (Result-cases result) [
          | inl (r, f) ↦
              let h' = rw (main, e, f) at h in
              inr (
                r,
                (
                  subject,
                  transport,
                  e ∙ ap (λ (x : Result ConformanceReport). some (x, subject, transport)) f,
                ),
                certify_code r subject transport sign_with out h',
              )
          | inr (x, f) ↦ let h' = rw (main, e, f) at h in cc
        ]
      ]

      prints :
          (r : ConformanceReport)
          → (subject transport : String) → report_against against ≡ some (ok r, subject, transport)
          → main (run against none none) ≡ record {
            effects =
                print_error (summary r)
                ∷ print_out (
                    dumps true (certificate_json (certificate_from_report r subject transport now)))
                ∷ [];
            exit = ok (exit_code r);
          }
      prints r subject transport e = rw (main, e, certify) refl
