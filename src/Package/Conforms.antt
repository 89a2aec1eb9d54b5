-- ===== src/Package/Conforms.antt =====
-- The package (__init__.py) under its own command line (conformance_cli.py): the state machine, the
-- encoder, the harness, the transport and `main`, composed.
use ars_solana.Prelude.{
  length, arith, ◌≡◌, refl, ap, ◌∙◌, ℕ, String, none, List, [], ◌∷◌, ◌++◌, pos, ok, true, All,
  All-map, ◌+ℤ◌, take, encode, little_endian, to_bytes,
}
use ars_solana.Hashlib.{sha256}
use ars_solana.Solders.{Solders}
use ars_solana.Pda.{Constants}
use ars_solana.State.{apply_event, replay}
use ars_solana.Binding.Builders.{in_range, build_view_bond_ix}
use ars_solana.Conformance.{ViewBondVector, ConformanceReport, report_ok, summary}
use ars_solana.Conformance.Vectors.{state_vectors, illegal_vectors, loaded_vectors, expected_vector}
use ars_solana.Conformance.Report.{report_ok_iff}
use ars_solana.Cli.Python.{params_of, run_target, run_python_transport}
use ars_solana.Cli.Target.{StateConforms, Refuses, Encodes, run_target_iff}
use ars_solana.Cli.Certificate.{certificate_from_report}
use ars_solana.Cli.Main.{
  certificate_json, run, print_error, print_out, Host, report_against, main, run-exit_code,
  exit_code,
}
use ars_solana.Package.{has_attribute, telaro_ars}

module _ (s : Solders) (c : Constants s.Pubkey) (agent : s.Pubkey) where
  expected_vector-Encodes :
      (name : String) (bond score : ℕ)
      → in_range (pos score) 0xffff ≡ true
      → in_range (pos bond) 0xffff_ffff_ffff_ffff ≡ true
      → to_bytes 8 (pos bond) ≡ ok (little_endian 8 bond)
      → to_bytes 2 (pos score) ≡ ok (little_endian 2 score)
      → Encodes (telaro_ars s c) agent (expected_vector name bond score)
  unfolding build_view_bond_ix sha256
  expected_vector-Encodes name bond score p q e e' = (
    take 8 (sha256 (encode "global:view_bond")) ++ (little_endian 8 bond ++ little_endian 2 score),
    rw (p, q, e, e') refl,
    refl,
  )

  loaded_vectors-Encodes : All (Encodes (telaro_ars s c) agent) loaded_vectors
  unfolding to_bytes
  loaded_vectors-Encodes = (
    expected_vector-Encodes "zeros" 0 0 refl refl refl refl,
    (
      expected_vector-Encodes "1 USDC, score 700" 1_000_000 700 refl refl refl refl,
      (
        expected_vector-Encodes "1000 USDC, score 800" 1_000_000_000 800 refl refl refl refl,
        (
          expected_vector-Encodes "u64-max bond, u16-max score" 0xffff_ffff_ffff_ffff 0xffff refl
              refl refl refl,
          tt,
        ),
      ),
    ),
  )

  state_vectors-StateConforms : All (StateConforms (telaro_ars s c) agent) state_vectors
  unfolding replay apply_event ◌+ℤ◌
  state_vectors-StateConforms = (
    (_, refl, refl, refl),
    (
      (_, refl, refl, refl),
      ((_, refl, refl, refl), ((_, refl, refl, refl), ((_, refl, refl, refl), tt))),
    ),
  )

  illegal_vectors-Refuses : All (Refuses (telaro_ars s c) agent) illegal_vectors
  unfolding replay apply_event ◌+ℤ◌
  illegal_vectors-Refuses = ((_, refl, refl), ((_, refl, refl), ((_, refl, refl), tt)))

  bytes_of :
      (v : ViewBondVector)
      → Encodes (telaro_ars s c) agent v
      → (bytes : List ℕ) × ((telaro_ars s c).build_view_bond (params_of (telaro_ars s c) agent v)
          ≡ ok bytes)
  bytes_of v (bytes, e, same) = (bytes, e)

  -- The transport's report on the package.
  own_report :
      (r : ConformanceReport) × (run_target (telaro_ars s c) agent ≡ ok r)
      × (r.state_passed ≡ 5)
      × (r.illegal_passed ≡ 3)
      × (r.view_bond_passed ≡ 4)
      × (report_ok r ≡ true)
  own_report =
      let (r, h, a, b, n, clean) =
        run_target_iff (telaro_ars s c) agent
          (All-map loaded_vectors bytes_of loaded_vectors-Encodes) in
      let passes =
        clean.1 (state_vectors-StateConforms, illegal_vectors-Refuses, loaded_vectors-Encodes) in
      let (x, y, z) = (report_ok_iff r).0 passes in
      (
        r,
        h,
        omega (arith, a, ap length x),
        omega (arith, b, ap length y),
        omega (arith, n, ap length z),
        passes,
      )

  -- Whatever the machine and the implementation of keys, if the package is what is imported under
  -- its name and the harness's key parses, then the command `run --against python:telaro_ars` prints
  -- the summary of a report that passes 5 logs, 3 illegal logs and 4 encodings without a failure, and
  -- the unsigned certificate of that report for the subject python:telaro_ars, and exits with 0.
  pub telaro_ars-conforms :
      (given_agent : s.Pubkey) (host : Host s.Pubkey)
      → host.import_module "telaro_ars" ≡ ok (telaro_ars s c)
      → s.from_string "4Nd1mYJgC7DsB3v9pkM9CRZxoUTfXn1kbm1zFM5hZRgM" ≡ ok agent
      → (r : ConformanceReport) × (r.state_passed ≡ 5)
        × (r.illegal_passed ≡ 3)
        × (r.view_bond_passed ≡ 4)
        × (report_ok r ≡ true)
        × (main s c given_agent host (run "python:telaro_ars" none none) ≡ record {
          effects =
              print_error (summary r)
              ∷ print_out (
                  host.dumps true (
                    certificate_json
                      (certificate_from_report r "python:telaro_ars" "python" host.now)))
              ∷ [];
          exit = ok 0;
        })
  unfolding report_against run_python_transport has_attribute
  telaro_ars-conforms given_agent host imports parses =
      let (r, h, states, illegals, bonds, passes) = own_report in
      let p =
        (run-exit_code s c given_agent host "python:telaro_ars").1 r "python:telaro_ars" "python"
          (rw (imports, parses, h) refl) in
      let done : exit_code r ≡ 0 = rw passes refl in
      (
        r,
        states,
        illegals,
        bonds,
        passes,
        p
            ∙ ap
                (λ (code : ℕ). record {
                  effects =
                      print_error (summary r)
                      ∷ print_out (
                          host.dumps true (
                            certificate_json
                              (certificate_from_report r "python:telaro_ars" "python" host.now)))
                      ∷ [];
                  exit = ok code;
                })
                done,
      )
