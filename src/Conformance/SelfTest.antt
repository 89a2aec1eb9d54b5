-- ===== src/Conformance/SelfTest.antt =====
-- `run_self_test` of conformance.py.
use ars_solana.Prelude.{
  ◌≡◌, refl, ap, ◌∙◌, ℕ, String, Bool, true, ◌&&◌, Option, none, some, List, [], ◌∷◌, pos, ◌==ℤ◌,
  str_eq, str_int, ◌+ℤ◌, ◌<+>◌, if◌then◌else◌, Exception, class_name, message, Result, ok, raise,
  ◌>>=◌, map, hex_text, take, encode, little_endian, to_bytes, ◌++◌,
}
use text.Mathlib.TextPositions.{eq_refl}
use ars_solana.Hashlib.{sha256}
use ars_solana.Solders.{Solders}
use ars_solana.Pda.{Constants}
use ars_solana.State.{state_name, apply_event, replay}
use ars_solana.Binding.Builders.{in_range, build_view_bond_ix}
use ars_solana.Conformance.{
  StateVector, IllegalVector, ViewBondVector, ConformanceReport, report_ok, summary, harness,
}
use ars_solana.Conformance.Vectors.{
  state_vectors, illegal_vectors, view_bond_vectors, loaded_vectors, vectors_load, expected_vector,
}
use ars_solana.Conformance.Loops.{verdicts, report_of, harness_lem}

-- The body of the first loop: the text of the failure, if there is one.
unfoldable pub state_failure : StateVector → Option String
unfolding replay str_int
state_failure v = elim (replay v.log) [
  | raise e ↦ some (v.name <+> ": raised " <+> class_name e <+> ": " <+> message e)
  | ok job ↦
      if str_eq (state_name job.state) v.expected_state
        && (job.released_atomic ==ℤ v.expected_released_atomic)
      then none
      else some (
          v.name
          <+> ": got state="
          <+> state_name job.state
          <+> " released="
          <+> str_int job.released_atomic)
]

-- The `except` clauses of the second loop.
abbrev pub wrong_type : String → Exception → Option String
wrong_type name (Exception.ars_transition_error m) = none
wrong_type name e = some (name <+> ": raised wrong type " <+> class_name e)

unfoldable pub illegal_failure : IllegalVector → Option String
unfolding replay
illegal_failure v = elim (replay v.log) [
  | ok job ↦ some (v.name <+> ": should have raised")
  | raise e ↦ wrong_type v.name e
]

-- The comparison of the third loop.
abbrev pub compare_hex : ViewBondVector → String → Option String
compare_hex v got =
    if str_eq got v.expected_data_hex
    then none
    else some (v.name <+> ": expected " <+> v.expected_data_hex <+> ", got " <+> got)

module _ (s : Solders) (c : Constants s.Pubkey) (agent : s.Pubkey) where
  unfoldable pub view_bond_failure : ViewBondVector → Result (Option String)
  unfolding build_view_bond_ix hex_text
  view_bond_failure v = do
    ix ←
        build_view_bond_ix s c
          (record {
            job_id = "conformance";
            agent = agent;
            min_bond_atomic = v.min_bond_atomic;
            min_score = v.min_score;
          })
          c.program_id_devnet
    ok (compare_hex v (hex_text ix.data_bytes))

  unfoldable pub run_self_test : Result ConformanceReport
  unfolding view_bond_vectors harness state_failure illegal_failure view_bond_failure
  run_self_test = do
    vectors ← view_bond_vectors
    harness state_vectors illegal_vectors vectors state_failure illegal_failure view_bond_failure

  abbrev printed : ConformanceReport → Bool → List String
  printed r passes = summary r ∷ "" ∷ ("Result: " <+> (if passes then "PASS" else "FAIL")) ∷ []

  -- The lines that the file prints when it is run as a script.
  unfoldable pub script : Result (List String)
  unfolding run_self_test summary report_ok
  script = do r ← run_self_test; ok (printed r (report_ok r))

  bond_passes :
      (name : String) (bond score : ℕ)
      → in_range (pos score) 0xffff ≡ true
      → in_range (pos bond) 0xffff_ffff_ffff_ffff ≡ true
      → to_bytes 8 (pos bond) ≡ ok (little_endian 8 bond)
      → to_bytes 2 (pos score) ≡ ok (little_endian 2 score)
      → view_bond_failure (expected_vector name bond score) ≡ ok none
  unfolding view_bond_failure build_view_bond_ix sha256
  bond_passes name bond score p q e e' =
      rw
        (
          p,
          q,
          e,
          e',
          eq_refl (
              hex_text (
                take 8 (sha256 (encode "global:view_bond"))
                ++ little_endian 8 bond
                ++ little_endian 2 score)),
        )
        refl

  bonds_pass : verdicts view_bond_failure loaded_vectors ≡ ok (none ∷ none ∷ none ∷ none ∷ [])
  unfolding to_bytes
  bonds_pass =
      rw
        (
          bond_passes "zeros" 0 0 refl refl refl refl,
          bond_passes "1 USDC, score 700" 1_000_000 700 refl refl refl refl,
          bond_passes "1000 USDC, score 800" 1_000_000_000 800 refl refl refl refl,
          bond_passes "u64-max bond, u16-max score" 0xffff_ffff_ffff_ffff 0xffff refl refl refl
              refl,
        )
        refl

  own_report :
      (r : ConformanceReport) × (run_self_test ≡ ok r)
      × (r.state_passed ≡ 5)
      × (r.illegal_passed ≡ 3)
      × (r.view_bond_passed ≡ 4)
      × (report_ok r ≡ true)
  unfolding run_self_test report_ok state_failure illegal_failure replay apply_event ◌+ℤ◌
  own_report = (
    report_of (map state_failure state_vectors) (map illegal_failure illegal_vectors)
        (none ∷ none ∷ none ∷ none ∷ []),
    ap
          (λ r. r >>= λ vectors.
            harness state_vectors illegal_vectors vectors state_failure illegal_failure
              view_bond_failure)
          vectors_load
        ∙ harness_lem state_vectors illegal_vectors loaded_vectors state_failure illegal_failure
            view_bond_failure
        ∙ ap
            (λ r. r >>= λ os. ok (
              report_of (map state_failure state_vectors) (map illegal_failure illegal_vectors) os))
            bonds_pass,
    refl,
    refl,
    refl,
    refl,
  )

  -- The reference implementation passes its own self-test: for every key of the agent, every program
  -- id and every `solders`, the report counts 5 state vectors, 3 illegal logs and 4 encodings, has no
  -- failure, and is ok; and the file, run as a script, prints the report's summary and PASS.
  run_self_test-passes :
      (r : ConformanceReport) × (run_self_test ≡ ok r)
      × (r.state_passed ≡ 5)
      × (r.illegal_passed ≡ 3)
      × (r.view_bond_passed ≡ 4)
      × (report_ok r ≡ true)
      × (script ≡ ok (summary r ∷ "" ∷ "Result: PASS" ∷ []))
  unfolding script
  run_self_test-passes =
      let (r, h, states, illegals, bonds, passes) = own_report in
      (
        r,
        h,
        states,
        illegals,
        bonds,
        passes,
        ap (λ x. x >>= λ q. ok (printed q (report_ok q))) h ∙ ap (λ b. ok (printed r b)) passes,
      )
