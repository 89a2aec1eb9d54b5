-- ===== src/Conformance/Vectors.antt =====
-- `STATE_VECTORS`, `ILLEGAL_VECTORS` and `VIEW_BOND_VECTORS` of conformance.py.
use ars_solana.Prelude.{
  ℕ, ◌≡◌, refl, String, true, false, none, some, List, [], ◌∷◌, ◌++◌, ℤ, pos, take, Result, ok,
  ◌>>=◌, encode, to_bytes, hex_text, little_endian,
}
use ars_solana.Hashlib.{sha256}
use ars_solana.Events.{
  ArsEvent, job_opened, underwriting_started, underwriting_decided, principal_released, success,
  failed, no_dispute, dispute_upheld,
}
use ars_solana.Conformance.{StateVector, IllegalVector, ViewBondVector}

abbrev opened : ℕ → ArsEvent
opened exposure = job_opened (record {
  job_id = "j1";
  at = pos 1;
  agent = "A";
  requestor = "D";
  exposure_atomic = pos exposure;
})

abbrev started : ArsEvent
started = underwriting_started (record { job_id = "j1"; at = pos 2 })

abbrev accepted : ArsEvent
accepted =
    underwriting_decided (record { job_id = "j1"; at = pos 3; passed = true; failure_code = none })

abbrev refused : String → ArsEvent
refused code =
    underwriting_decided
      (record { job_id = "j1"; at = pos 3; passed = false; failure_code = some code })

abbrev drawn : ℕ → ArsEvent
drawn amount = principal_released (record { job_id = "j1"; at = pos 4; amount_atomic = pos amount })

abbrev billion : ℕ
billion = 1_000_000_000

abbrev pub state_vectors : List StateVector
state_vectors =
    record {
      name = "awaiting underwriting after open";
      log = opened billion ∷ [];
      expected_state = "AWAIT_UNDERWRITING";
      expected_released_atomic = pos 0;
    }
    ∷ record {
      name = "rejected after failing underwriting";
      log = opened billion ∷ started ∷ refused "BOND_BELOW_MIN" ∷ [];
      expected_state = "REJECTED";
      expected_released_atomic = pos 0;
    }
    ∷ record {
      name = "executing after one principal draw";
      log = opened billion ∷ started ∷ accepted ∷ drawn 500_000_000 ∷ [];
      expected_state = "EXECUTING";
      expected_released_atomic = pos 500_000_000;
    }
    ∷ record {
      name = "closed (no dispute)";
      log =
          opened billion
          ∷ started
          ∷ accepted
          ∷ drawn billion
          ∷ ArsEvent.evidence_submitted
              (record { job_id = "j1"; at = pos 5; action_hash = "0xabc"; outcome = success })
          ∷ ArsEvent.closed (record { job_id = "j1"; at = pos 6; resolution = no_dispute })
          ∷ [];
      expected_state = "CLOSED";
      expected_released_atomic = pos billion;
    }
    ∷ record {
      name = "closed via dispute upheld";
      log =
          opened billion
          ∷ started
          ∷ accepted
          ∷ drawn billion
          ∷ ArsEvent.evidence_submitted
              (record { job_id = "j1"; at = pos 5; action_hash = "0xabc"; outcome = failed })
          ∷ ArsEvent.disputed (record { job_id = "j1"; at = pos 6; claim = "C" })
          ∷ ArsEvent.closed (record { job_id = "j1"; at = pos 7; resolution = dispute_upheld })
          ∷ [];
      expected_state = "CLOSED";
      expected_released_atomic = pos billion;
    }
    ∷ []

abbrev pub illegal_vectors : List IllegalVector
illegal_vectors =
    record {
      name = "principal before underwriting";
      log =
          opened 1
          ∷ principal_released (record { job_id = "j1"; at = pos 2; amount_atomic = pos 1 })
          ∷ [];
    }
    ∷ record {
      name = "event for unknown job";
      log = underwriting_started (record { job_id = "ghost"; at = pos 1 }) ∷ [];
    }
    ∷ record {
      name = "event after terminal CLOSED";
      log =
          opened 1
          ∷ started
          ∷ refused "X"
          ∷ underwriting_started (record { job_id = "j1"; at = pos 4 })
          ∷ [];
    }
    ∷ []

-- `_view_bond_expected`
unfoldable pub view_bond_expected : (min_bond min_score : ℤ) → Result String
unfolding sha256 encode to_bytes hex_text
view_bond_expected min_bond min_score = do
  bond ← to_bytes 8 min_bond
  score ← to_bytes 2 min_score
  ok (hex_text (take 8 (sha256 (encode "global:view_bond")) ++ bond ++ score))

abbrev view_bond_vector : String → (min_bond min_score : ℤ) → Result ViewBondVector
view_bond_vector name min_bond min_score = do
  expected ← view_bond_expected min_bond min_score
  ok (record {
    name = name;
    min_bond_atomic = min_bond;
    min_score = min_score;
    expected_data_hex = expected;
  })

-- The list is built when the module is loaded.
unfoldable pub view_bond_vectors : Result (List ViewBondVector)
unfolding view_bond_expected
view_bond_vectors = do
  zeros ← view_bond_vector "zeros" (pos 0) (pos 0)
  one ← view_bond_vector "1 USDC, score 700" (pos 1_000_000) (pos 700)
  thousand ← view_bond_vector "1000 USDC, score 800" (pos billion) (pos 800)
  top ← view_bond_vector "u64-max bond, u16-max score" (pos 0xffff_ffff_ffff_ffff) (pos 0xffff)
  ok (zeros ∷ one ∷ thousand ∷ top ∷ [])

-- The expected encoding of numbers that fit.
abbrev pub expected_vector : String → ℕ → ℕ → ViewBondVector
expected_vector name bond score = record {
  name = name;
  min_bond_atomic = pos bond;
  min_score = pos score;
  expected_data_hex = hex_text (
      take 8 (sha256 (encode "global:view_bond")) ++ little_endian 8 bond ++ little_endian 2 score);
}

abbrev pub loaded_vectors : List ViewBondVector
loaded_vectors =
    expected_vector "zeros" 0 0
    ∷ expected_vector "1 USDC, score 700" 1_000_000 700
    ∷ expected_vector "1000 USDC, score 800" billion 800
    ∷ expected_vector "u64-max bond, u16-max score" 0xffff_ffff_ffff_ffff 0xffff
    ∷ []

pub vectors_load : view_bond_vectors ≡ ok loaded_vectors
unfolding view_bond_vectors view_bond_expected to_bytes
vectors_load = refl
