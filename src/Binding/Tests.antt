-- ===== src/Binding/Tests.antt =====
-- The instructions of binding.py at concrete parameters, and the published vectors of
-- tests/conformance-vectors.json.
use ars_solana.Prelude.{
  ℕ, ◌≡◌, refl, ◌⊎◌, some, List, [], ◌∷◌, true, false, ◌++◌, ◌+◌, ◌*◌, get_elem?, pos, Result, ok,
  raise, value_error, ◌>>=◌, hex, encode, from_bytes, bytes_of,
}
use ars_solana.Hashlib.{sha256}
use ars_solana.Solders.{Instruction}
use ars_solana.Solders.Model.{solders, solders_find}
use ars_solana.Pda.{Constants, bond_vault_pda, credit_line_pda}
use ars_solana.Pda.Separation.{Subject, bond_vault, pda_of, Collision, pda_separation}
use ars_solana.Binding.Params.{
  LockCollateralParams, SlashCollateralParams, UnlockCollateralParams, ReleasePrincipalParams,
}
use ars_solana.Binding.Builders.{
  disc, meta, build_view_bond_ix, build_resolve_claim_ix, build_request_credit_ix,
}
use ars_solana.Binding.Layout.{slash, unlock, intent_of, build_of, Carries}
use ars_solana.Binding.Carries.{build-Carries}
use ars_solana.Binding.Injective.{data_determines_call}
use ars_solana.Binding.Returns.{IsEncodable, ReturnsIff, build_returns}
use ars_solana.Binding.Accounts.{signers, build_signers, draw_uses_derived_line}

abbrev keys : Constants ℕ
keys = record { program_id_devnet = 11; token_program_id = 12; system_program_id = 13 }

abbrev locking : ℕ → ℕ → LockCollateralParams ℕ
locking bond score = record {
  job_id = "j";
  agent = 5;
  min_bond_atomic = pos bond;
  min_score = pos score;
}

view_bond_hex : ℕ → ℕ → Result (List ℕ)
view_bond_hex bond score = do
  ix ← build_view_bond_ix solders keys (locking bond score) 11
  ok (hex ix.data_bytes)

-- The four vectors.
view_bond_vectors :
    (view_bond_hex 0 0 ≡ ok (encode "3edf1f507bd084f000000000000000000000"))
    × (view_bond_hex 1_000_000 700 ≡ ok (encode "3edf1f507bd084f040420f0000000000bc02"))
    × (view_bond_hex 1_000_000_000 800 ≡ ok (encode "3edf1f507bd084f000ca9a3b000000002003"))
    × (view_bond_hex 0xffff_ffff_ffff_ffff 0xffff
        ≡ ok (encode "3edf1f507bd084f0ffffffffffffffffffff"))
unfolding view_bond_hex build_view_bond_ix sha256 encode hex
view_bond_vectors = (refl, refl, refl, refl)

score_too_wide : view_bond_hex 1 70_000 ≡ raise (value_error "min_score must fit in u16 (0..65535)")
unfolding view_bond_hex build_view_bond_ix
score_too_wide = refl

abbrev unlocking : UnlockCollateralParams ℕ
unlocking = record {
  job_id = "j";
  agent = 5;
  bond_mint = 6;
  controller = 7;
  controller_bond_ata = 8;
  amount_atomic = pos 300;
}

abbrev built : Result (Instruction ℕ)
built = build_of solders keys (unlock unlocking) 11

abbrev withdraw_ix : Instruction ℕ
withdraw_ix = record {
  program_id = 11;
  accounts =
      meta 5 false true
      ∷ meta 6 false false
      ∷ meta (from_bytes (encode "vault") + 3 * (5 + 3 * 7) + 11) false true
      ∷ meta 8 false true
      ∷ meta 7 true false
      ∷ meta 12 false false
      ∷ [];
  data_bytes = disc "withdraw_bond" ++ (44 ∷ 1 ∷ 0 ∷ 0 ∷ 0 ∷ 0 ∷ 0 ∷ 0 ∷ []);
}

-- A claim, to be resolved with an action that no intent has.
abbrev resolving : SlashCollateralParams ℕ
resolving = record {
  job_id = "j";
  claim = 9;
  agent = 5;
  bond_mint = 6;
  claimer_bond_ata = 8;
  signer = 7;
}

abbrev resolve_ix : Instruction ℕ
resolve_ix = record {
  program_id = 11;
  accounts =
      meta 9 false true
      ∷ meta 5 false true
      ∷ meta 6 false false
      ∷ meta (from_bytes (encode "vault") + 3 * (5 + 3 * 7) + 11) false true
      ∷ meta (from_bytes (encode "deposit") + 3 * (9 + 3 * 7) + 11) false true
      ∷ meta 8 false true
      ∷ meta 7 true false
      ∷ meta 12 false false
      ∷ [];
  data_bytes = disc "resolve_claim" ++ (1 ∷ []);
}

resolve_built : build_of solders keys (slash resolving (pos 1)) 11 ≡ ok resolve_ix
unfolding build_resolve_claim_ix from_bytes encode bytes_of
resolve_built = refl

action_too_wide :
    build_of solders keys (slash resolving (pos 300)) 11
    ≡ raise (value_error "action must fit in u8 (0..255)")
unfolding build_resolve_claim_ix
action_too_wide = refl

build-Carries_example : Carries solders keys (slash resolving (pos 1)) 11 resolve_ix
build-Carries_example =
    build-Carries solders keys (slash resolving (pos 1)) 11 resolve_ix resolve_built

data_determines_call_example :
    ((intent_of (slash resolving (pos 1)) 11).method
      ≡ (intent_of (slash resolving (pos 1)) 11).method)
    × (pos 1 ∷ [] ≡ pos 1 ∷ [])
data_determines_call_example =
    data_determines_call solders keys (slash resolving (pos 1)) (slash resolving (pos 1)) 11
      resolve_ix resolve_ix resolve_built resolve_built refl

build_returns_example :
    ReturnsIff
      (IsEncodable (slash resolving (pos 300)))
      (build_of solders keys (slash resolving (pos 300)) 11)
build_returns_example = build_returns solders keys solders_find (slash resolving (pos 300)) 11

build_signers_example : signers resolve_ix.accounts ≡ 7 ∷ []
build_signers_example =
    build_signers solders keys (slash resolving (pos 1)) 11 resolve_ix resolve_built

-- The parameters name 99 as the credit line.
abbrev drawing : ReleasePrincipalParams ℕ
drawing = record { job_id = "j"; agent = 5; credit_line = 99; amount_atomic = pos 2 }

abbrev draw_ix : Instruction ℕ
draw_ix = record {
  program_id = 11;
  accounts =
      meta 5 false true
      ∷ meta (from_bytes (encode "credit-line") + 3 * (5 + 3 * 7) + 11) false true
      ∷ meta (from_bytes (encode "vault") + 3 * (5 + 3 * 7) + 11) false true
      ∷ meta (from_bytes (encode "pool-config") + 3 * 7 + 11) false true
      ∷ meta (from_bytes (encode "pool-vault") + 3 * 7 + 11) false true
      ∷ meta (from_bytes (encode "pool-mint-auth") + 3 * 7 + 11) false false
      ∷ meta 7 true true
      ∷ meta 12 false false
      ∷ meta 13 false false
      ∷ [];
  data_bytes = disc "request_credit" ++ (2 ∷ 0 ∷ 0 ∷ 0 ∷ 0 ∷ 0 ∷ 0 ∷ 0 ∷ []);
}

draw_built : build_request_credit_ix solders keys drawing 11 (some 7) ≡ ok draw_ix
unfolding build_request_credit_ix from_bytes encode
draw_built = refl

draw_uses_derived_line_example :
    (line : ℕ × ℕ) × (credit_line_pda solders 5 11 ≡ ok line)
    × (get_elem? draw_ix.accounts 1 ≡ some (meta line.0 false true))
draw_uses_derived_line_example =
    draw_uses_derived_line solders keys drawing (some 7) 11 draw_ix draw_built

abbrev bond_key : ℕ
bond_key = from_bytes (encode "vault") + 3 * (5 + 3 * 7) + 11

vault_found : pda_of solders (bond_vault 5) 11 ≡ ok (bond_key, 255)
unfolding bond_vault_pda from_bytes encode
vault_found = refl

pda_separation_example :
    ◌≡◌ {A = Subject solders} (bond_vault 5) (bond_vault 5) ⊎ Collision solders 11 bond_key
pda_separation_example =
    pda_separation solders (bond_vault 5) (bond_vault 5) 11 bond_key 255 255 vault_found vault_found
