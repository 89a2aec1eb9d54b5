-- ===== src/Client/Tests.antt =====
-- The client on a small network, and its theorem there.
use ars_solana.Prelude.{ℕ, ◌≡◌, refl, ◌⊎◌, String, some, [], ◌∷◌, ℤ, pos, ok, raise, value_error}
use ars_solana.Client.Instructions.{Sdk, ReleasePrincipalParams}
use ars_solana.Client.{
  get_latest_blockhash, send_and_confirm_transaction, Network, connection_sender, release_principal,
}
use ars_solana.Client.Settles.{
  principal, outcome, IsUnbuilt, IsUnsigned, IsOffline, IsSent, settle_outcome,
}

-- A key is a number; an instruction is its name, its program and its amount.
abbrev small : Sdk
small = record {
  PublicKey = ℕ;
  Keypair = ℕ;
  TransactionInstruction = String × ℕ × ℤ;
  public_key = λ key. key;
  program_id = 1;
  view_bond = λ agent bond score program. ok ("view_bond", program, bond);
  resolve_claim = λ accounts action program. ok ("resolve_claim", program, pos action);
  withdraw_bond = λ accounts amount program. ok ("withdraw_bond", program, amount);
  process_pool_yield = λ accounts amount program. raise (value_error "no pool");
  request_credit = λ accounts amount program. ok ("request_credit", program, amount);
}

-- Every blockhash is "b", and every transaction is confirmed.
abbrev answering : Network small
answering calls get_latest_blockhash = ok "b"
answering calls (send_and_confirm_transaction transaction signers) = ok "s"

abbrev draw : ReleasePrincipalParams ℕ
draw = record { job_id = "j1"; agent = 5; controller = 6; amount_atomic = pos 9 }

settle_draw : outcome small answering (some 2) (principal draw) (6 ∷ []) [] ≡ (
  ok (record { job_id = "j1"; signature = "s" }),
  get_latest_blockhash
      ∷ send_and_confirm_transaction
          (record {
            instructions = ("request_credit", 2, pos 9) ∷ [];
            fee_payer = 6;
            recent_blockhash = "b";
          })
          (6 ∷ [])
      ∷ [],
)
unfolding release_principal connection_sender
settle_draw = refl

settle_outcome_example :
    IsUnbuilt small answering (some 2) (principal draw) (6 ∷ []) []
    ⊎ IsUnsigned small answering (some 2) (principal draw) (6 ∷ []) []
    ⊎ IsOffline small answering (some 2) (principal draw) (6 ∷ []) []
    ⊎ IsSent small answering (some 2) (principal draw) (6 ∷ []) []
settle_outcome_example = settle_outcome small answering (some 2) (principal draw) (6 ∷ []) []
