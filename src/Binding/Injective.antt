-- ===== src/Binding/Injective.antt =====
-- The bytes of an instruction of binding.py against its method and its arguments.
use mathlib.Core.Path.{ap₂}
use ars_solana.Prelude.{
  ℕ, ◌≡◌, refl, sym, ap, ◌∙◌, List, take, drop, map, ok, pos, from_bytes, encode, arith,
}
use ars_solana.Hashlib.{sha256}
use ars_solana.Solders.{Solders, Instruction}
use ars_solana.Pda.{Constants}
use ars_solana.Binding.Intents.{
  lock_collateral_intent, slash_collateral_intent, unlock_collateral_intent, pay_premium_intent,
  release_principal_intent,
}
use ars_solana.Binding.Builders.{disc}
use ars_solana.Binding.Layout.{
  Call, lock, slash, unlock, pay, release, intent_of, fields, widths, arguments, build_of,
}
use ars_solana.Binding.Carries.{build-Carries}

-- The discriminators as little-endian numbers.
abbrev discriminator : {P : Type 0} → Call P → ℕ
discriminator (lock _) = 0xf084d07b501fdf3e
discriminator (slash _ _) = 0x8cbe34b72cd8633f
discriminator (unlock _) = 0x289b5dbc1f8dc7de
discriminator (pay _ _) = 0xbde549f8a6c68583
discriminator (release _ _) = 0xa13a1767169d36f3

discriminator_lem :
    {P : Type 0} (call : Call P) (p : P)
    → from_bytes (disc (intent_of call p).method) ≡ discriminator call
unfolding disc sha256 encode from_bytes lock_collateral_intent slash_collateral_intent
    unlock_collateral_intent pay_premium_intent release_principal_intent
discriminator_lem (lock params) p = refl
discriminator_lem (slash params action) p = refl
discriminator_lem (unlock params) p = refl
discriminator_lem (pay params source) p = refl
discriminator_lem (release params controller) p = refl

same_kind :
    {P : Type 0} (call other : Call P) (p : P)
    → discriminator call ≡ discriminator other
    → ((intent_of call p).method ≡ (intent_of other p).method) × (widths call ≡ widths other)
unfolding lock_collateral_intent slash_collateral_intent unlock_collateral_intent pay_premium_intent
    release_principal_intent
same_kind (lock _) (lock _) p h = (refl, refl)
same_kind (slash _ _) (slash _ _) p h = (refl, refl)
same_kind (unlock _) (unlock _) p h = (refl, refl)
same_kind (pay _ _) (pay _ _) p h = (refl, refl)
same_kind (release _ _) (release _ _) p h = (refl, refl)
same_kind _ _ p h = absurd (omega arith)

module _ (s : Solders) (c : Constants s.Pubkey) where
  open s use {Pubkey}

  -- Two built instructions with the same data have the same method, and their builders were given
  -- the same numbers, the keyword `action` of a claim included.
  pub data_determines_call :
      (call other : Call Pubkey) (p : Pubkey) (ix jx : Instruction Pubkey)
      → build_of s c call p ≡ ok ix
      → build_of s c other p ≡ ok jx
      → ix.data_bytes ≡ jx.data_bytes
      → ((intent_of call p).method ≡ (intent_of other p).method)
        × (arguments call ≡ arguments other)
  data_determines_call call other p ix jx h k e =
      let x = build-Carries s c call p ix h in
      let y = build-Carries s c other p jx k in
      let tags =
        sym (discriminator_lem call p)
        ∙ ap from_bytes (sym x.tagged ∙ ap (take 8) e ∙ y.tagged)
        ∙ discriminator_lem other p in
      let (methods, same_widths) = same_kind call other p tags in
      (
        methods,
        sym x.decoded
            ∙ ap₂ (λ (ws : List ℕ) (l : List ℕ). map pos (fields ws (drop 8 l))) same_widths e
            ∙ y.decoded,
      )
