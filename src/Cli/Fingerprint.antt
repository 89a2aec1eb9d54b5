-- ===== src/Cli/Fingerprint.antt =====
-- What the fingerprint of a certificate (conformance_cli.py) says of the certificate.
use ars_solana.Prelude.{
  ◌≡◌, ◌≢◌, sym, ap, ◌∙◌, ◌⊎◌, inl, inr, ℕ, ◌+◌, String, List, [], ◌∷◌, ◌++◌, All, All-append,
  length, ℤ, str_ℕ, str_int, encode, encode-append, arith, split_last,
}
use mathlib.Core.List.{append_assoc}
use native.Mathlib.Decide.{ℕ_discrete}
use ars_solana.Prelude.Decimal.{
  encode-str_ℕ-injective, encode-str_int-injective, str_ℕ-All_ne, str_int-All_ne,
}
use ars_solana.Prelude.Utf8.{encode-injective}
use ars_solana.Prelude.Hex.{hex_text-injective}
use ars_solana.Hashlib.{sha256, sha256-IsByte}
use ars_solana.Conformance.{ConformanceReport}
use ars_solana.Cli.Certificate.{counts, hashed, fingerprint_of}

-- The counts of two reports are the same.
abbrev pub SameCounts : ConformanceReport → ConformanceReport → Type 0
SameCounts r q =
    (r.state_passed ≡ q.state_passed)
    × (length r.state_failed ≡ length q.state_failed)
    × (r.illegal_passed ≡ q.illegal_passed)
    × (length r.illegal_failed ≡ length q.illegal_failed)
    × (r.view_bond_passed ≡ q.view_bond_passed)
    × (length r.view_bond_failed ≡ length q.view_bond_failed)

-- Two different messages with the same hash.
abbrev pub IsCollision : List ℕ → List ℕ → Type 0
IsCollision m n = (m ≢ n) × (sha256 m ≡ sha256 n)

-- The bytes of a pair of counts, after its letter.
abbrev ratio : ℕ → List String → List ℕ
ratio passed failed = encode (str_ℕ passed) ++ b'/' ∷ encode (str_ℕ (passed + length failed))

encode-counts :
    (letter : String) (passed : ℕ) (failed : List String)
    → encode (counts letter passed failed) ≡ encode letter ++ ratio passed failed
unfolding encode
encode-counts letter passed failed =
    encode-append letter _
    ∙ ap (λ bs. encode letter ++ bs)
        (encode-append (str_ℕ passed) _
          ∙ ap (λ bs. encode (str_ℕ passed) ++ bs)
              (encode-append "/" (str_ℕ (passed + length failed))))

abbrev NoBar : List ℕ → Type 0
NoBar = All (λ b. b ≢ b'|')

-- No bar stands in a pair of counts.
ratio-All_ne : (passed : ℕ) (failed : List String) → NoBar (ratio passed failed)
ratio-All_ne passed failed =
    All-append (λ b. b ≢ b'|') (encode (str_ℕ passed)) _
      (str_ℕ-All_ne passed b'|' (inr (omega arith)))
      (λ e. absurd (omega arith), str_ℕ-All_ne (passed + length failed) b'|' (inr (omega arith)))

ratio-injective :
    (p q : ℕ) (fs gs : List String) → ratio p fs ≡ ratio q gs → (p ≡ q) × (length fs ≡ length gs)
ratio-injective p q fs gs h =
    let (front, back) =
      split_last b'/' (encode (str_ℕ p)) (encode (str_ℕ q)) _ _
        (str_ℕ-All_ne (p + length fs) b'/' (inl (omega arith)))
        (str_ℕ-All_ne (q + length gs) b'/' (inl (omega arith))) h in
    let same = encode-str_ℕ-injective p q front in
    let total = encode-str_ℕ-injective (p + length fs) (q + length gs) back in (same, omega arith)

-- The five parts of the message, the last bar outermost.
abbrev parted : (subject time state illegal bond : List ℕ) → List ℕ
parted subject time state illegal bond =
    (((subject ++ b'|' ∷ time) ++ b'|' ∷ state) ++ b'|' ∷ illegal) ++ b'|' ∷ bond

regroup :
    (subject time state illegal bond state' illegal' bond' : List ℕ)
    → state ≡ state'
    → illegal ≡ illegal'
    → bond ≡ bond'
    → subject
        ++ b'|' ∷ []
        ++ time
        ++ b'|' ∷ []
        ++ state
        ++ b'|' ∷ []
        ++ illegal
        ++ b'|' ∷ []
        ++ bond
      ≡ parted subject time state' illegal' bond'
regroup subject time state illegal bond state' illegal' bond' p q r =
    rw (p, q, r) (simp append_assoc)

hashed-parted :
    (r : ConformanceReport) (subject : String) (issued_at : ℤ)
    → hashed r subject issued_at
      ≡ parted
          (encode subject)
          (encode (str_int issued_at))
          (b's' ∷ ratio r.state_passed r.state_failed)
          (b'i' ∷ ratio r.illegal_passed r.illegal_failed)
          (b'v' ∷ ratio r.view_bond_passed r.view_bond_failed)
unfolding hashed encode
hashed-parted r subject issued_at =
    regroup (encode subject) (encode (str_int issued_at)) _ _ _ _ _ _
      (encode-counts "s" r.state_passed r.state_failed)
      (encode-counts "i" r.illegal_passed r.illegal_failed)
      (encode-counts "v" r.view_bond_passed r.view_bond_failed)

parted-injective :
    (s t s' t' : List ℕ) (a b c a' b' c' : List ℕ)
    → NoBar t
    → NoBar t'
    → NoBar a
    → NoBar a'
    → NoBar b
    → NoBar b'
    → NoBar c
    → NoBar c'
    → parted s t a b c ≡ parted s' t' a' b' c'
    → (s ≡ s') × (t ≡ t') × (a ≡ a') × (b ≡ b') × (c ≡ c')
parted-injective s t s' t' a b c a' b' c' nt nt' na na' nb nb' nc nc' h =
    let (h3, ec) = split_last b'|' _ _ c c' nc nc' h in
    let (h2, eb) = split_last b'|' _ _ b b' nb nb' h3 in
    let (h1, ea) = split_last b'|' _ _ a a' na na' h2 in
    let (es, et) = split_last b'|' s s' t t' nt nt' h1 in (es, et, ea, eb, ec)

-- The message tells its subject, its time and its counts.
hashed-injective :
    (r q : ConformanceReport) (subject subject' : String) (issued_at issued_at' : ℤ)
    → hashed r subject issued_at ≡ hashed q subject' issued_at'
    → (subject ≡ subject') × (issued_at ≡ issued_at') × SameCounts r q
hashed-injective r q subject subject' issued_at issued_at' h =
    let (es, et, ea, eb, ec) =
      parted-injective (encode subject) (encode (str_int issued_at)) (encode subject')
        (encode (str_int issued_at')) _ _ _ _ _ _ (str_int-All_ne issued_at b'|' (omega arith))
        (str_int-All_ne issued_at' b'|' (omega arith))
        (λ e. absurd (omega arith), ratio-All_ne r.state_passed r.state_failed)
        (λ e. absurd (omega arith), ratio-All_ne q.state_passed q.state_failed)
        (λ e. absurd (omega arith), ratio-All_ne r.illegal_passed r.illegal_failed)
        (λ e. absurd (omega arith), ratio-All_ne q.illegal_passed q.illegal_failed)
        (λ e. absurd (omega arith), ratio-All_ne r.view_bond_passed r.view_bond_failed)
        (λ e. absurd (omega arith), ratio-All_ne q.view_bond_passed q.view_bond_failed)
        (sym (hashed-parted r subject issued_at) ∙ h ∙ hashed-parted q subject' issued_at') in
    let (sp, sf) =
      ratio-injective r.state_passed q.state_passed r.state_failed q.state_failed (cc) in
    let (ip, jf) =
      ratio-injective r.illegal_passed q.illegal_passed r.illegal_failed q.illegal_failed (cc) in
    let (vp, vf) =
      ratio-injective r.view_bond_passed q.view_bond_passed r.view_bond_failed q.view_bond_failed
        (cc) in
    (
      encode-injective subject subject' es,
      encode-str_int-injective issued_at issued_at' et,
      (sp, sf, ip, jf, vp, vf),
    )

same_bytes : Discrete (List ℕ)
same_bytes = hlevel ℕ_discrete

-- Two certificates with the same fingerprint have the same subject, the same time of issue and the
-- same counts of vectors that passed and failed, or else they exhibit a collision of SHA-256. So a
-- certificate that is issued again at another time has another fingerprint.
pub fingerprint_of-injective :
    (r q : ConformanceReport) (subject subject' : String) (issued_at issued_at' : ℤ)
    → fingerprint_of r subject issued_at ≡ fingerprint_of q subject' issued_at'
    → ((subject ≡ subject') × (issued_at ≡ issued_at') × SameCounts r q)
      ⊎ IsCollision (hashed r subject issued_at) (hashed q subject' issued_at')
unfolding fingerprint_of
fingerprint_of-injective r q subject subject' issued_at issued_at' h =
    let m = hashed r subject issued_at in
    let n = hashed q subject' issued_at' in
    elim (same_bytes m n) [
      | yes e ↦ inl (hashed-injective r q subject subject' issued_at issued_at' e)
      | no d ↦
          inr (d, hex_text-injective (sha256 m) (sha256 n) (sha256-IsByte m) (sha256-IsByte n) h)
    ]
