-- ===== src/Prelude/Exceptions.antt =====
-- Python's exceptions as values. Each class that the program raises or catches by name is a
-- constructor; `foreign_error` is any other class, raised by code outside the repository.
use Prim.Native.String.{String}
use mathlib.Core.Path.{◌≡◌, refl}
use mathlib.Core.Logic.{◌⊎◌, inl, inr}

pub data Exception : Type 0 where
  ars_transition_error : String → Exception
  value_error : String → Exception
  overflow_error : String → Exception
  type_error : String → Exception
  attribute_error : String → Exception
  index_error : String → Exception
  runtime_error : String → Exception
  not_implemented_error : String → Exception
  x402_parse_error : (code : String) → (message : String) → Exception
  foreign_error : (class_name : String) → (message : String) → Exception

-- `type(e).__name__`
abbrev pub class_name : Exception → String
class_name (ars_transition_error m) = "ARSTransitionError"
class_name (value_error m) = "ValueError"
class_name (overflow_error m) = "OverflowError"
class_name (type_error m) = "TypeError"
class_name (attribute_error m) = "AttributeError"
class_name (index_error m) = "IndexError"
class_name (runtime_error m) = "RuntimeError"
class_name (not_implemented_error m) = "NotImplementedError"
class_name (x402_parse_error c m) = "X402ParseError"
class_name (foreign_error n m) = n

-- `str(e)`
abbrev pub message : Exception → String
message (ars_transition_error m) = m
message (value_error m) = m
message (overflow_error m) = m
message (type_error m) = m
message (attribute_error m) = m
message (index_error m) = m
message (runtime_error m) = m
message (not_implemented_error m) = m
message (x402_parse_error c m) = m
message (foreign_error n m) = m

-- What a Python call does: it raises, or returns a value.
pub data Result {ℓ} (V : Type ℓ) : Type ℓ where
  raise : (exception : Exception) → Result V
  ok : (value : V) → Result V

-- A statement after another one: it runs on the value, unless there was an exception.
module _ {ℓ κ} {V : Type ℓ} {W : Type κ} where
  infixl 5 ◌>>=◌
  abbrev pub ◌>>=◌ : Result V → (V → Result W) → Result W
  raise exception >>= next = raise exception
  ok value >>= next = next value

module _ {κ} {W : Type κ} where
  infixl 5 ◌>>◌
  abbrev pub ◌>>◌ : (first : Result (Unit {0})) → (second : Result W) → Result W
  first >> second = first >>= λ done. second

-- Inversion of a call that returned.
pub >>=-eq-ok {ℓ κ} :
    {V : Type ℓ} {W : Type κ} (call : Result V) (next : V → Result W) {last : W}
    → (call >>= next) ≡ ok last
    → (value : V) × (call ≡ ok value) × (next value ≡ ok last)
>>=-eq-ok (raise exception) next h = cc
>>=-eq-ok (ok value) next h = (value, refl, h)

pub >>=_assoc {ℓ} :
    {A B C : Type ℓ} (m : Result A) (f : A → Result B) (g : B → Result C)
    → ((m >>= f) >>= g) ≡ (m >>= λ a. f a >>= g)
>>=_assoc (ok a) f g = refl
>>=_assoc (raise e) f g = refl

-- Inversion of a call that raised.
pub >>=-eq-raise {ℓ κ} :
    {A : Type ℓ} {B : Type κ} (m : Result A) (f : A → Result B) {e : Exception}
    → (m >>= f) ≡ raise e
    → (m ≡ raise e) ⊎ ((a : A) × (m ≡ ok a) × (f a ≡ raise e))
>>=-eq-raise (ok a) f h = inr (a, refl, h)
>>=-eq-raise (raise x) f h = inl (cc)

-- A call that raises an exception with a property.
abbrev pub Raises {ℓ} : {A : Type ℓ} → (Exception → Type 0) → Result A → Type 0
Raises P (ok a) = ⊥
Raises P (raise e) = P e

-- The exception is the program's `ARSTransitionError`.
abbrev pub IsTransitionError : Exception → Type 0
IsTransitionError (ars_transition_error m) = Unit
IsTransitionError _ = ⊥

pub Raises-ne-ok {ℓ} :
    {A : Type ℓ} (P : Exception → Type 0) (r : Result A) {a : A} → Raises P r → ¬ (r ≡ ok a)
Raises-ne-ok P (ok a) h = absurd h
Raises-ne-ok P (raise e) h = λ p. cc

pub ok-injective {ℓ} : {A : Type ℓ} {a b : A} → ok a ≡ ok b → a ≡ b
ok-injective p = cc

-- The exception is a `ValueError`.
abbrev pub IsValueError : Exception → Type 0
IsValueError (value_error m) = Unit
IsValueError _ = ⊥

pub Raises->>= {ℓ κ} :
    {A : Type ℓ} {B : Type κ} (P : Exception → Type 0) (m : Result A) (f : A → Result B)
    → Raises P m
    → Raises P (m >>= f)
Raises->>= P (raise e) f h = h
Raises->>= P (ok a) f h = absurd h

pub Result-cases {ℓ} :
    {A : Type ℓ} (r : Result A) → ((a : A) × (r ≡ ok a)) ⊎ ((e : Exception) × (r ≡ raise e))
Result-cases (ok a) = inl (a, refl)
Result-cases (raise e) = inr (e, refl)

pub raise-injective {ℓ} :
    {A : Type ℓ} {x y : Exception} → ◌≡◌ {A = Result A} (raise x) (raise y) → x ≡ y
raise-injective p = cc
