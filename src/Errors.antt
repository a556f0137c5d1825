-- ===== src/Errors.antt =====
-- Go's (value, error) pairs, and the errors that the program tells apart.
use Prim.Native.String.{String}
use apkg.Prelude.{◌≡◌, refl, ◌⊎◌, inl, inr, Bool, true, false, arith}

pub data Error : Type 0 where
  not_exist invalid permission exist database_closed bolt_error : Error
  -- `errors.New`, `fmt.Errorf`
  message : String → Error
  -- a `syscall.Errno`, by its number
  errno : Prim.Native.Nat.ℕ → Error
  -- a run-time panic of the Go code, such as a slice out of range
  panics : Error

pub data Result {ℓ} (A : Type ℓ) : Type ℓ where
  ok : A → Result A
  err : Error → Result A

infixl 10 ◌>>=◌
abbrev pub ◌>>=◌ {ℓ κ} : {A : Type ℓ} {B : Type κ} → Result A → (A → Result B) → Result B
ok a >>= f = f a
err e >>= f = err e

-- `err == os.ErrNotExist`
abbrev pub is_not_exist : Error → Bool
is_not_exist not_exist = true
is_not_exist _ = false

pub Result-cases {ℓ} :
    {A : Type ℓ} (r : Result A) → ((a : A) × (r ≡ ok a)) ⊎ ((e : Error) × (r ≡ err e))
Result-cases (ok a) = inl (a, refl)
Result-cases (err e) = inr (e, refl)

-- A chain that succeeds succeeds at its first step.
pub bind-ok {ℓ κ} :
    {A : Type ℓ} {B : Type κ} (r : Result A) (f : A → Result B) (b : B)
    → r >>= f ≡ ok b
    → (a : A) × (r ≡ ok a) × (f a ≡ ok b)
bind-ok (ok a) f b h = (a, refl, h)
bind-ok (err e) f b h = absurd (ground arith)

-- The same, for what follows from the step.
pub bind-then {ℓ κ μ} :
    {A : Type ℓ} {B : Type κ} {P : Type μ} (r : Result A) (f : A → Result B) (b : B)
    → r >>= f ≡ ok b
    → ((a : A) → r ≡ ok a → f a ≡ ok b → P)
    → P
bind-then r f b h k = let (a, e, g) = bind-ok r f b h in k a e g
