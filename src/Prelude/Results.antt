-- ===== src/Prelude/Results.antt =====
-- `Option` as a monad, for code whose steps may panic, fault or run out of fuel.
use fast_socket_rs.Prelude.{Bool, true, false, Option, none, some, ◌≡◌, refl}

infixl 5 ◌>>=◌ ◌>>◌
abbrev pub ◌>>=◌ {ℓ κ} : {A : Type ℓ} {B : Type κ} → Option A → (A → Option B) → Option B
none >>= f = none
some a >>= f = f a

abbrev pub ◌>>◌ {ℓ} : {B : Type ℓ} → Option (Unit {0}) → Option B → Option B
m >> k = m >>= λ _. k

-- `Option::or_else`.
abbrev pub or_else {ℓ} : {A : Type ℓ} → Option A → Option A → Option A
or_else (some a) o = some a
or_else none o = o

-- `assert!`.
abbrev pub checked : Bool → Option (Unit {0})
checked true = some tt
checked false = none

-- `Result`, for errors that the source returns as values.
pub data Result {ℓ κ} (A : Type ℓ) (E : Type κ) : Type (ℓ ⊔ κ) where
  ok : A → Result A E
  err : E → Result A E

-- What a chain that succeeds went through.
pub >>=-eq-some {ℓ κ} :
    {A : Type ℓ} {B : Type κ} (m : Option A) (f : A → Option B) {b : B}
    → (m >>= f) ≡ some b
    → (a : A) × (m ≡ some a) × (f a ≡ some b)
>>=-eq-some none f h = cc
>>=-eq-some (some a) f h = (a, refl, h)

pub eq_of_some {ℓ} : {A : Type ℓ} {a b : A} → some a ≡ some b → a ≡ b
eq_of_some h = cc

-- What a check that is passed leaves.
pub checked-passed {ℓ} :
    {A : Type ℓ} (b : Bool) (m : Option A) {a : A}
    → (checked b >> m) ≡ some a
    → (b ≡ true) × (m ≡ some a)
checked-passed true m h = (refl, h)
checked-passed false m h = cc
