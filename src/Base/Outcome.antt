-- ===== src/Base/Outcome.antt =====
-- What a parser of the C code returns: a value, a refusal (`false`, `NULL`, a negative number), or a
-- read outside the buffer, which C leaves undefined.
use Prim.Native.Nat.{ℕ, ◌<◌}
use mathlib.Core.Path.{◌≡◌, refl}
use mathlib.Core.Logic.{◌≢◌}
use mathlib.Core.Bool.{Bool, true, false}
use mathlib.Core.List.{List}
use mathlib.Core.Option.{Option, none, some}
use prizma.Base.Tests.{if◌then◌else◌}
use prizma.Base.Lists.{length, get_elem?, get_or, get_elem?-eq-get_or}

pub data Out {ℓ} (A : Type ℓ) : Type ℓ where
  ok : A → Out A
  no : Out A
  fault : Out A

infixl 5 ◌>>=◌ ◌>>◌
abbrev pub ◌>>=◌ {ℓ κ} : {A : Type ℓ} {B : Type κ} → Out A → (A → Out B) → Out B
ok a >>= f = f a
no >>= f = no
fault >>= f = fault

abbrev pub ◌>>◌ {ℓ} : {B : Type ℓ} → Out (Unit {0}) → Out B → Out B
m >> k = m >>= λ _. k

-- `if (!b) return false;`
abbrev pub guard : Bool → Out (Unit {0})
guard true = ok tt
guard false = no

abbrev pub or_fault : Option ℕ → Out ℕ
or_fault none = fault
or_fault (some x) = ok x

-- The byte at an offset of a buffer.
abbrev pub read : List ℕ → ℕ → Out ℕ
read buf i = or_fault (get_elem? buf i)

abbrev pub byte_at : List ℕ → ℕ → ℕ
byte_at buf i = get_or buf i 0

pub read-in_range : (buf : List ℕ) (i : ℕ) → i < length buf → read buf i ≡ ok (byte_at buf i)
read-in_range buf i h = rw (get_elem?-eq-get_or buf i 0 h)

-- A normal return: never a read outside the buffer, and the value is as `P` says.
pub data Ensures {ℓ κ} {A : Type ℓ} (P : A → Type κ) : Out A → Type (ℓ ⊔ κ) where
  returns : {a : A} → P a → Ensures P (ok a)
  refuses : Ensures P no

pub Ensures-bind {ℓ κ μ ν} :
    {A : Type ℓ} {B : Type κ} {P : A → Type μ} {Q : B → Type ν} (m : Out A) (f : A → Out B)
    → Ensures P m
    → ((a : A) → P a → Ensures Q (f a))
    → Ensures Q (m >>= f)
Ensures-bind m f (returns {a = a} p) k = k a p
Ensures-bind m f refuses k = refuses

pub Ensures-guard {ℓ κ} :
    {B : Type ℓ} {Q : B → Type κ} (b : Bool) (k : Out B)
    → (b ≡ true → Ensures Q k)
    → Ensures Q (guard b >> k)
Ensures-guard true k h = h refl
Ensures-guard false k h = refuses

pub Ensures-read {κ ℓ} :
    {B : Type ℓ} {Q : B → Type κ} (buf : List ℕ) (i : ℕ) (f : ℕ → Out B)
    → i < length buf
    → Ensures Q (f (byte_at buf i))
    → Ensures Q (read buf i >>= f)
Ensures-read buf i f h k = rw (read-in_range buf i h) k

pub Ensures-ne-fault {ℓ κ} : {A : Type ℓ} {P : A → Type κ} {r : Out A} → Ensures P r → r ≢ fault
Ensures-ne-fault (returns p) e = cc
Ensures-ne-fault refuses e = cc

pub Ensures-ok {ℓ κ} : {A : Type ℓ} {P : A → Type κ} {a : A} → Ensures P (ok a) → P a
Ensures-ok (returns p) = p

pub Ensures-if {ℓ κ} :
    {A : Type ℓ} {P : A → Type κ} (b : Bool) (m n : Out A)
    → (b ≡ true → Ensures P m)
    → (b ≡ false → Ensures P n)
    → Ensures P (if b then m else n)
Ensures-if true m n f g = f refl
Ensures-if false m n f g = g refl

pub Ensures-weaken {ℓ κ μ} :
    {A : Type ℓ} {P : A → Type κ} {Q : A → Type μ} {r : Out A}
    → ((a : A) → P a → Q a)
    → Ensures P r
    → Ensures Q r
Ensures-weaken f (returns {a = a} p) = returns (f a p)
Ensures-weaken f refuses = refuses
