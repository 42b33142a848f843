-- ===== src/Base/Outcome.antt =====
-- How a call of the kernel ends, how a stub ends, and the state monad in which stubs are written.
use Prim.Native.Nat.{ℕ}
use Prim.Native.String.{String}
use mathlib.Core.Path.{◌≡◌, refl}
use mathlib.Core.Logic.{◌⊎◌, inl, inr}

-- A system call returns a value, or -1 with this `errno`.
pub data Sys {ℓ} (A : Type ℓ) : Type ℓ where
  done : A → Sys A
  failed : ℕ → Sys A

pub Sys-cases {ℓ} : {A : Type ℓ} (r : Sys A) → ((a : A) × (r ≡ done a)) ⊎ ((e : ℕ) × (r ≡ failed e))
Sys-cases (done a) = inl (a, refl)
Sys-cases (failed e) = inr (e, refl)

-- The OCaml exceptions that the stubs raise: `Unix_error` with its three arguments (a missing
-- third one is the empty string), and those of the runtime.
pub data Exn : Type 0 where
  unix_error : ℕ → String → String → Exn
  failure : String → Exn
  invalid_argument : String → Exn
  not_available : String → Exn
  not_found : Exn
  end_of_file : Exn

-- A stub returns, raises, or does what C leaves undefined (a bad address, a second `free`, a
-- mutex that its owner locks again). Either way it leaves a state.
pub data Run {ℓ κ} (S : Type ℓ) (A : Type κ) : Type (ℓ ⊔ κ) where
  ok : A → S → Run S A
  raised : Exn → S → Run S A
  fault : Run S A

abbrev pub M : Type 0 → Type 0 → Type 0
M S A = S → Run S A

infixl 5 ◌>>=◌ ◌>>◌
abbrev pub ◌>>=◌ : {S A B : Type 0} → M S A → (A → M S B) → M S B
◌>>=◌ m f s = elim (m s) [ ok a s' ↦ f a s' | raised e s' ↦ raised e s' | fault ↦ fault ]

abbrev pub ◌>>◌ : {S B : Type 0} → M S (Unit {0}) → M S B → M S B
m >> k = m >>= λ _. k

abbrev pub pure : {S A : Type 0} → A → M S A
pure a s = ok a s

abbrev pub raise : {S A : Type 0} → Exn → M S A
raise e s = raised e s

abbrev pub gets : {S A : Type 0} → (S → A) → M S A
gets f s = ok (f s) s

abbrev pub modify : {S : Type 0} → (S → S) → M S (Unit {0})
modify f s = ok tt (f s)

abbrev pub undefined : {S A : Type 0} → M S A
undefined s = fault

pub bind_ok :
    {S A B : Type 0} (m : M S A) (f : A → M S B) (s : S) {a : A} {s' : S} {r : Run S B}
    → m s ≡ ok a s'
    → f a s' ≡ r
    → (m >>= f) s ≡ r
bind_ok m f s e h = rw (e, ◌>>=◌) h

pub bind_raised :
    {S A B : Type 0} (m : M S A) (f : A → M S B) (s : S) {e : Exn} {s' : S}
    → m s ≡ raised e s'
    → (m >>= f) s ≡ raised e s'
bind_raised m f s h = rw (h, ◌>>=◌)

pub bind_fault :
    {S A B : Type 0} (m : M S A) (f : A → M S B) (s : S) → m s ≡ fault → (m >>= f) s ≡ fault
bind_fault m f s h = rw (h, ◌>>=◌) refl
