-- ===== src/Machine/World.antt =====
-- The machine's state, and the program's effects on it: a state monad with errors. What was
-- changed before an error stays changed.
pub mod Inversion
use ngxborg.Base.{ℕ, List, Option, none, some, Bool, true, false}
use ngxborg.Text.{Text}
use ngxborg.Machine.Fs.{Fs}
use ngxborg.Machine.Error.{Error, Result, ok, err}

-- os/user.User, its numbers as the decimal texts that the package returns
pub record User : Type 0 where
  pub name : Text
  pub uid : Text
  pub gid : Text
  pub home : Text

pub record Group : Type 0 where
  pub name : Text
  pub gid : Text
  pub members : List Text

-- One run of an external command.
pub record Invocation : Type 0 where
  pub name : Text
  pub args : List Text
  pub stdin : Text

pub record World : Type 0 where
  pub fs : Fs
  pub users : List User
  pub groups : List Group
  -- the commands run so far, the last one first
  pub history : List Invocation
  -- seconds since the epoch
  pub now : ℕ
  -- effective user id of this process
  pub euid : ℕ
  -- what crypto/rand will draw
  pub random : List ℕ

abbrev pub M {ℓ} : Type ℓ → Type ℓ
M A = World → World × Result A

abbrev pub pure {ℓ} : {A : Type ℓ} → A → M A
pure a w = (w, ok a)

abbrev pub fail {ℓ} : {A : Type ℓ} → Error → M A
fail e w = (w, err e)

abbrev pub lift {ℓ} : {A : Type ℓ} → Result A → M A
lift r w = (w, r)

abbrev pub continue {ℓ κ} : {A : Type ℓ} {B : Type κ} → Result A → (A → M B) → M B
continue (ok a) f w = f a w
continue (err e) f w = (w, err e)

infixl 5 ◌>>=◌ ◌>>◌
abbrev pub ◌>>=◌ {ℓ κ} : {A : Type ℓ} {B : Type κ} → M A → (A → M B) → M B
◌>>=◌ m f w = continue (m w).1 f (m w).0

abbrev pub ◌>>◌ {ℓ κ} : {A : Type ℓ} {B : Type κ} → M A → M B → M B
m >> k = m >>= λ _. k

-- The state as it is read.
abbrev pub gets {ℓ} : {A : Type ℓ} → (World → A) → M A
gets f w = (w, ok (f w))

abbrev pub guard : Bool → Error → M (Unit {0})
guard true e w = (w, ok tt)
guard false e w = (w, err e)

abbrev pub or_fail {ℓ} : {A : Type ℓ} → Error → Option A → M A
or_fail e none w = (w, err e)
or_fail e (some a) w = (w, ok a)

abbrev pub when : Bool → M (Unit {0}) → M (Unit {0})
when true m w = m w
when false m w = (w, ok tt)

-- `if err := m; err != nil { … }` where the error is not passed on.
abbrev pub attempt {ℓ} : {A : Type ℓ} → M A → M (Result A)
attempt m w = ((m w).0, ok (m w).1)
