-- ===== src/Base/Outcomes.antt =====
-- What a call gives back: a value, or the way in which C++ leaves the function without one.
use mathlib.Core.Path.{◌≡◌, refl, subst}

infixl 5 ◌>>=◌
-- `undefined` is undefined behaviour; the others are the standard exceptions.
pub data Fault : Type 0 where
  undefined out_of_range length_error runtime_error : Fault

pub data Outcome {ℓ} (T : Type ℓ) : Type ℓ where
  fault : Fault → Outcome T
  ok : T → Outcome T

-- The rest of the function runs only after a call that returned.
abbrev pub ◌>>=◌ {κ ℓ} :
    {T : Type κ} {U : Type ℓ} (call : Outcome T) (rest : T → Outcome U) → Outcome U
fault e >>= rest = fault e
ok value >>= rest = rest value

-- A body that returned has run its first call and its rest.
pub >>=-eq-ok {ℓ κ} :
    {T : Type ℓ} {U : Type κ} (call : Outcome T) (rest : T → Outcome U) {u : U}
    → (call >>= rest) ≡ ok u
    → (t : T) × (call ≡ ok t) × (rest t ≡ ok u)
>>=-eq-ok (fault e) rest h = cc
>>=-eq-ok (ok t) rest h = (t, refl, h)

-- What holds of the value of a call that returned.
abbrev pub OnOk {ℓ κ} : {T : Type ℓ} → (T → Type κ) → Outcome T → Type (ℓ ⊔ κ)
OnOk {T = T} P call = (t : T) → call ≡ ok t → P t

pub OnOk-ok {ℓ κ} : {T : Type ℓ} (P : T → Type κ) (t : T) → P t → OnOk P (ok t)
OnOk-ok P t p u e = let same : t ≡ u = cc in subst P same p

pub OnOk-fault {ℓ κ} : {T : Type ℓ} (P : T → Type κ) (e : Fault) → OnOk P (fault e)
OnOk-fault P e u r = cc

pub OnOk->>= {ℓ κ} :
    {T U : Type ℓ} (P : T → Type κ) (Q : U → Type κ) (call : Outcome T) (rest : T → Outcome U)
    → OnOk P call
    → ((t : T) → P t → OnOk Q (rest t))
    → OnOk Q (call >>= rest)
OnOk->>= P Q call rest p q u r =
    let (t, first, second) = >>=-eq-ok call rest r in q t (p t first) u second
