-- ===== src/Outcome/Laws.antt =====
-- Equations between operations.
use claudepod.Prelude.{◌≡◌, refl, Bytes}
use claudepod.Outcome.{
  Error, Outcome, ok, err, pending, out_of_fuel, chain, add_context, M, pure, ◌>>=◌,
}

pub pure-bind {ℓ} : {S A B : Type ℓ} (x : A) (f : A → M S B) → (pure x >>= f) ≡ f x
unfolding pure ◌>>=◌
pure-bind x f = refl

-- What a chain that succeeds went through.
pub chain-ok {ℓ κ} :
    {A : Type ℓ} {B : Type κ} (r : Outcome A) (f : A → Outcome B) (b : B)
    → chain r f ≡ ok b
    → (a : A) × (r ≡ ok a) × (f a ≡ ok b)
chain-ok (ok a) f b h = (a, refl, h)
chain-ok (err e) f b h = cc
chain-ok pending f b h = cc
chain-ok out_of_fuel f b h = cc

pub add_context-ok {ℓ} :
    {A : Type ℓ} (text : Bytes) (r : Outcome A) (a : A) → add_context text r ≡ ok a → r ≡ ok a
add_context-ok text (ok x) a h = h
add_context-ok text (err e) a h = cc
add_context-ok text pending a h = cc
add_context-ok text out_of_fuel a h = cc

pub err_ok {ℓ} : {A : Type ℓ} {e : Error} {a : A} → err e ≡ ok a → ⊥
err_ok h = cc

pub ok_injective {ℓ} : {A : Type ℓ} {a b : A} → ok a ≡ ok b → a ≡ b
ok_injective h = cc

-- A success or an error: neither a wait nor a lack of fuel.
abbrev pub Concluded {ℓ} : {A : Type ℓ} → Outcome A → Type 0
Concluded (ok a) = Unit
Concluded (err e) = Unit
Concluded pending = ⊥
Concluded out_of_fuel = ⊥

pub chain-Concluded {ℓ κ} :
    {A : Type ℓ} {B : Type κ} (r : Outcome A) (f : A → Outcome B)
    → Concluded r
    → ((a : A) → Concluded (f a))
    → Concluded (chain r f)
chain-Concluded (ok a) f h k = k a
chain-Concluded (err e) f h k = tt
chain-Concluded pending f h k = h
chain-Concluded out_of_fuel f h k = h
