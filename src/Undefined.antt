-- ===== src/Undefined.antt =====
-- Code that may read memory outside its buffer, which is undefined behaviour: `none`. The rest of a
-- call's statements, which it leaves without a meaning.
use remote_monitoring_tool.Prelude.{◌≡◌, ap, ◌∙◌, Option, none, some}

infixl 5 ◌>>=◌
abbrev pub ◌>>=◌ {ℓ κ} : {R : Type ℓ} {S : Type κ} → Option R → (R → Option S) → Option S
none >>= rest = none
some value >>= rest = rest value

pub bind_some {ℓ κ} :
    {R : Type ℓ} {S : Type κ} {o : Option R} {value : R} {answer : Option S} (rest : R → Option S)
    → o ≡ some value
    → rest value ≡ answer
    → (o >>= rest) ≡ answer
bind_some rest e same = ap (λ p. p >>= rest) e ∙ same
