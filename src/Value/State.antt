-- ===== src/Value/State.antt =====
-- States by what they say: values up to the order of entries and the identity of objects.
use mathlib.Core.Quot
use mathlib.Core.Quot.{Quot, Quot-set}
use text.Mathlib.TextEquality.{IsScalar-prop}
use cositos.Base.{◌≡◌, ap, ◌↔◌, Option}
use cositos.Value.{Address, Value}
use cositos.Value.View.{Shape, view, Same}

abbrev pub State : Type 0
State = Quot Same

abbrev pub said : Value → State
said v = Quot.mk v

Shape-set : IsSet (Option Shape)
Shape-set = hlevel IsScalar-prop

abbrev look : Address → State → Option Shape
look p = Quot.lift Shape-set (view p) (λ v w h. h p)

-- Two values are one state just if they say the same everywhere.
pub said-Same_iff : (v w : Value) → (said v ≡ said w) ↔ Same v w
said-Same_iff v w = (λ e p. ap (look p) e, λ h. Quot.sound h)
