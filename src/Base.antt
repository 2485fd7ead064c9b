-- ===== src/Base.antt =====
-- The names that the other modules share: the libraries', passed on, and those of three children.
mod Tests
mod Lists
mod Text
mod Throwing
pub use Tests.*
pub use Lists.*
pub use Text.{Bytes, beq_iff, sp, newline}
unfoldable pub use Text.{text, beq, blt}
pub use Throwing.*
pub use Prim.Native.Nat.{ℕ, zero, suc, ◌+◌, ◌-◌, ◌*◌, ◌/◌, ◌%◌, ◌^◌, ◌≤◌, ◌<◌}
pub use mathlib.Core.Path.{◌≡◌, refl, sym, ap, subst, ◌∙◌, ◌≡⟨◌⟩◌, ◌∎}
pub use mathlib.Core.Logic.{◌≢◌, ◌↔◌, ◌⊎◌, inl, inr}
pub use mathlib.Core.Bool.{Bool, true, false, ◌&&◌, ◌||◌, not}
pub use mathlib.Core.Option.{Option, none, some}
pub use mathlib.Core.List.{List, [], ◌∷◌, ◌++◌, map, append-nil, append_assoc}
pub use native.Mathlib.Omega.{arith}

pub length_nonempty {ℓ} : {A : Type ℓ} (xs : List A) → xs ≢ [] → (length xs == 0) ≡ false
length_nonempty [] h = absurd (h refl)
length_nonempty (x ∷ xs) h = ground arith
