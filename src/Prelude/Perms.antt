-- ===== src/Prelude/Perms.antt =====
-- Permutations and the native length.
use mathlib.Core.List
use mathlib.Core.List.{List, [], ◌∷◌, Perm}
use mathlib.Core.List.Perm
use mathlib.Core.Path.{◌≡◌, refl, ap, ◌∙◌, sym}
use Prim.Native.Nat.{suc}
use native.Mathlib.Bridge.{from_ℕ}
use dnrd.Prelude.Lists.{length}

module _ {A : Type 0} where
  length-from_ℕ : (l : List A) → length l ≡ from_ℕ (List.length l)
  length-from_ℕ [] = refl
  length-from_ℕ (x ∷ l) = ap suc (length-from_ℕ l)

  pub length-perm : {l m : List A} → Perm l m → length l ≡ length m
  length-perm {l} {m} p = length-from_ℕ l ∙ ap from_ℕ (Perm.length-eq p) ∙ sym (length-from_ℕ m)
