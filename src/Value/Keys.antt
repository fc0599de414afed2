-- ===== src/Value/Keys.antt =====
-- Keys of containers: a string, or a Python integer (a list index or an integer dict key).
use text.Mathlib.Text.{◌==◌}
use text.Mathlib.TextEquality.{eq_iff}
use cositos.Base.{ℕ, ◌≡◌, refl, ◌↔◌, Bool, true, false, String, List, arith, nat_eq, nat_eq_iff}

-- `negsuc n` is -(n + 1).
pub data ℤ : Type 0 where
  pos : ℕ → ℤ
  negsuc : ℕ → ℤ

pub data Key : Type 0 where
  name : String → Key
  index : ℤ → Key

-- A path into a state: what `buffer_paths` lists.
abbrev pub Address : Type 0
Address = List Key

unfoldable pub int_eq : ℤ → ℤ → Bool
int_eq (pos a) (pos b) = nat_eq a b
int_eq (negsuc a) (negsuc b) = nat_eq a b
int_eq (pos a) (negsuc b) = false
int_eq (negsuc a) (pos b) = false

pub int_eq_iff : (a b : ℤ) → (int_eq a b ≡ true) ↔ (a ≡ b)
unfolding int_eq
int_eq_iff (pos a) (pos b) = ground (arith, nat_eq_iff a b)
int_eq_iff (negsuc a) (negsuc b) = ground (arith, nat_eq_iff a b)
int_eq_iff (pos a) (negsuc b) = ground arith
int_eq_iff (negsuc a) (pos b) = ground arith

-- `==` of two keys, by which a dict finds its entries.
unfoldable pub key_eq : Key → Key → Bool
unfolding int_eq
key_eq (name s) (name t) = s == t
key_eq (index a) (index b) = int_eq a b
key_eq (name s) (index b) = false
key_eq (index a) (name t) = false

pub key_eq_iff : (a b : Key) → (key_eq a b ≡ true) ↔ (a ≡ b)
unfolding key_eq
key_eq_iff (name s) (name t) = ground (arith, eq_iff s t)
key_eq_iff (index a) (index b) = unfold key_eq in ground (arith, int_eq_iff a b)
key_eq_iff (name s) (index b) = ground arith
key_eq_iff (index a) (name t) = ground arith

pub key_eq_refl : (a : Key) → key_eq a a ≡ true
key_eq_refl a = (key_eq_iff a a).1 refl
