-- ===== src/Paths/Equality.antt =====
-- `==` of two paths is equality of their components.
use claudepod.Prelude.{
  ◌≡◌, ◌↔◌, refl, ◌∙◌, true, List, [], ◌∷◌, Bytes, bytes_eq→eq, bytes_eq_refl, arith,
}
use claudepod.Paths.{components, parts_eq, path_eq}

parts_eq→eq : (xs ys : List Bytes) → parts_eq xs ys ≡ true → xs ≡ ys
unfolding parts_eq
parts_eq→eq [] [] h = refl
parts_eq→eq [] (y ∷ ys) h = cc
parts_eq→eq (x ∷ xs) [] h = cc
parts_eq→eq (x ∷ xs) (y ∷ ys) h = ground (arith, bytes_eq→eq x y, parts_eq→eq xs ys)

parts_eq_refl : (xs : List Bytes) → parts_eq xs xs ≡ true
unfolding parts_eq
parts_eq_refl [] = refl
parts_eq_refl (x ∷ xs) = ground (arith, bytes_eq_refl x, parts_eq_refl xs)

pub path_eq_iff : (a b : Bytes) → (path_eq a b ≡ true) ↔ (components a ≡ components b)
unfolding path_eq
path_eq_iff a b =
    (λ h. parts_eq→eq (components a) (components b) h, λ e. rw e (parts_eq_refl (components b)))

pub path_eq_trans : (a b c : Bytes) → path_eq a b ≡ true → path_eq b c ≡ true → path_eq a c ≡ true
path_eq_trans a b c h k = (path_eq_iff a c).1 ((path_eq_iff a b).0 h ∙ (path_eq_iff b c).0 k)
