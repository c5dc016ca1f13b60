-- ===== src/Prelude/Bags.antt =====
-- Lists up to their order, by way of the library's multisets.
use mathlib.Core.Path.{◌≡◌, refl, sym, ap, ◌∙◌}
use mathlib.Core.List.{List, [], ◌∷◌, ◌++◌, Perm, flat_map, perm_middle}
use mathlib.Core.List.Perm
use mathlib.Core.Quot.{sound}
use mathlib.Mathlib.Data.Multiset.Defs.{of_list, coe-eq-coe}
use mathlib.Mathlib.Data.Multiset.Bind.{bind, coe-bind}
use prometheus_obs_exporter.Prelude.Lists.{concat_map}

module _ {A B : Type 0} (f : A → List B) where
  concat_map-eq-flat_map : (xs : List A) → flat_map f xs ≡ concat_map f xs
  unfolding flat_map
  concat_map-eq-flat_map [] = refl
  concat_map-eq-flat_map (x ∷ xs) = ap (λ ys. f x ++ ys) (concat_map-eq-flat_map xs)

  of_list-concat_map :
      (xs : List A) → bind (of_list xs) (λ x. of_list (f x)) ≡ of_list (concat_map f xs)
  of_list-concat_map xs = coe-bind xs f ∙ ap of_list (concat_map-eq-flat_map xs)

  pub Perm-concat_map : {xs ys : List A} → Perm xs ys → Perm (concat_map f xs) (concat_map f ys)
  Perm-concat_map {xs} {ys} p = coe-eq-coe.0 (
      sym (of_list-concat_map xs)
      ∙ ap (λ m. bind m (λ x. of_list (f x))) (sound p)
      ∙ of_list-concat_map ys)

pub swap_blocks : {A : Type 0} (xs ys zs : List A) → Perm (xs ++ (ys ++ zs)) (ys ++ (xs ++ zs))
swap_blocks [] ys zs = Perm.refl (ys ++ zs)
swap_blocks (x ∷ xs) ys zs =
    Perm.trans (Perm.cons x (swap_blocks xs ys zs)) (Perm.symm (perm_middle ys (xs ++ zs)))
