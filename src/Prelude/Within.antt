-- ===== src/Prelude/Within.antt =====
-- A list that is another with some elements taken out.
use mathlib.Core.Path.{◌≡◌, refl, subst}
use mathlib.Core.List.{List, [], ◌∷◌, ◌++◌}

pub data Within {ℓ} {A : Type ℓ} : List A → List A → Type ℓ where
  nothing : Within [] []
  also : (b : A) (xs ys : List A) → Within xs ys → Within (b ∷ xs) (b ∷ ys)
  without : (b : A) (xs ys : List A) → Within xs ys → Within xs (b ∷ ys)

module _ {ℓ} {A : Type ℓ} where
  pub Within-all : (xs : List A) → Within xs xs
  Within-all [] = nothing
  Within-all (x ∷ xs) = also x xs xs (Within-all xs)

  pub Within-append :
      (xs ys us vs : List A) → Within xs ys → Within us vs → Within (xs ++ us) (ys ++ vs)
  Within-append _ _ us vs nothing w = w
  Within-append _ _ us vs (also b xs ys o) w =
      also b (xs ++ us) (ys ++ vs) (Within-append xs ys us vs o w)
  Within-append _ _ us vs (without b xs ys o) w =
      without b (xs ++ us) (ys ++ vs) (Within-append xs ys us vs o w)

  -- What is within a list is within a longer one,
  pub Within-last : (xs ys : List A) (y : A) → Within xs ys → Within xs (ys ++ y ∷ [])
  Within-last _ _ y nothing = without y [] [] nothing
  Within-last _ _ y (also b xs ys w) = also b xs (ys ++ y ∷ []) (Within-last xs ys y w)
  Within-last _ _ y (without b xs ys w) = without b xs (ys ++ y ∷ []) (Within-last xs ys y w)

  -- and so it is with an element less.
  pub Within-less :
      (xs us : List A) (x : A) (list zs : List A)
      → list ≡ xs ++ x ∷ us
      → Within list zs
      → Within (xs ++ us) zs
  Within-less [] us x _ _ e nothing = cc
  Within-less (y ∷ xs) us x _ _ e nothing = cc
  Within-less [] us x _ _ e (also b xs' ys w) = without b us ys (subst (λ l. Within l ys) (cc) w)
  Within-less (y ∷ xs) us x _ _ e (also b xs' ys w) =
      subst (λ c. Within (c ∷ (xs ++ us)) (b ∷ ys)) (cc)
        (also b (xs ++ us) ys (Within-less xs us x xs' ys (cc) w))
  Within-less xs us x list _ e (without b _ ys w) =
      without b (xs ++ us) ys (Within-less xs us x list ys e w)

  Within-nil : (ys : List A) → Within [] ys
  Within-nil [] = nothing
  Within-nil (y ∷ ys) = without y [] ys (Within-nil ys)

  pub Within-front : (xs us zs : List A) → Within (xs ++ us) zs → Within xs zs
  Within-front xs us zs w = go xs (xs ++ us) zs refl w
    where
      go : (xs list zs : List A) → list ≡ xs ++ us → Within list zs → Within xs zs
      go [] _ zs e w = Within-nil zs
      go (x ∷ xs) _ _ e nothing = cc
      go (x ∷ xs) _ _ e (also b l ys w) =
          subst (λ c. Within (c ∷ xs) (b ∷ ys)) (cc) (also b xs ys (go xs l ys (cc) w))
      go (x ∷ xs) list _ e (without b _ ys w) = without b (x ∷ xs) ys (go (x ∷ xs) list ys e w)

  pub Within-trans : (xs ys zs : List A) → Within xs ys → Within ys zs → Within xs zs
  Within-trans xs ys zs v w = go xs ys ys zs refl v w
    where
      go : (xs ys list zs : List A) → list ≡ ys → Within xs ys → Within list zs → Within xs zs
      go _ _ list zs e nothing w = Within-nil zs
      go _ _ _ _ e (also b xs ys v) nothing = cc
      go _ _ _ _ e (also b xs ys v) (also b' l zs w) =
          subst (λ c. Within (c ∷ xs) (b' ∷ zs)) (cc) (also b' xs zs (go xs ys l zs (cc) v w))
      go _ _ _ _ e (also b xs ys v) (without b' list zs w) =
          without b' (b ∷ xs) zs (go (b ∷ xs) (b ∷ ys) list zs e (also b xs ys v) w)
      go _ _ _ _ e (without b xs ys v) nothing = cc
      go _ _ _ _ e (without b xs ys v) (also b' l zs w) = without b' xs zs (go xs ys l zs (cc) v w)
      go _ _ _ _ e (without b xs ys v) (without b' list zs w) =
          without b' xs zs (go xs (b ∷ ys) list zs e (without b xs ys v) w)
