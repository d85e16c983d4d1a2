-- ===== src/Base/Distinct.antt =====
-- Lists without repetition: what stands in a list, and what does not.
use mathlib.Core.List.{append-nil, append_assoc}
use mathlib.Core.Path.{subst}
use slayer_os.Base.{◌≡◌, ◌≢◌, ◌⊎◌, ◌∙◌, refl, sym, inl, inr, List, [], ◌∷◌, ◌++◌}

module _ {A : Type 0} where
  abbrev pub Among : A → List A → Type 0
  Among a [] = ⊥
  Among a (x ∷ xs) = (a ≡ x) ⊎ Among a xs

  abbrev pub Avoids : A → List A → Type 0
  Avoids a [] = Unit
  Avoids a (x ∷ xs) = (a ≢ x) × Avoids a xs

  abbrev pub Distinct : List A → Type 0
  Distinct [] = Unit
  Distinct (x ∷ xs) = Avoids x xs × Distinct xs

  abbrev pub last : A → List A → A
  last a [] = a
  last a (x ∷ xs) = last x xs

  pub Avoids-Among : (a b : A) (xs : List A) → Avoids a xs → Among b xs → a ≢ b
  Avoids-Among a b [] av am = absurd am
  Avoids-Among a b (x ∷ xs) (ne, av) (inl e) = λ same. ne (same ∙ e)
  Avoids-Among a b (x ∷ xs) (ne, av) (inr am) = Avoids-Among a b xs av am

  pub last-Among : (a : A) (xs : List A) → Among (last a xs) (a ∷ xs)
  last-Among a [] = inl refl
  last-Among a (x ∷ xs) = inr (last-Among x xs)

  pub Avoids-append : (a : A) (xs ys : List A) → Avoids a xs → Avoids a ys → Avoids a (xs ++ ys)
  Avoids-append a [] ys h k = k
  Avoids-append a (x ∷ xs) ys (ne, h) k = (ne, Avoids-append a xs ys h k)

  pub Avoids-front : (a : A) (xs ys : List A) → Avoids a (xs ++ ys) → Avoids a xs
  Avoids-front a [] ys h = tt
  Avoids-front a (x ∷ xs) ys (ne, h) = (ne, Avoids-front a xs ys h)

  pub Avoids-back : (a : A) (xs ys : List A) → Avoids a (xs ++ ys) → Avoids a ys
  Avoids-back a [] ys h = h
  Avoids-back a (x ∷ xs) ys (ne, h) = Avoids-back a xs ys h

  pub Distinct-snoc : (xs : List A) (t : A) → Distinct xs → Avoids t xs → Distinct (xs ++ (t ∷ []))
  Distinct-snoc [] t d av = (tt, tt)
  Distinct-snoc (x ∷ xs) t (a, d) (ne, av) =
      (Avoids-append x xs (t ∷ []) a ((λ e. ne (sym e)), tt), Distinct-snoc xs t d av)

  -- Without the element in the middle.
  pub Distinct-drop :
      (xs : List A) (t : A) (ys : List A) → Distinct (xs ++ (t ∷ ys)) → Distinct (xs ++ ys)
  Distinct-drop [] t ys (_, d) = d
  Distinct-drop (x ∷ xs) t ys (a, d) = (
    Avoids-append x xs ys (Avoids-front x xs (t ∷ ys) a) (Avoids-back x xs (t ∷ ys) a).1,
    Distinct-drop xs t ys d,
  )

  -- The element in the middle stands nowhere else.
  pub Distinct-middle :
      (xs : List A) (t : A) (ys : List A) → Distinct (xs ++ (t ∷ ys)) → Avoids t xs × Avoids t ys
  Distinct-middle [] t ys (a, _) = (tt, a)
  Distinct-middle (x ∷ xs) t ys (a, d) =
      let (front, back) = Distinct-middle xs t ys d in
      (((λ e. (Avoids-back x xs (t ∷ ys) a).0 (sym e)), front), back)

  pub last-append :
      (a : A) (xs : List A) (y : A) (ys : List A) → last a (xs ++ (y ∷ ys)) ≡ last y ys
  last-append a [] y ys = refl
  last-append a (x ∷ xs) y ys = last-append x xs y ys

  pub Distinct-front : (xs ys : List A) → Distinct (xs ++ ys) → Distinct xs
  Distinct-front [] ys d = tt
  Distinct-front (x ∷ xs) ys (a, d) = (Avoids-front x xs ys a, Distinct-front xs ys d)

  -- What stands in front does not stand behind.
  pub Distinct-across : (a : A) (xs ys : List A) → Distinct (xs ++ ys) → Among a xs → Avoids a ys
  Distinct-across a [] ys d am = absurd am
  Distinct-across a (x ∷ xs) ys (av, d) (inl e) = rw e (Avoids-back x xs ys av)
  Distinct-across a (x ∷ xs) ys (av, d) (inr am) = Distinct-across a xs ys d am

  Distinct-to_back :
      (xs ys : List A) (t : A) → Distinct (t ∷ (xs ++ ys)) → Distinct (xs ++ (ys ++ (t ∷ [])))
  Distinct-to_back xs ys t (a, d) =
      subst Distinct (append_assoc xs ys (t ∷ [])) (Distinct-snoc (xs ++ ys) t d a)

  pub Distinct-rotate : (xs ys : List A) → Distinct (xs ++ ys) → Distinct (ys ++ xs)
  Distinct-rotate [] ys d = subst Distinct (sym (append-nil ys)) d
  Distinct-rotate (x ∷ xs) ys d =
      subst Distinct (append_assoc ys (x ∷ []) xs)
        (Distinct-rotate xs (ys ++ (x ∷ [])) (Distinct-to_back xs ys x d))
