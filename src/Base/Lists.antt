-- ===== src/Base/Lists.antt =====
-- Lists measured and indexed by native numbers, under the library's names.
use Prim.Native.Nat.{ℕ, zero, suc, ◌+◌, ◌-◌, ◌≤◌, min}
use mathlib.Core.Path.{◌≡◌, refl, ap, sym, ◌∙◌}
use mathlib.Core.Logic.{◌⊎◌, inl, inr}
use mathlib.Core.List.{List, [], ◌∷◌, ◌++◌}
use mathlib.Core.Option.{Option, none, some}
use native.Mathlib.Omega.{arith}

module _ {ℓ} {A : Type ℓ} where
  abbrev pub length : List A → ℕ
  length [] = 0
  length (x ∷ xs) = suc (length xs)

  abbrev pub get_elem? : List A → ℕ → Option A
  get_elem? [] i = none
  get_elem? (x ∷ xs) zero = some x
  get_elem? (x ∷ xs) (suc i) = get_elem? xs i

  abbrev pub get_or : List A → ℕ → A → A
  get_or [] i d = d
  get_or (x ∷ xs) zero d = x
  get_or (x ∷ xs) (suc i) d = get_or xs i d

  -- A write out of bounds changes nothing.
  abbrev pub set : List A → ℕ → A → List A
  set [] i v = []
  set (x ∷ xs) zero v = v ∷ xs
  set (x ∷ xs) (suc i) v = x ∷ set xs i v

  abbrev pub take : ℕ → List A → List A
  take zero xs = []
  take (suc n) [] = []
  take (suc n) (x ∷ xs) = x ∷ take n xs

  abbrev pub drop : ℕ → List A → List A
  drop zero xs = xs
  drop (suc n) [] = []
  drop (suc n) (x ∷ xs) = drop n xs

  pub length-append : (xs ys : List A) → length (xs ++ ys) ≡ length xs + length ys
  length-append [] ys = omega arith
  length-append (x ∷ xs) ys = omega (arith, length-append xs ys)

  pub length-take : (n : ℕ) (xs : List A) → length (take n xs) ≡ min n (length xs)
  length-take zero xs = omega arith
  length-take (suc n) [] = omega arith
  length-take (suc n) (x ∷ xs) = omega (arith, length-take n xs)

  pub length-drop : (n : ℕ) (xs : List A) → length (drop n xs) ≡ length xs - n
  length-drop zero xs = omega arith
  length-drop (suc n) [] = omega arith
  length-drop (suc n) (x ∷ xs) = omega (arith, length-drop n xs)

module _ {ℓ} {A : Type ℓ} where
  pub take-append_self : (xs ys : List A) → take (length xs) (xs ++ ys) ≡ xs
  take-append_self [] ys = refl
  take-append_self (x ∷ xs) ys = ap (λ t. x ∷ t) (take-append_self xs ys)

  pub drop-append_self : (xs ys : List A) → drop (length xs) (xs ++ ys) ≡ ys
  drop-append_self [] ys = refl
  drop-append_self (x ∷ xs) ys = drop-append_self xs ys

-- Membership by recursion, which computes to sums that the tactics read.
module _ {ℓ} {A : Type ℓ} where
  pub data In (x : A) : List A → Type ℓ where
    here : {y : A} {ys : List A} → y ≡ x → In x (y ∷ ys)
    there : {y : A} {ys : List A} → In x ys → In x (y ∷ ys)

module _ {ℓ κ} {A : Type ℓ} (P : A → Type κ) where
  abbrev pub All : List A → Type κ
  All [] = Unit
  All (x ∷ xs) = P x × All xs

  pub All-append : (xs ys : List A) → All xs → All ys → All (xs ++ ys)
  All-append [] ys _ hy = hy
  All-append (x ∷ xs) ys (px, hx) hy = (px, All-append xs ys hx hy)

  pub All-append_left : (xs ys : List A) → All (xs ++ ys) → All xs
  All-append_left [] ys h = tt
  All-append_left (x ∷ xs) ys (px, h) = (px, All-append_left xs ys h)

  pub All-append_right : (xs ys : List A) → All (xs ++ ys) → All ys
  All-append_right [] ys h = h
  All-append_right (x ∷ xs) ys (px, h) = All-append_right xs ys h

  pub All_at : {x : A} {xs : List A} → In x xs → All xs → P x
  All_at {x} (In.here e) (p, _) = rw (← e) p
  All_at (In.there m) (_, h) = All_at m h

module _ {ℓ} {A : Type ℓ} (P : A → Type 0) where
  abbrev pub Any : List A → Type 0
  Any [] = ⊥
  Any (x ∷ xs) = P x ⊎ Any xs

  pub Any-append_left : (xs ys : List A) → Any xs → Any (xs ++ ys)
  Any-append_left [] ys h = elim h [ ]
  Any-append_left (x ∷ xs) ys (inl p) = inl p
  Any-append_left (x ∷ xs) ys (inr h) = inr (Any-append_left xs ys h)

  pub Any-append_right : (xs ys : List A) → Any ys → Any (xs ++ ys)
  Any-append_right [] ys h = h
  Any-append_right (x ∷ xs) ys h = inr (Any-append_right xs ys h)

pub All_map {ℓ κ μ} :
    {A : Type ℓ} {P : A → Type κ} {Q : A → Type μ} (xs : List A)
    → ((x : A) → P x → Q x)
    → All P xs
    → All Q xs
All_map [] f h = tt
All_map (x ∷ xs) f (p, h) = (f x p, All_map xs f h)

pub Any-map {ℓ} :
    {A : Type ℓ} {P Q : A → Type 0} (xs : List A) → ((x : A) → P x → Q x) → Any P xs → Any Q xs
Any-map [] f h = elim h [ ]
Any-map (x ∷ xs) f (inl p) = inl (f x p)
Any-map (x ∷ xs) f (inr h) = inr (Any-map xs f h)

-- Every element is in the relation with each element behind it.
module _ {ℓ} {A : Type ℓ} (R : A → A → Type 0) where
  abbrev pub Pairwise : List A → Type 0
  Pairwise [] = Unit
  Pairwise (x ∷ xs) = All (R x) xs × Pairwise xs

  pub Pairwise-concat :
      (xs : List A) (y : A) → Pairwise xs → All (λ x. R x y) xs → Pairwise (xs ++ y ∷ [])
  Pairwise-concat [] y h k = (tt, tt)
  Pairwise-concat (x ∷ xs) y (hx, h) (kx, k) =
      (All-append (R x) xs (y ∷ []) hx (kx, tt), Pairwise-concat xs y h k)

-- Distinct elements of a list are no more than the list holds.
module _ {ℓ} {A : Type ℓ} {x : A} where
  removed : {ys : List A} → In x ys → List A
  removed (In.here {y} {ys} e) = ys
  removed (In.there {y} m) = y ∷ removed m

  length-removed : {ys : List A} (m : In x ys) → length ys ≡ suc (length (removed m))
  unfolding removed
  length-removed (In.here e) = refl
  length-removed (In.there m) = ap suc (length-removed m)

  In-removed : {ys : List A} (m : In x ys) (z : A) → (x ≡ z → ⊥) → In z ys → In z (removed m)
  unfolding removed
  In-removed (In.here e) z ne (In.here f) = absurd (ne (sym e ∙ f))
  In-removed (In.here e) z ne (In.there k) = k
  In-removed (In.there m) z ne (In.here f) = In.here f
  In-removed (In.there m) z ne (In.there k) = In.there (In-removed m z ne k)

module _ {κ} {A : Type 0} {B : Type κ} (f : B → A) where
  All-removed :
      {x : A} {ys : List A} (m : In x ys) (bs : List B)
      → All (λ b. x ≡ f b → ⊥) bs
      → All (λ b. In (f b) ys) bs
      → All (λ b. In (f b) (removed m)) bs
  All-removed m [] ne h = tt
  All-removed m (b ∷ bs) (ne, nes) (h, hs) = (In-removed m (f b) ne h, All-removed m bs nes hs)

  pub length-le_distinct :
      (bs : List B) (ys : List A)
      → Pairwise (λ b c. f b ≡ f c → ⊥) bs
      → All (λ b. In (f b) ys) bs
      → length bs ≤ length ys
  length-le_distinct [] ys d h = omega arith
  length-le_distinct (b ∷ bs) ys (ne, d) (m, h) =
      omega (arith, length-removed m, length-le_distinct bs (removed m) d (All-removed m bs ne h))

module _ {ℓ κ μ} {A : Type ℓ} (P : A → Type κ) (Q : A → Type μ) where
  pub All_zip : (xs : List A) → All P xs → All Q xs → All (λ x. P x × Q x) xs
  All_zip [] h k = tt
  All_zip (x ∷ xs) (p, h) (q, k) = ((p, q), All_zip xs h k)

pub List-cases {ℓ} :
    {A : Type ℓ} (xs : List A) → (xs ≡ []) ⊎ ((x : A) × (ys : List A) × (xs ≡ x ∷ ys))
List-cases [] = inl refl
List-cases (x ∷ xs) = inr (x, xs, refl)

-- What stands at an index, from what the list has there on.
module _ {ℓ} {A : Type ℓ} where
  abbrev pub head? : List A → Option A
  head? [] = none
  head? (x ∷ xs) = some x

  abbrev pub tail : List A → List A
  tail [] = []
  tail (x ∷ xs) = xs

  pub get_elem?-drop : (xs : List A) (i : ℕ) → get_elem? xs i ≡ head? (drop i xs)
  get_elem?-drop [] zero = refl
  get_elem?-drop [] (suc i) = refl
  get_elem?-drop (x ∷ xs) zero = refl
  get_elem?-drop (x ∷ xs) (suc i) = get_elem?-drop xs i

  pub drop-suc : (xs : List A) (i : ℕ) → drop (suc i) xs ≡ tail (drop i xs)
  drop-suc [] zero = refl
  drop-suc [] (suc i) = refl
  drop-suc (x ∷ xs) zero = refl
  drop-suc (x ∷ xs) (suc i) = drop-suc xs i

  drop-nil : (j : ℕ) → drop {A = A} j [] ≡ []
  drop-nil zero = refl
  drop-nil (suc j) = refl

  pub drop_add : (i j : ℕ) (xs ys : List A) → drop i xs ≡ ys → drop (i + j) xs ≡ drop j ys
  drop_add zero j xs ys e = ap (λ n. drop n xs) (omega arith) ∙ ap (drop j) e
  drop_add (suc i) j [] ys e = drop-nil (suc i + j) ∙ sym (drop-nil j) ∙ ap (drop j) e
  drop_add (suc i) j (x ∷ xs) ys e =
      let suc_add : suc i + j ≡ suc (i + j) = omega arith in
      ap (λ n. drop n (x ∷ xs)) suc_add ∙ drop_add i j xs ys e

  -- The elements in front of an index and those behind a prefix of what stands there.
  pub drop-append :
      (i : ℕ) (xs ys zs : List A) → drop i xs ≡ ys ++ zs → drop (i + length ys) xs ≡ zs
  drop-append i xs ys zs e = drop_add i (length ys) xs (ys ++ zs) e ∙ drop-append_self ys zs

  pub get_elem?-ahead :
      (xs : List A) (i : ℕ) (y : A) (ys : List A) → drop i xs ≡ y ∷ ys → get_elem? xs i ≡ some y
  get_elem?-ahead xs i y ys e = get_elem?-drop xs i ∙ ap head? e

  pub length-ahead :
      (xs : List A) (i : ℕ) (y : A) (ys : List A)
      → drop i xs ≡ y ∷ ys
      → length xs ≡ i + suc (length ys)
  length-ahead xs i y ys e = omega (arith, length-drop i xs, ap length e)
