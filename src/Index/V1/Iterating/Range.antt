-- ===== src/Index/V1/Iterating/Range.antt =====
-- The contents of a range, for Iterate of repo/content/index/index_v1.go: those between two places of a
-- sorted list.
use kopia.Prelude.{
  ℕ, zero, suc, ◌+◌, ◌<◌, ◌≡◌, refl, sym, ◌∙◌, inl, inr, Bool, true, false, not, List, [], ◌∷◌, map,
  some, drop, get_elem?, arith, All, if◌then◌else◌, Result, ok, err, ◌>>=◌, Bool-cases,
}
use kopia.Index.ContentId.{
  IdRange, IsValid, compare_prefix, compare_bytes, to_string, is_lt, contains,
}
use kopia.Index.ContentId.Order.{less-to_string, compare_prefix-to_string}
use kopia.Index.Builder.Sorting.{Below, less-key, is_lt-lt}
use kopia.Index.Info.{Info}
use kopia.Index.V1.Keys.{IsSorted, not_below_trans}

-- the contents of a range
unfoldable pub in_range : IdRange → List Info → List Info
in_range r [] = []
in_range r (it ∷ its) =
    let rest = in_range r its in if contains r it.content_id then it ∷ rest else rest

-- the callback for one content after the other, until it fails
unfoldable pub call_for_all : {E S : Type 0} → (Info → S → Result E S) → List Info → S → Result E S
call_for_all cb [] s = ok s
call_for_all cb (i ∷ is) s = do s1 ← cb i s; call_for_all cb is s1

abbrev pub HasId : Info → Type 0
HasId it = IsValid it.content_id

-- is a content not below a text?
abbrev pub from : List ℕ → Info → Bool
from p it = not (is_lt (compare_prefix it.content_id p))

pub flip : (b : Bool) → not b ≡ true → b ≡ false
flip b h = ground (arith, h)

pub from-Below :
    (p : List ℕ) (v w : Info) → HasId v → HasId w → Below v w → from p v ≡ true → from p w ≡ true
from-Below p v w hv hw b h =
    let strings : is_lt (compare_bytes (to_string v.content_id) (to_string w.content_id)) ≡ true =
      sym (less-to_string v.content_id w.content_id hv hw) ∙ (less-key v w ∙ rw b refl) in
    let below : is_lt (compare_bytes (to_string v.content_id) p) ≡ false =
      rw (compare_prefix-to_string v.content_id p hv) at (flip _ h) in
    let above =
      not_below_trans (to_string v.content_id) (to_string w.content_id) p (is_lt-lt _ strings)
        below in
    rw (compare_prefix-to_string w.content_id p hw, above) refl

flip_false : (b : Bool) → not b ≡ false → b ≡ true
flip_false b h = ground (arith, h)

pub bind_same :
    {E S T : Type 0} (x : Result E S) (f g : S → Result E T)
    → ((s : S) → f s ≡ g s)
    → (x >>= f) ≡ (x >>= g)
bind_same (ok a) f g h = h a
bind_same (err e) f g h = refl

-- The loop over a list: until the end of the range.
unfoldable pub walk :
    {E S : Type 0} → (Info → S → Result E S) → (Info → Info) → List ℕ → List Info → S → Result E S
walk cb f end [] s = ok s
walk cb f end (it ∷ its) s =
    if from end it then ok s else (do s1 ← cb (f it) s; walk cb f end its s1)

-- lists without their first elements

pub All-drop {κ} : (P : Info → Type κ) (q : ℕ) (xs : List Info) → All P xs → All P (drop q xs)
All-drop P zero xs a = a
All-drop P (suc q) [] a = tt
All-drop P (suc q) (x ∷ xs) a = All-drop P q xs a.1

pub IsSorted-drop : (q : ℕ) (xs : List Info) → IsSorted xs → IsSorted (drop q xs)
IsSorted-drop zero xs a = a
IsSorted-drop (suc q) [] a = tt
IsSorted-drop (suc q) (x ∷ xs) a = IsSorted-drop q xs a.1

pub get_elem?-drop : (q j : ℕ) (xs : List Info) → get_elem? (drop q xs) j ≡ get_elem? xs (q + j)
get_elem?-drop zero j xs = let e : 0 + j ≡ j = omega arith in rw e refl
get_elem?-drop (suc q) j [] = refl
get_elem?-drop (suc q) j (x ∷ xs) =
    let e : suc q + j ≡ suc (q + j) = omega arith in rw e (get_elem?-drop q j xs)

pub All-get :
    (P : Info → Type 0) (xs : List Info)
    → ((j : ℕ) (x : Info) → get_elem? xs j ≡ some x → P x)
    → All P xs
All-get P [] g = tt
All-get P (x ∷ xs) g = (g 0 x refl, All-get P xs (λ j y e. g (suc j) y e))

module _ (r : IdRange) where
  -- past the end of the range
  pub in_range-past :
      (its : List Info) → All (λ x. from r.end_id x ≡ true) its → in_range r its ≡ []
  unfolding in_range contains
  in_range-past [] a = refl
  in_range-past (it ∷ its) a =
      let past = flip _ a.0 in
      elim (Bool-cases (is_lt (compare_prefix it.content_id r.start_id))) [
        | inl q ↦ rw (q, in_range-past its a.1) refl
        | inr q ↦ rw (q, past, in_range-past its a.1) refl
      ]

  -- before the start of the range
  pub in_range-drop :
      (q : ℕ) (its : List Info)
      → ((j : ℕ) (it : Info) → j < q → get_elem? its j ≡ some it → from r.start_id it ≡ false)
      → in_range r its ≡ in_range r (drop q its)
  unfolding in_range contains
  in_range-drop zero its g = refl
  in_range-drop (suc q) [] g = refl
  in_range-drop (suc q) (it ∷ its) g =
      rw (g 0 it (omega arith) refl)
        (in_range-drop q its (λ j x lt e. g (suc j) x (omega (arith, lt)) e))

  from-All :
      (p : List ℕ) (it : Info) (its : List Info)
      → HasId it
      → All HasId its
      → All (λ w. Below it w) its
      → from p it ≡ true
      → All (λ x. from p x ≡ true) its
  from-All p it [] hv v b t = tt
  from-All p it (x ∷ its) hv v b t =
      (from-Below p it x hv v.0 b.0 t, from-All p it its hv v.1 b.1 t)

  pub walk-in_range :
      {E S : Type 0} (cb : Info → S → Result E S) (f : Info → Info) (its : List Info) (s : S)
      → IsSorted its
      → All HasId its
      → All (λ x. from r.start_id x ≡ true) its
      → walk cb f r.end_id its s ≡ call_for_all cb (map f (in_range r its)) s
  unfolding walk in_range contains call_for_all
  walk-in_range cb f [] s st v a = refl
  walk-in_range cb f (it ∷ its) s st v a = elim (Bool-cases (from r.end_id it)) [
    | inl q ↦
        let none_left = in_range-past its (from-All r.end_id it its v.0 v.1 st.0 q) in
        rw (q, a.0, flip _ q, none_left) refl
    | inr q ↦
        let inside : is_lt (compare_prefix it.content_id r.end_id) ≡ true = flip_false _ q in
        rw (q, a.0, inside)
          (bind_same (cb (f it) s) _ _ (λ t. walk-in_range cb f its t st.1 v.1 a.1))
  ]
