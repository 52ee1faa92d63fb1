-- ===== src/Text/Search.antt =====
-- Searching and comparing strings.
use sbunix.Base.{
  ℕ, zero, suc, ◌+◌, ◌<◌, ◌≡◌, ◌≢◌, ◌++◌, length, refl, sym, ◌∙◌, ap, ap₂, inl, inr, true, false,
  ◌==◌, arith, Bool-cases, eq_of_==, Option, none, some, [], ◌∷◌, All,
}
use sbunix.Base.Int.{pos, sub_ℕ, pos_part, is_negative}
use sbunix.Text.{Text, strcmp, begins, strstr, after, skip}

-- The needle stands in the text after the first `i` bytes.
abbrev pub Occurs : Text → Text → ℕ → Type 0
Occurs h n i = (pre : Text) × ((post : Text) × (length pre ≡ i) × (h ≡ pre ++ (n ++ post)))

-- What `strstr` may return: the first occurrence, or null when there is none.
abbrev pub IsFirst : Text → Text → Option ℕ → Type 0
IsFirst h n none = (j : ℕ) → ¬ Occurs h n j
IsFirst h n (some i) = Occurs h n i × ((j : ℕ) → j < i → ¬ Occurs h n j)

begins-Occurs : (h n : Text) → begins h n ≡ true → Occurs h n 0
unfolding begins
begins-Occurs h [] e = ([], (h, refl, refl))
begins-Occurs [] (y ∷ n) e = absurd (ground (arith, e))
begins-Occurs (x ∷ h) (y ∷ n) e = more (begins-Occurs h n (ground (arith, e)))
  where
    same : x ≡ y
    same = ground (arith, e)

    more : Occurs h n 0 → Occurs (x ∷ h) (y ∷ n) 0
    more ([], (post, l, q)) = ([], (post, refl, ap₂ (λ c s. c ∷ s) same q))
    more (z ∷ pre, (post, l, q)) = absurd (omega (arith, l))

-- A text that starts with the needle passes the test.
begins-append : (n post : Text) → begins (n ++ post) n ≡ true
unfolding begins
begins-append [] post = refl
begins-append (y ∷ n) post = ground (arith, begins-append n post)

not_Occurs_here : (h n : Text) → begins h n ≡ false → ¬ Occurs h n 0
not_Occurs_here h n e ([], (post, l, q)) =
    ground (arith, sym e ∙ ap (λ t. begins t n) q ∙ begins-append n post)
not_Occurs_here h n e (z ∷ pre, (post, l, q)) = absurd (omega (arith, l))

Occurs-cons : (h n : Text) (i x : ℕ) → Occurs h n i → Occurs (x ∷ h) n (i + 1)
Occurs-cons h n i x (pre, (post, l, q)) = (x ∷ pre, (post, omega (arith, l), ap (λ s. x ∷ s) q))

Occurs-tail : (h n : Text) (x i : ℕ) → Occurs (x ∷ h) n (suc i) → Occurs h n i
Occurs-tail h n x i ([], (post, l, q)) = absurd (omega (arith, l))
Occurs-tail h n x i (z ∷ pre, (post, l, q)) = (pre, (post, omega (arith, l), ap (skip 1) q))

-- `strstr` returns the number of bytes before the first occurrence of the needle, and the null
-- pointer when the needle does not occur.
pub strstr-IsFirst : (h n : Text) → IsFirst h n (strstr h n)
unfolding strstr
strstr-IsFirst [] [] = (([], ([], refl, refl)), λ j q. absurd (omega arith))
strstr-IsFirst [] (y ∷ n) = nowhere
  where
    nowhere : (j : ℕ) → ¬ Occurs [] (y ∷ n) j
    nowhere j ([], (post, l, q)) = omega (arith, ap length q)
    nowhere j (z ∷ pre, (post, l, q)) = omega (arith, ap length q)
strstr-IsFirst (x ∷ h) n = elim (Bool-cases (begins (x ∷ h) n)) [
  | inl e ↦ rw e (begins-Occurs (x ∷ h) n e, λ j q. absurd (omega arith))
  | inr e ↦ rw e (more (strstr h n) (strstr-IsFirst h n) e)
]
  where
    later :
        (j : ℕ)
        → begins (x ∷ h) n ≡ false
        → ((k : ℕ) → suc k ≡ j → ¬ Occurs h n k)
        → ¬ Occurs (x ∷ h) n j
    later zero e r at = not_Occurs_here (x ∷ h) n e at
    later (suc j) e r at = r j refl (Occurs-tail h n x j at)

    more : (r : Option ℕ) → IsFirst h n r → begins (x ∷ h) n ≡ false → IsFirst (x ∷ h) n (after r)
    more none f e = λ j. later j e (λ k _. f k)
    more (some i) (at, f) e =
        (Occurs-cons h n i x at, λ j q. later j e (λ k u. f k (omega (arith, u, q))))

differ : (x y : ℕ) → x ≢ y → sub_ℕ x y ≢ pos 0
differ x y ne e = ground (arith, ap pos_part e, ap is_negative e)

-- `strcmp` returns 0 for equal strings only, when their bytes are not the terminator's.
pub strcmp_zero :
    (a b : Text) → All (λ c. 0 < c) a → All (λ c. 0 < c) b → strcmp a b ≡ pos 0 → a ≡ b
unfolding strcmp
strcmp_zero [] [] p q e = refl
strcmp_zero [] (y ∷ b) p q e = absurd (differ 0 y (omega (arith, q.0)) e)
strcmp_zero (x ∷ a) [] p q e = absurd (differ x 0 (omega (arith, p.0)) e)
strcmp_zero (x ∷ a) (y ∷ b) p q e = elim (Bool-cases (x == y)) [
  | inl t ↦ ap₂ (λ c s. c ∷ s) (eq_of_== x y t) (strcmp_zero a b p.1 q.1 (ground arith))
  | inr t ↦ absurd (differ x y (ground arith) (ground arith))
]

-- No string differs from itself.
strcmp_refl : (a : Text) → strcmp a a ≡ pos 0
unfolding strcmp
strcmp_refl [] = refl
strcmp_refl (x ∷ a) = ground (arith, strcmp_refl a)
