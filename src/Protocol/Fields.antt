-- ===== src/Protocol/Fields.antt =====
-- A field of a message: a string written over zeros is read back as that string.
use projeto_so.Base.{
  ℕ, zero, suc, ◌+◌, ◌-◌, ◌≤◌, ◌<◌, ◌≡◌, refl, ap, ◌∙◌, inl, inr, some, none, ◌==◌, Bool-cases,
  Option-cases, List, [], ◌∷◌, ◌++◌, arith, length, take, drop,
}
use projeto_so.Libc.Memory.{peek, poke}
use projeto_so.Libc.CString.{CString, IsCString}
use projeto_so.Protocol.{c_string, calloc}

-- A string with a NUL behind it ends there, whatever follows.
pub c_string_lem : (s : CString) (rest : List ℕ) → IsCString s → c_string (s ++ 0 ∷ rest) ≡ some s
unfolding c_string
c_string_lem [] rest is = refl
c_string_lem (c ∷ s) rest is = ground (arith, c_string_lem s rest is.1, is.0)

-- A string without a NUL behind it does not end.
pub c_string-none : (s : CString) → IsCString s → c_string s ≡ none
unfolding c_string
c_string-none [] is = refl
c_string-none (c ∷ s) is = ground (arith, c_string-none s is.1, is.0)

-- What is written at the start of a field stands before the rest of the field.
pub peek-poke_field :
    (m : List ℕ) (off : ℕ) (s : List ℕ) (n : ℕ)
    → length s ≤ n
    → off + n ≤ length m
    → peek (poke m off s) off n ≡ s ++ drop (length s) (peek m off n)
unfolding poke
peek-poke_field [] off [] n h fits = ground (arith)
peek-poke_field [] off (c ∷ s) n h fits = absurd (omega (arith, h, fits))
peek-poke_field (x ∷ m) (suc off) s n h fits = peek-poke_field m off s n h (omega (arith, fits))
peek-poke_field (x ∷ m) zero [] n h fits = refl
peek-poke_field (x ∷ m) zero (c ∷ s) zero h fits = absurd (omega (arith, h))
peek-poke_field (x ∷ m) zero (c ∷ s) (suc n) h fits =
    ap (c ∷◌) (peek-poke_field m zero s n (omega (arith, h)) (omega (arith, fits)))

pub peek-calloc : (k off n : ℕ) → off + n ≤ k → peek (calloc k) off n ≡ calloc n
peek-calloc zero off zero h = refl
peek-calloc zero off (suc n) h = absurd (omega (arith, h))
peek-calloc (suc k) zero zero h = refl
peek-calloc (suc k) zero (suc n) h = ap (0 ∷◌) (peek-calloc k zero n (omega (arith, h)))
peek-calloc (suc k) (suc off) n h = peek-calloc k off n (omega (arith, h))

pub drop-calloc : (j n : ℕ) → drop j (calloc n) ≡ calloc (n - j)
drop-calloc zero n = ap calloc {x = n} (omega arith)
drop-calloc (suc j) zero = ap calloc {x = 0} (omega arith)
drop-calloc (suc j) (suc n) = drop-calloc j n ∙ ap calloc (omega arith)

-- A list that is cut at its length or behind it is whole.
pub take-whole : (n : ℕ) (s : List ℕ) → length s ≤ n → take n s ≡ s
take-whole zero [] h = refl
take-whole (suc n) [] h = refl
take-whole zero (c ∷ s) h = absurd (omega (arith, h))
take-whole (suc n) (c ∷ s) h = ap (c ∷◌) (take-whole n s (omega (arith, h)))

-- A string shorter than its field, over zeros.
pub c_string-calloc :
    (s : CString) (k : ℕ) → IsCString s → 0 < k → c_string (s ++ calloc k) ≡ some s
c_string-calloc s zero is h = absurd (omega (arith, h))
c_string-calloc s (suc k) is h = c_string_lem s (calloc k) is

-- Two writes, one behind the other, are one.
pub poke-poke_next :
    (m : List ℕ) (off c : ℕ) (s : List ℕ)
    → poke (poke m off (c ∷ [])) (suc off) s ≡ poke m off (c ∷ s)
unfolding poke
poke-poke_next [] off c s = refl
poke-poke_next (x ∷ m) zero c s = ap (c ∷◌) (poke-nothing m s)
  where
    poke-nothing : (m s : List ℕ) → poke (poke m 0 []) 0 s ≡ poke m 0 s
    poke-nothing [] s = refl
    poke-nothing (y ∷ m) s = refl
poke-poke_next (x ∷ m) (suc off) c s = ap (x ∷◌) (poke-poke_next m off c s)

-- A string fits the array that it was found in.
pub length-c_string : (m : List ℕ) (s : CString) → c_string m ≡ some s → length s < length m
unfolding c_string
length-c_string [] s e = ground (arith, e)
length-c_string (b ∷ m) s e = elim (Option-cases (c_string m)) [
  | inl n ↦ ground (arith, e, n)
  | inr (s', e') ↦ ground (arith, e, e', length-c_string m s' e')
]

-- It has no zero byte.
pub c_string-IsCString : (m : List ℕ) (s : CString) → c_string m ≡ some s → IsCString s
unfolding c_string
c_string-IsCString [] s e = ground (arith, e)
c_string-IsCString (b ∷ m) s e = elim (Option-cases (c_string m)) [
  | inl n ↦ let empty : s ≡ [] = ground (arith, e, n) in coe 1 0 (i. IsCString (empty i)) tt
  | inr (s', e') ↦ elim (Bool-cases (b == 0)) [
    | inl z ↦ let empty : s ≡ [] = ground (arith, e, e', z) in coe 1 0 (i. IsCString (empty i)) tt
    | inr nz ↦
        let more : s ≡ b ∷ s' = ground (arith, e, e', nz) in
        coe 1 0 (i. IsCString (more i)) (ground arith, c_string-IsCString m s' e')
  ]
]
