-- ===== src/Libc/CString.antt =====
-- `strcmp`, `strncmp` and `strncpy`. A buffer is the list of bytes from a pointer to the end of the
-- object that it points into; a comparison that runs off a buffer is `none`. A string argument is
-- the list of its bytes before the NUL, so `strlen` is the length.
use projeto_so.Base.{
  ℕ, zero, suc, ◌+◌, ◌-◌, ◌≤◌, ◌<◌, ◌≡◌, refl, ap, ◌∙◌, ◌≢◌, Bool, true, false, Option, none, some,
  List, [], ◌∷◌, ◌++◌, arith, ◌==◌, if◌then◌else◌, length, get_elem?, take, replicate, length-take,
  length-append, length-replicate,
}

abbrev pub CString : Type 0
CString = List ℕ

-- No byte of the string is the NUL.
abbrev pub IsCString : CString → Type 0
IsCString [] = Unit
IsCString (c ∷ s) = (0 < c) × IsCString s

-- the bytes of the string in memory
abbrev pub terminated : CString → List ℕ
terminated s = s ++ 0 ∷ []

-- `strcmp(p, q) == 0`
unfoldable pub strcmp_eq : List ℕ → List ℕ → Option Bool
strcmp_eq [] ys = none
strcmp_eq (x ∷ xs) [] = none
strcmp_eq (x ∷ xs) (y ∷ ys) =
    let rest = strcmp_eq xs ys in
    if x == y then (if x == 0 then some true else rest) else some false

-- `strncmp(p, q, n) == 0`
unfoldable pub strncmp_eq : ℕ → List ℕ → List ℕ → Option Bool
strncmp_eq zero xs ys = some true
strncmp_eq (suc n) [] ys = none
strncmp_eq (suc n) (x ∷ xs) [] = none
strncmp_eq (suc n) (x ∷ xs) (y ∷ ys) =
    let rest = strncmp_eq n xs ys in
    if x == y then (if x == 0 then some true else rest) else some false

-- the `n` bytes that `strncpy(p, s, n)` writes: `s` cut at `n`, or filled up with NULs
unfoldable pub strncpy : ℕ → CString → List ℕ
strncpy n s = take n (s ++ replicate n 0)

pub length-strncpy : (n : ℕ) (s : CString) → length (strncpy n s) ≡ n
unfolding strncpy
length-strncpy n s = omega (
  arith,
  length-take n (s ++ replicate n 0),
  length-append {0} s (replicate n 0),
  length-replicate {A = ℕ} n 0,
)

-- Where the first buffer has a NUL among its first `n` bytes, the two comparisons agree.
pub strncmp_eq-strcmp_eq :
    (n k : ℕ) (xs ys : List ℕ)
    → get_elem? xs k ≡ some 0
    → k < n
    → strncmp_eq n xs ys ≡ strcmp_eq xs ys
unfolding strncmp_eq strcmp_eq
strncmp_eq-strcmp_eq zero k xs ys e h = elim h [ ]
strncmp_eq-strcmp_eq (suc n) k [] ys e h = refl
strncmp_eq-strcmp_eq (suc n) k (x ∷ xs) [] e h = refl
strncmp_eq-strcmp_eq (suc n) zero (x ∷ xs) (y ∷ ys) e h = ground arith
strncmp_eq-strcmp_eq (suc n) (suc k) (x ∷ xs) (y ∷ ys) e h =
    ground (arith, strncmp_eq-strcmp_eq n k xs ys e (omega arith))

-- A comparison of a buffer that has a NUL with a string stays inside both.
pub strcmp_eq-ne-none :
    (k : ℕ) (xs : List ℕ) (s : CString)
    → get_elem? xs k ≡ some 0
    → strcmp_eq xs (terminated s) ≢ none
unfolding strcmp_eq
strcmp_eq-ne-none k [] s e = cc
strcmp_eq-ne-none zero (x ∷ xs) [] e = ground arith
strcmp_eq-ne-none zero (x ∷ xs) (c ∷ s) e = ground arith
strcmp_eq-ne-none (suc k) (x ∷ xs) [] e = ground arith
strcmp_eq-ne-none (suc k) (x ∷ xs) (c ∷ s) e = ground (arith, strcmp_eq-ne-none k xs s e)

-- A string that was stored with room to spare compares equal to itself, whatever follows it.
pub strcmp_eq_self :
    (s : CString) (rest : List ℕ)
    → IsCString s
    → strcmp_eq (s ++ 0 ∷ rest) (terminated s) ≡ some true
unfolding strcmp_eq
strcmp_eq_self [] rest h = refl
strcmp_eq_self (c ∷ s) rest h = ground (arith, strcmp_eq_self s rest h.1)

-- It compares equal to no other string.
pub eq_of_strcmp_eq :
    (s t : CString) (rest : List ℕ)
    → IsCString s
    → IsCString t
    → strcmp_eq (s ++ 0 ∷ rest) (terminated t) ≡ some true
    → s ≡ t
unfolding strcmp_eq
eq_of_strcmp_eq [] [] rest hs ht e = refl
eq_of_strcmp_eq [] (c ∷ t) rest hs ht e = ground arith
eq_of_strcmp_eq (c ∷ s) [] rest hs ht e = ground arith
eq_of_strcmp_eq (c ∷ s) (d ∷ t) rest hs ht e = ground (arith, eq_of_strcmp_eq s t rest hs.1 ht.1)

-- A string that fits is stored whole, with NULs behind it.
replicate_snoc : (n : ℕ) → replicate {A = ℕ} n 0 ++ 0 ∷ [] ≡ replicate (suc n) 0
replicate_snoc zero = refl
replicate_snoc (suc n) = ap (0 ∷◌) (replicate_snoc n)

take-replicate : (n m : ℕ) → n ≤ m → take n (replicate {A = ℕ} m 0) ≡ replicate n 0
take-replicate zero m h = refl
take-replicate (suc n) zero h = elim h [ ]
take-replicate (suc n) (suc m) h = ap (0 ∷◌) (take-replicate n m (omega arith))

padded :
    (n m : ℕ) (s : CString)
    → length s ≤ n
    → n ≤ length s + m
    → take n (s ++ replicate m 0) ++ 0 ∷ [] ≡ s ++ 0 ∷ replicate (n - length s) 0
padded n m [] h k = rw (take-replicate n m (omega arith), replicate_snoc n, n_minus)
  where
    n_minus : n - 0 ≡ n
    n_minus = omega arith
padded zero m (c ∷ s) h k = elim h [ ]
padded (suc n) m (c ∷ s) h k =
    ap (c ∷◌)
      (padded n m s (omega arith) (omega arith) ∙ ap (λ z. s ++ 0 ∷ replicate z 0) (omega arith))

-- The bytes of a stored name: `n` bytes by `strncpy`, and the last NUL.
pub stored_lem :
    (n : ℕ) (s : CString)
    → length s ≤ n
    → strncpy n s ++ 0 ∷ [] ≡ s ++ 0 ∷ replicate (n - length s) 0
unfolding strncpy
stored_lem n s h = padded n n s h (omega arith)

get_elem?-snoc : (xs : List ℕ) (n a : ℕ) → length xs ≡ n → get_elem? (xs ++ a ∷ []) n ≡ some a
get_elem?-snoc [] zero a e = refl
get_elem?-snoc [] (suc n) a e = absurd (omega arith)
get_elem?-snoc (x ∷ xs) zero a e = absurd (omega arith)
get_elem?-snoc (x ∷ xs) (suc n) a e = get_elem?-snoc xs n a (omega arith)

-- It ends inside its field,
pub stored-ends : (n : ℕ) (s : CString) → get_elem? (strncpy n s ++ 0 ∷ []) n ≡ some 0
stored-ends n s = get_elem?-snoc (strncpy n s) n 0 (length-strncpy n s)

pub length-stored : (n : ℕ) (s : CString) → length (strncpy n s ++ 0 ∷ []) ≡ n + 1
length-stored n s = omega (arith, length-append {0} (strncpy n s) (0 ∷ []), length-strncpy n s)

-- equals its own string,
pub stored_self :
    (n : ℕ) (s : CString)
    → length s ≤ n
    → IsCString s
    → strcmp_eq (strncpy n s ++ 0 ∷ []) (terminated s) ≡ some true
stored_self n s h is = rw (stored_lem n s h) (strcmp_eq_self s (replicate (n - length s) 0) is)

-- and no other.
pub eq_of_stored :
    (n : ℕ) (s t : CString)
    → length s ≤ n
    → IsCString s
    → IsCString t
    → strcmp_eq (strncpy n s ++ 0 ∷ []) (terminated t) ≡ some true
    → s ≡ t
eq_of_stored n s t h hs ht e =
    eq_of_strcmp_eq s t (replicate (n - length s) 0) hs ht (rw (stored_lem n s h) at e)
