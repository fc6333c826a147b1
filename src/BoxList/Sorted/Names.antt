-- ===== src/BoxList/Sorted/Names.antt =====
-- The order of names by `strcmp`, for utils/common.c.
use projeto_so.Base.{
  ℕ, ◌<◌, ◌≡◌, refl, true, false, some, List, [], ◌∷◌, arith, length, ◌==◌, Bool-cases, inl, inr,
}
use projeto_so.Libc.Memory.{poke}
use projeto_so.Libc.CString.{CString, IsCString, terminated}
use projeto_so.BoxList.{strcmp_lt}

-- Of two strings, one below the other, the other is not below the one.
pub strcmp_lt-asym : (xs ys : List ℕ) → strcmp_lt xs ys ≡ some true → strcmp_lt ys xs ≡ some false
unfolding strcmp_lt
strcmp_lt-asym [] ys e = ground (arith, e)
strcmp_lt-asym (x ∷ xs) [] e = ground (arith, e)
strcmp_lt-asym (x ∷ xs) (y ∷ ys) e = elim (Bool-cases (x == y)) [
  | inl same ↦ elim (Bool-cases (x == 0)) [
    | inl z ↦ ground (arith, e, same, z)
    | inr nz ↦
        let deeper : strcmp_lt xs ys ≡ some true = ground (arith, e, same, nz) in
        ground (arith, same, nz, strcmp_lt-asym xs ys deeper)
  ]
  | inr differ ↦ ground (arith, e, differ)
]

-- What follows the NUL of a name does not count.
pub strcmp_lt-poke :
    (name : CString) (array ys : List ℕ)
    → IsCString name
    → length name < length array
    → strcmp_lt (poke array 0 (terminated name)) ys ≡ strcmp_lt (terminated name) ys
unfolding strcmp_lt poke
strcmp_lt-poke name [] ys is h = absurd (omega (arith, h))
strcmp_lt-poke [] (a ∷ array) [] is h = refl
strcmp_lt-poke [] (a ∷ array) (y ∷ ys) is h = ground (arith)
strcmp_lt-poke (c ∷ name) (a ∷ array) [] is h = refl
strcmp_lt-poke (c ∷ name) (a ∷ array) (y ∷ ys) is h =
    ground (arith, is.0, strcmp_lt-poke name array ys is.1 (omega (arith, h)))

pub poke-strcmp_lt :
    (name : CString) (array ys : List ℕ)
    → IsCString name
    → length name < length array
    → strcmp_lt ys (poke array 0 (terminated name)) ≡ strcmp_lt ys (terminated name)
unfolding strcmp_lt poke
poke-strcmp_lt name [] ys is h = absurd (omega (arith, h))
poke-strcmp_lt [] (a ∷ array) [] is h = refl
poke-strcmp_lt [] (a ∷ array) (y ∷ ys) is h = ground (arith)
poke-strcmp_lt (c ∷ name) (a ∷ array) [] is h = refl
poke-strcmp_lt (c ∷ name) (a ∷ array) (y ∷ ys) is h =
    ground (arith, is.0, poke-strcmp_lt name array ys is.1 (omega (arith, h)))
