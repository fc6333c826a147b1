-- ===== src/Libc/Memory.antt =====
-- Bytes in memory: `memcpy` out of a block and into one, and the bytes of an `int`
-- (little-endian two's complement, as on the x86-64 machines that the program is built for).
use projeto_so.Base.{
  ℕ, zero, suc, ◌+◌, ◌-◌, ◌*◌, ◌/◌, ◌%◌, ◌^◌, ◌≤◌, ◌<◌, ◌≡◌, refl, ap, List, [], ◌∷◌, arith, length,
  take, drop, ℤ, pos, negsuc, minus_one, signed32,
}

-- the `n` bytes from `off` on
abbrev pub peek : List ℕ → ℕ → ℕ → List ℕ
peek m off n = take n (drop off m)

-- the memory with `bytes` written from `off` on; what does not fit is dropped, and the callers
-- test that all fits
unfoldable pub poke : List ℕ → ℕ → List ℕ → List ℕ
poke [] off bytes = []
poke (x ∷ m) (suc off) bytes = x ∷ poke m off bytes
poke (x ∷ m) zero [] = x ∷ m
poke (x ∷ m) zero (b ∷ bytes) = b ∷ poke m zero bytes

pub length-poke : (m : List ℕ) (off : ℕ) (bytes : List ℕ) → length (poke m off bytes) ≡ length m
unfolding poke
length-poke [] off bytes = refl
length-poke (x ∷ m) (suc off) bytes = ap suc (length-poke m off bytes)
length-poke (x ∷ m) zero [] = refl
length-poke (x ∷ m) zero (b ∷ bytes) = ap suc (length-poke m zero bytes)

-- What was written is read back.
pub peek-poke_self :
    (m : List ℕ) (off : ℕ) (bytes : List ℕ) (n : ℕ)
    → n ≡ length bytes
    → off + length bytes ≤ length m
    → peek (poke m off bytes) off n ≡ bytes
unfolding poke
peek-poke_self [] off [] zero e h = refl
peek-poke_self [] off (b ∷ bytes) n e h = absurd (omega arith)
peek-poke_self [] off [] (suc n) e h = absurd (omega arith)
peek-poke_self (x ∷ m) (suc off) bytes n e h = peek-poke_self m off bytes n e (omega arith)
peek-poke_self (x ∷ m) zero [] zero e h = refl
peek-poke_self (x ∷ m) zero [] (suc n) e h = absurd (omega arith)
peek-poke_self (x ∷ m) zero (b ∷ bytes) zero e h = absurd (omega arith)
peek-poke_self (x ∷ m) zero (b ∷ bytes) (suc n) e h =
    ap (b ∷◌) (peek-poke_self m zero bytes n (omega arith) (omega arith))

-- A read that ends before the write is unchanged.
pub peek-poke_before :
    (m : List ℕ) (off : ℕ) (bytes : List ℕ) (at n : ℕ)
    → at + n ≤ off
    → peek (poke m off bytes) at n ≡ peek m at n
unfolding poke
peek-poke_before [] off bytes at n h = refl
peek-poke_before (x ∷ m) (suc off) bytes zero zero h = refl
peek-poke_before (x ∷ m) (suc off) bytes zero (suc n) h =
    ap (x ∷◌) (peek-poke_before m off bytes zero n (omega arith))
peek-poke_before (x ∷ m) (suc off) bytes (suc at) n h =
    peek-poke_before m off bytes at n (omega arith)
peek-poke_before (x ∷ m) zero bytes zero zero h = refl
peek-poke_before (x ∷ m) zero bytes zero (suc n) h = absurd (omega arith)
peek-poke_before (x ∷ m) zero bytes (suc at) n h = absurd (omega arith)

-- So is one that starts behind it.
pub peek-poke_after :
    (m : List ℕ) (off : ℕ) (bytes : List ℕ) (at n : ℕ)
    → off + length bytes ≤ at
    → peek (poke m off bytes) at n ≡ peek m at n
unfolding poke
peek-poke_after [] off bytes at n h = refl
peek-poke_after (x ∷ m) (suc off) bytes zero n h = absurd (omega arith)
peek-poke_after (x ∷ m) (suc off) bytes (suc at) n h =
    peek-poke_after m off bytes at n (omega arith)
peek-poke_after (x ∷ m) zero [] at n h = refl
peek-poke_after (x ∷ m) zero (b ∷ bytes) zero n h = absurd (omega arith)
peek-poke_after (x ∷ m) zero (b ∷ bytes) (suc at) n h =
    peek-poke_after m zero bytes at n (omega arith)

-- The 32-bit pattern of an integer.
abbrev pattern32 : ℤ → ℕ
pattern32 (pos n) = n % 2 ^ 32
pattern32 (negsuc n) = 2 ^ 32 - 1 - n % 2 ^ 32

unfoldable pub int_bytes : ℤ → List ℕ
int_bytes v = (w % 256) ∷ (w / 256 % 256) ∷ (w / 2 ^ 16 % 256) ∷ (w / 2 ^ 24) ∷ []
  where
    w : ℕ
    w = pattern32 v

unfoldable pub int_of_bytes : List ℕ → ℤ
unfolding signed32
int_of_bytes (a ∷ b ∷ c ∷ d ∷ _) = signed32 (a + 256 * b + 2 ^ 16 * c + 2 ^ 24 * d)
int_of_bytes _ = pos 0

pub length-int_bytes : (v : ℤ) → length (int_bytes v) ≡ 4
unfolding int_bytes
length-int_bytes v = refl

-- An index below 2 ^ 31 survives being stored in four bytes.
pub int_of_bytes-int_bytes_pos : (n : ℕ) → n < 2 ^ 31 → int_of_bytes (int_bytes (pos n)) ≡ pos n
unfolding int_of_bytes int_bytes
int_of_bytes-int_bytes_pos n h = ground arith

-- So does the mark of an empty entry.
pub int_of_bytes-int_bytes-minus_one : int_of_bytes (int_bytes minus_one) ≡ minus_one
unfolding int_of_bytes int_bytes
int_of_bytes-int_bytes-minus_one = refl
