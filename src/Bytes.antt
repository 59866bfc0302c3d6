-- ===== src/Bytes.antt =====
-- Byte arrays and C strings, as the server's code reads them.
use aemu.Base.{
  ℕ, ◌-◌, Bool, true, false, ◌&&◌, List, [], ◌∷◌, ◌++◌, ◌==◌, if◌then◌else◌, length, take,
  replicate,
}

abbrev pub Bytes : Type 0
Bytes = List ℕ

-- The bytes before the first NUL, and no more than the array has.
unfoldable pub c_string : Bytes → Bytes
c_string [] = []
c_string (b ∷ bs) = if b == 0 then [] else b ∷ c_string bs

-- `memcmp(a, b, n) == 0` for arrays of one size.
unfoldable pub bytes_eq : Bytes → Bytes → Bool
bytes_eq [] [] = true
bytes_eq [] (y ∷ ys) = false
bytes_eq (x ∷ xs) [] = false
bytes_eq (x ∷ xs) (y ∷ ys) = (x == y) && bytes_eq xs ys

-- `strncmp(a, b, n) == 0`.
unfoldable pub strncmp_eq : ℕ → Bytes → Bytes → Bool
unfolding c_string bytes_eq
strncmp_eq n a b = bytes_eq (c_string (take n a)) (c_string (take n b))

-- What `strncpy(out, in, n)` writes: the string cut at n, and NULs up to n.
unfoldable pub strncpy : ℕ → Bytes → Bytes
unfolding c_string
strncpy n s = let cut = take n (c_string s) in cut ++ replicate (n - length cut) 0
