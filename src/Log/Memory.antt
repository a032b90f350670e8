-- ===== src/Log/Memory.antt =====
-- `co_memcpy` into a buffer that is a list of bytes.
use colinux_64bit.Base.{
  ℕ, zero, suc, ◌+◌, ◌≤◌, ◌≡◌, refl, List, [], ◌∷◌, ◌++◌, set, length, take, length-set,
  length-take, arith,
}
use mathlib.Core.Path.{subst}
use mathlib.Core.List.{append_assoc, append-nil}

-- `co_memcpy(&buffer[at], bytes, n)` for the `n` bytes. A write past the end changes nothing here.
unfoldable pub memcpy : List ℕ → ℕ → List ℕ → List ℕ
memcpy buffer at [] = buffer
memcpy buffer at (b ∷ bytes) = memcpy (set buffer at b) (at + 1) bytes

pub length-memcpy :
    (buffer : List ℕ) (at : ℕ) (bytes : List ℕ) → length (memcpy buffer at bytes) ≡ length buffer
unfolding memcpy
length-memcpy buffer at [] = refl
length-memcpy buffer at (b ∷ bytes) =
    rw (length-memcpy (set buffer at b) (at + 1) bytes) (length-set buffer at b)

take-set :
    (buffer : List ℕ) (at b : ℕ)
    → suc at ≤ length buffer
    → take (at + 1) (set buffer at b) ≡ take at buffer ++ (b ∷ [])
take-set [] at b h = elim h [ ]
take-set (x ∷ xs) zero b h = refl
take-set (x ∷ xs) (suc at) b h =
    let e : suc at + 1 ≡ suc (at + 1) = omega arith in rw (e, take-set xs at b (omega arith))

-- Before its end, the copied part stands behind what was there.
pub take-memcpy :
    (buffer : List ℕ) (at : ℕ) (bytes : List ℕ)
    → at + length bytes ≤ length buffer
    → take (at + length bytes) (memcpy buffer at bytes) ≡ take at buffer ++ bytes
unfolding memcpy
take-memcpy buffer at [] h =
    let e : at + 0 ≡ at = omega arith in rw (e, append-nil (take at buffer))
take-memcpy buffer at (b ∷ bytes) h =
    let e : at + suc (length bytes) ≡ (at + 1) + length bytes = omega arith in
    rw
      (
        e,
        take-memcpy (set buffer at b) (at + 1) bytes (omega (arith, length-set buffer at b)),
        take-set buffer at b (omega arith),
      )
      (append_assoc (take at buffer) (b ∷ []) bytes)

-- A buffer's beginning copied to another buffer.
pub take-copy :
    (n : ℕ) (source buffer : List ℕ)
    → n ≤ length source
    → n ≤ length buffer
    → take n (memcpy buffer 0 (take n source)) ≡ take n source
take-copy n source buffer h k =
    let e : length (take n source) ≡ n = omega (arith, length-take n source) in
    subst (λ m. take m (memcpy buffer 0 (take n source)) ≡ take n source)
      (let z : 0 + length (take n source) ≡ n = omega arith in z)
      (take-memcpy buffer 0 (take n source) (omega arith))
