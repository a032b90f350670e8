-- ===== src/Log/Vector.antt =====
-- kernel/debug.c: the vectors that a record is gathered from.
use colinux_64bit.Base.{
  ℕ, ◌+◌, ◌≤◌, ◌≡◌, refl, ◌∙◌, List, [], ◌++◌, length, take, length-append, length-take, arith,
}
use mathlib.Core.Path.{subst}
use mathlib.Core.List.{append_assoc, append-nil}
use colinux_64bit.Log.Memory.{memcpy, length-memcpy, take-memcpy}

-- `co_debug_write_vector_t`: `bytes` has a `vec_size` of 0 and points to bytes, `nested` to vectors,
-- at least one. The number is the field `size`.
mutual
  pub data WriteVector : Type 0 where
    bytes : ℕ → List ℕ → WriteVector
    nested : ℕ → Vectors → WriteVector

  pub data Vectors : Type 0 where
    nil : Vectors
    cons : WriteVector → Vectors → Vectors

unfoldable pub size_of : WriteVector → ℕ
size_of (bytes size p) = size
size_of (nested size v) = size

-- `co_debug_write_vector_size`
unfoldable pub write_vector_size : Vectors → ℕ
unfolding size_of
write_vector_size nil = 0
write_vector_size (cons w v) = size_of w + write_vector_size v

-- `memcpy_vector` to `dest`, an index of the buffer, and its body for one vector.
unfoldable mutual
  unfolding size_of memcpy

  pub memcpy_vector : List ℕ → ℕ → Vectors → List ℕ
  memcpy_vector buffer dest nil = buffer
  memcpy_vector buffer dest (cons w v) =
      memcpy_vector (memcpy_one buffer dest w) (dest + size_of w) v

  pub memcpy_one : List ℕ → ℕ → WriteVector → List ℕ
  memcpy_one buffer dest (bytes size p) = memcpy buffer dest (take size p)
  memcpy_one buffer dest (nested size v) = memcpy_vector buffer dest v

-- The bytes of the vectors, one behind the other.
unfoldable mutual
  pub text : Vectors → List ℕ
  text nil = []
  text (cons w v) = text_one w ++ text v

  pub text_one : WriteVector → List ℕ
  text_one (bytes size p) = take size p
  text_one (nested size v) = text v

-- Every `size` is that of what it stands for.
unfoldable mutual
  unfolding write_vector_size size_of

  pub AreFramed : Vectors → Type 0
  AreFramed nil = Unit {0}
  AreFramed (cons w v) = IsFramed w × AreFramed v

  pub IsFramed : WriteVector → Type 0
  IsFramed (bytes size p) = size ≤ length p
  IsFramed (nested size v) = (size ≡ write_vector_size v) × AreFramed v

mutual
  unfolding text AreFramed write_vector_size

  pub length-text : (v : Vectors) → AreFramed v → length (text v) ≡ write_vector_size v
  length-text nil h = refl
  length-text (cons w v) h =
      omega (arith, length-append (text_one w) (text v), length-text_one w h.0, length-text v h.1)

  length-text_one : (w : WriteVector) → IsFramed w → length (text_one w) ≡ size_of w
  length-text_one (bytes size p) h = omega (arith, length-take size p)
  length-text_one (nested size v) h = omega (arith, length-text v h.1)

mutual
  unfolding memcpy_vector

  pub length-memcpy_vector :
      (buffer : List ℕ) (dest : ℕ) (v : Vectors)
      → length (memcpy_vector buffer dest v) ≡ length buffer
  length-memcpy_vector buffer dest nil = refl
  length-memcpy_vector buffer dest (cons w v) =
      length-memcpy_vector (memcpy_one buffer dest w) (dest + size_of w) v
      ∙ length-memcpy_one buffer dest w

  length-memcpy_one :
      (buffer : List ℕ) (dest : ℕ) (w : WriteVector)
      → length (memcpy_one buffer dest w) ≡ length buffer
  length-memcpy_one buffer dest (bytes size p) = length-memcpy buffer dest (take size p)
  length-memcpy_one buffer dest (nested size v) = length-memcpy_vector buffer dest v

mutual
  unfolding memcpy_vector text AreFramed write_vector_size

  pub take-memcpy_vector :
      (buffer : List ℕ) (dest : ℕ) (v : Vectors)
      → AreFramed v
      → dest + write_vector_size v ≤ length buffer
      → take (dest + write_vector_size v) (memcpy_vector buffer dest v) ≡ take dest buffer ++ text v
  take-memcpy_vector buffer dest nil f h =
      let e : dest + 0 ≡ dest = omega arith in rw (e, append-nil (take dest buffer))
  take-memcpy_vector buffer dest (cons w v) f h =
      let e : dest + (size_of w + write_vector_size v) ≡ (dest + size_of w) + write_vector_size v =
        omega arith in
      rw
        (
          e,
          take-memcpy_vector (memcpy_one buffer dest w) (dest + size_of w) v f.1
              (omega (arith, length-memcpy_one buffer dest w)),
          take-memcpy_one buffer dest w f.0 (omega arith),
        )
        (append_assoc (take dest buffer) (text_one w) (text v))

  take-memcpy_one :
      (buffer : List ℕ) (dest : ℕ) (w : WriteVector)
      → IsFramed w
      → dest + size_of w ≤ length buffer
      → take (dest + size_of w) (memcpy_one buffer dest w) ≡ take dest buffer ++ text_one w
  take-memcpy_one buffer dest (bytes size p) f h =
      let e : length (take size p) ≡ size = omega (arith, length-take size p) in
      subst
        (λ n. take (dest + n) (memcpy buffer dest (take size p)) ≡ take dest buffer ++ take size p)
        e (take-memcpy buffer dest (take size p) (omega arith))
  take-memcpy_one buffer dest (nested size v) f h =
      rw f.0 (take-memcpy_vector buffer dest v f.1 (omega (arith, f.0)))
