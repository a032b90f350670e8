-- ===== src/Space/Memory.antt =====
-- Reading what was written into frames.
use colinux_64bit.Base.{
  ℕ, zero, suc, ◌+◌, ◌-◌, ◌≡◌, refl, List, [], ◌∷◌, ◌==◌, ltb, leb, if◌then◌else◌, ◌&&◌, length,
  get_or, arith,
}
use colinux_64bit.Space.{Ram, store, write_bytes}

pub get_or-cons :
    (x : ℕ) (xs : List ℕ) (n d : ℕ)
    → get_or (x ∷ xs) n d ≡ (if n == 0 then x else get_or xs (n - 1) d)
get_or-cons x xs zero d = refl
get_or-cons x xs (suc n) d = let e : suc n - 1 ≡ n = omega arith in rw e (ground arith)

-- Byte `o` of frame `f` after a write of `bs` at `at` in `frame`.
pub write_bytes_at :
    (ram : Ram) (frame at : ℕ) (bs : List ℕ) (f o : ℕ)
    → write_bytes ram frame at bs f o ≡ (
        if f == frame && (leb at o && ltb o (at + length bs))
        then get_or bs (o - at) 0
        else ram f o)
unfolding write_bytes
write_bytes_at ram frame at [] f o = ground arith
write_bytes_at ram frame at (b ∷ bs) f o =
    let e : o - (at + 1) ≡ o - at - 1 = omega arith in
    rw (write_bytes_at (store ram frame at b) frame (at + 1) bs f o, get_or-cons b bs (o - at) 0, e)
      (ground arith)
