-- ===== src/Log/Content.antt =====
-- kernel/debug.c: what a write adds to the log's text.
use colinux_64bit.Base.{
  ℕ, ◌+◌, ◌≤◌, ◌%◌, ◌≡◌, refl, sym, ap, ◌∙◌, inl, inr, Bool, true, false, Option, some, List, [],
  ◌∷◌, ◌++◌, ◌==◌, ltb, leb, if◌then◌else◌, length, take, Bool-cases, leb→le, arith,
}
use mathlib.Core.List.{append-nil}
use colinux_64bit.Rc.{Rc, ok, error, co_ok}
use colinux_64bit.Log.Vector.{
  Vectors, write_vector_size, text, AreFramed, take-memcpy_vector, length-text,
}
use colinux_64bit.Log.Section.{
  Section, Totals, Malloc, Log, Host, find, store, append_to, append_to_buffer, resize_section,
  get_section, max_fill,
}
use colinux_64bit.Log.Write.{
  written, put_written, write_section, write_found, write_at, debug_writev, debug_write_log,
  local_vec, driver_local_vec, long_bytes, type_tlv, type_driver_index,
}
use colinux_64bit.Log.Sound.{
  IsValid, find-IsSound, find_head, Allocates, IsRoomy, resize_section-same,
}
use colinux_64bit.Log.Append.{put_section_two, append_to_buffer-Appended}
use colinux_64bit.Log.Refine.{Chunk, view}

-- The record that `co_debug_write_log` makes of a text: a header, the text, the driver's index.
unfoldable pub log_record : ℕ → List ℕ → List ℕ
log_record index body =
    type_tlv ∷ (length body + 6) ∷ (body ++ (type_driver_index ∷ 4 ∷ long_bytes index))

-- A text added to the chunk of an address.
unfoldable pub extend : ℕ → List ℕ → List Chunk → List Chunk
extend a bytes [] = []
extend a bytes (c ∷ l) =
    if c.address == a then record c { text = c.text ++ bytes } ∷ l else c ∷ extend a bytes l

fits : Section → Vectors → Bool
fits s v = leb (s.filled + write_vector_size v) s.buffer_size

append_to-text :
    (t : Totals) (s : Section) (v : Vectors)
    → IsRoomy s
    → AreFramed v
    → ((append_to (t, s) v).0 ≡ (if fits s v then ok else error))
      × (take (append_to (t, s) v).2.filled (append_to (t, s) v).2.buffer
          ≡ take s.filled s.buffer ++ (if fits s v then text v else []))
      × ((append_to (t, s) v).2.folded ≡ s.folded)
unfolding append_to fits
append_to-text t s v r f = elim (Bool-cases (ltb s.buffer_size (s.filled + write_vector_size v))) [
  | inl e ↦ let g : fits s v ≡ false = ground arith in rw (e, g) (refl, sym (append-nil _), refl)
  | inr e ↦
      let g : fits s v ≡ true = ground arith in
      rw (e, g)
        (
          refl,
          take-memcpy_vector s.buffer s.filled v f (omega (arith, r.allocated, leb→le _ _ g)),
          refl,
        )
]

append_to_buffer-text :
    (malloc : Malloc) (t : Totals) (s : Section) (v : Vectors)
    → Allocates malloc
    → IsRoomy s
    → AreFramed v
    → ((append_to_buffer malloc t s v).0 ≡ (if fits s v then ok else error))
      × (take (append_to_buffer malloc t s v).2.filled (append_to_buffer malloc t s v).2.buffer
          ≡ take s.filled s.buffer ++ (if fits s v then text v else []))
      × ((append_to_buffer malloc t s v).2.folded ≡ s.folded)
unfolding append_to_buffer fits
append_to_buffer-text malloc t s v alloc r f =
    let same = resize_section-same malloc t s alloc r in
    let x = resize_section malloc t s in
    let a = append_to-text x.0 x.1 v same.2 f in
    let e : fits x.1 v ≡ fits s v = rw (same.1.0, same.1.1) refl in
    (
      a.0 ∙ ap (λ (b : Bool). if b then ok else error) e,
      a.1 ∙ rw (e, same.1.5) refl,
      a.2 ∙ same.1.3,
    )

pub view-store :
    (a : ℕ) (s s' : Section) (bytes : List ℕ) (l : List (ℕ × Section))
    → find a l ≡ some s
    → s'.folded ≡ s.folded
    → take s'.filled s'.buffer ≡ take s.filled s.buffer ++ bytes
    → view (store a s' l) ≡ extend a bytes (view l)
unfolding view store extend
view-store a s s' bytes [] h f t = unfold find in cc
view-store a s s' bytes ((b, r) ∷ l) h f t = elim (find_head b a r s l h) [
  | inl p ↦ rw (p.0, p.1, f, t) refl
  | inr p ↦ rw (p.0, view-store a s s' bytes l p.1 f t) refl
]

-- A held section is written to and put back.
write_section-text :
    (host : Host) (a : ℕ) (s₀ s : Section) (d : Log) (v : Vectors)
    → Allocates host.malloc
    → find a d.sections ≡ some s₀
    → IsRoomy s
    → s.refcount ≡ 2
    → (s.folded ≡ s₀.folded) × (take s.filled s.buffer ≡ take s₀.filled s₀.buffer)
    → AreFramed v
    → ((write_section host a s d v).0 ≡ (if fits s v then ok else error))
      × ((write_section host a s d v).2 ≡ some a)
      × (view (write_section host a s d v).1.sections
          ≡ extend a (if fits s v then text v else []) (view d.sections))
unfolding write_section put_written written
write_section-text host a s₀ s d v alloc found r two same f =
    let x = append_to_buffer host.malloc d.totals s v in
    let t = append_to_buffer-text host.malloc d.totals s v alloc r f in
    let n = append_to_buffer-Appended host.malloc d.totals s v alloc r in
    let kept =
      view-store a s₀ (record x.2 { refcount = 1 }) (if fits s v then text v else []) d.sections
        found (t.2 ∙ same.0)
        (t.1 ∙ ap (λ (p : List ℕ). p ++ (if fits s v then text v else [])) same.1) in
    rw (put_section_two a x.2 (record d { totals = x.1 }) (n.5 ∙ two))
      (t.0, refl, elim (Bool-cases (co_ok x.0)) [ inl e ↦ rw e kept | inr e ↦ rw e kept ])

-- The header and the index are framed, and so is the record if the caller's vectors are.
local_vec-text :
    (index : ℕ) (v : Vectors)
    → AreFramed v
    → write_vector_size v ≤ 0xf8
    → text (local_vec index (write_vector_size v) v) ≡ log_record index (text v)
unfolding text local_vec log_record driver_local_vec
local_vec-text index v f h =
    let e : (write_vector_size v + 2 + 4) % 256 ≡ length (text v) + 6 =
      omega (arith, length-text v f) in
    rw e refl

local_vec-AreFramed :
    (index : ℕ) (v : Vectors) → AreFramed v → AreFramed (local_vec index (write_vector_size v) v)
unfolding AreFramed local_vec driver_local_vec write_vector_size long_bytes
local_vec-AreFramed index v f =
    (omega arith, ((refl, f), ((refl, (omega arith, (omega arith, tt))), tt)))

local_vec-size :
    (index : ℕ) (v : Vectors)
    → write_vector_size (local_vec index (write_vector_size v) v) ≡ write_vector_size v + 8
unfolding local_vec driver_local_vec write_vector_size
local_vec-size index v = omega arith

debug_writev-open :
    (host : Host) (d : Log) (a : ℕ) (s : Section) (v : Vectors)
    → find a d.sections ≡ some s
    → d.freeing ≡ false
    → d.totals.filled ≤ max_fill
    → debug_writev host d (some a) v ≡ some (write_section host a (get_section s) d v)
unfolding debug_writev write_at write_found
debug_writev-open host d a s v found open_ room =
    let e : ltb max_fill d.totals.filled ≡ false = ground arith in rw (e, found) (ground arith)

triple :
    (x : Rc × Log × Option ℕ) {rc : Rc} {o : Option ℕ}
    → x.0 ≡ rc
    → x.2 ≡ o
    → some x ≡ some (rc, x.1, o)
triple x p q = λ i. some (p i, x.1, q i)

-- On a sound log that is not being freed and not over its limit, a record of at most 0xf8 bytes
-- goes whole behind the text of its section, framed by its length and followed by the driver's
-- index, if all of it has room there; otherwise the result is an error and every text stays as it
-- is. The pointer to the section is kept.
pub debug_write_log-view :
    (host : Host) (d : Log) (a : ℕ) (s : Section) (v : Vectors)
    → Allocates host.malloc
    → IsValid d
    → find a d.sections ≡ some s
    → d.freeing ≡ false
    → d.totals.filled ≤ max_fill
    → AreFramed v
    → write_vector_size v ≤ 0xf8
    → (d' : Log) × (debug_write_log host d (some a) v
        ≡ some (
          (if leb (s.filled + length (text v) + 8) s.buffer_size then ok else error),
          d',
          some a,
        ))
      × (view d'.sections
          ≡ extend a
              (if leb (s.filled + length (text v) + 8) s.buffer_size
                then log_record (d.driver_index + 1) (text v)
                else [])
              (view d.sections))
unfolding debug_write_log
debug_write_log-view host d a s v alloc valid found open_ room f small =
    let counted = record d { driver_index = d.driver_index + 1 } in
    let w = local_vec (d.driver_index + 1) (write_vector_size v) v in
    let i = find-IsSound a s d.sections valid.sound found in
    let e : ltb 0xf8 (write_vector_size v) ≡ false = ground arith in
    let h =
      write_section-text host a s (get_section s) counted w alloc found
        (unfold get_section in record { fits = i.fits; allocated = i.allocated })
        (unfold get_section in omega (arith, i.one_reference)) (unfold get_section in (refl, refl))
        (local_vec-AreFramed (d.driver_index + 1) v f) in
    let g : fits (get_section s) w ≡ leb (s.filled + length (text v) + 8) s.buffer_size =
      unfold fits get_section in
      rw (local_vec-size (d.driver_index + 1) v, length-text v f) (ground arith) in
    (
      (write_section host a (get_section s) counted w).1,
      rw (e, debug_writev-open host counted a s w found open_ room)
          (triple (write_section host a (get_section s) counted w)
            (h.0 ∙ ap (λ (b : Bool). if b then ok else error) g) h.1),
      rw (← g, ← local_vec-text (d.driver_index + 1) v f small) (h.2),
    )
