-- ===== src/Log/Steps.antt =====
-- kernel/debug.c: one round of the loop of `co_debug_read` drains one chunk.
use colinux_64bit.Base.{
  ℕ, ◌+◌, ◌-◌, ◌≤◌, ◌≡◌, refl, ap, ◌∙◌, true, false, Option, none, List, ◌∷◌, ◌++◌, length, take,
  arith,
}
use mathlib.Core.List.{append_assoc}
use colinux_64bit.Log.Memory.{length-memcpy}
use colinux_64bit.Log.Section.{Section, Totals}
use colinux_64bit.Log.Read.{Reader, Copying, read_rest}
use colinux_64bit.Log.Sound.{IsSound, sum}
use colinux_64bit.Log.Drain.{IsKept, is_saved, extended}
use colinux_64bit.Log.Refine.{
  view, IsDrained, Covers, is_saved-fits, drain_saved, drain_kept, extended-text,
}

abbrev pub without : Totals → Section → Totals
without t s = record {
  count = t.count - 1;
  size = t.size - s.buffer_size;
  filled = t.filled - s.filled;
}

-- The text of a reader, extended by a chunk and then by the rest.
taken : (p s rest : List ℕ) {u v : List ℕ} → u ≡ v ++ rest → v ≡ p ++ s → u ≡ p ++ (s ++ rest)
taken p s rest h k = h ∙ ap (λ w. w ++ rest) k ∙ append_assoc p s rest

module _ (c : Copying) (size a : ℕ) (t : Totals) (r : Reader) (s : Section) (l : List (ℕ × Section))
    (x : Reader × Totals × List (ℕ × Section)) (i : IsSound s) (covers : Covers t ((a, s) ∷ l))
    (room : size ≤ length r.buffer) (start : r.filled ≤ size) where
  pub IsDrained-gone :
      is_saved c size a r s.filled ≡ true
      → s.folded ≡ true
      → IsDrained c size (extended r s) (without t s) l x
      → IsDrained c size r t ((a, s) ∷ l) (read_rest a none x)
  unfolding read_rest sum
  IsDrained-gone saved f h =
      let fits = is_saved-fits c size a r s.filled saved start in
      record {
        sound = h.sound;
        count = omega (arith, h.count, covers.count);
        size_of = omega (arith, h.size_of, covers.size_of);
        filled = omega (arith, h.filled, covers.filled);
        within = h.within;
        whole = h.whole ∙ length-memcpy r.buffer r.filled (take s.filled s.buffer);
        text =
            rw (drain_saved c size a r s l i saved)
              (taken _ _ _ h.text (extended-text r s i (omega arith)));
        rest = rw (drain_saved c size a r s l i saved, f) h.rest;
      }

  pub IsDrained-emptied :
      is_saved c size a r s.filled ≡ true
      → s.folded ≡ false
      → (y : Totals × Option Section)
      → IsKept
          (record s { refcount = s.refcount + 1; filled = 0 })
          y
          (record t { filled = t.filled - s.filled })
      → IsDrained c size (extended r s) y.0 l x
      → IsDrained c size r t ((a, s) ∷ l) (read_rest a y.1 x)
  unfolding read_rest sum view
  IsDrained-emptied saved f y k h =
      let fits = is_saved-fits c size a r s.filled saved start in
      let counted = ap (λ (u : Totals). u.count) k.totals in
      let sized = ap (λ (u : Totals). u.size) k.totals in
      let fills = ap (λ (u : Totals). u.filled) k.totals in
      rw k.kept (record {
        sound = (
          record {
            linked = k.same_listed ∙ i.linked;
            one_reference = k.one_reference;
            fits = k.roomy.fits;
            allocated = k.roomy.allocated;
          },
          h.sound,
        );
        count = omega (arith, h.count, counted);
        size_of = omega (arith, h.size_of, sized, k.same_size);
        filled = omega (arith, h.filled, fills, k.same_filled, covers.filled);
        within = h.within;
        whole = h.whole ∙ length-memcpy r.buffer r.filled (take s.filled s.buffer);
        text =
            rw (drain_saved c size a r s l i saved)
              (taken _ _ _ h.text (extended-text r s i (omega arith)));
        rest =
            rw (drain_saved c size a r s l i saved, f, k.same_folded ∙ f, k.same_text, h.rest) refl;
      })

  pub IsDrained-kept :
      is_saved c size a r s.filled ≡ false
      → (y : Totals × Option Section) → IsKept (record s { refcount = s.refcount + 1 }) y t
      → IsDrained c size r y.0 l x
      → IsDrained c size r t ((a, s) ∷ l) (read_rest a y.1 x)
  unfolding read_rest sum view
  IsDrained-kept saved y k h =
      let counted = ap (λ (u : Totals). u.count) k.totals in
      let sized = ap (λ (u : Totals). u.size) k.totals in
      let fills = ap (λ (u : Totals). u.filled) k.totals in
      rw k.kept (record {
        sound = (
          record {
            linked = k.same_listed ∙ i.linked;
            one_reference = k.one_reference;
            fits = k.roomy.fits;
            allocated = k.roomy.allocated;
          },
          h.sound,
        );
        count = omega (arith, h.count, counted);
        size_of = omega (arith, h.size_of, sized, k.same_size);
        filled = omega (arith, h.filled, fills, k.same_filled);
        within = h.within;
        whole = h.whole;
        text = rw (drain_kept c size a r s l i saved) h.text;
        rest = rw (drain_kept c size a r s l i saved, k.same_folded, k.same_text, h.rest) refl;
      })
