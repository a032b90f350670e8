-- ===== src/Log/Entries.antt =====
-- The log as events: what is written, kept, read and printed are whole records.
use colinux_64bit.Base.{
  ℕ, ◌+◌, ◌-◌, ◌≤◌, ◌<◌, ◌^◌, ◌≡◌, refl, sym, ap, ◌∙◌, inl, inr, Bool, true, false, not, ◌&&◌, List,
  [], ◌∷◌, ◌++◌, ◌==◌, ltb, if◌then◌else◌, length, take, drop, take-append-drop, length-take,
  Bool-cases, arith,
}
use mathlib.Core.Path.{subst}
use mathlib.Core.List.{append_assoc, append-nil}
use colinux_64bit.Log.Section.{Section, Log}
use colinux_64bit.Log.Read.{Copying, debug_read}
use colinux_64bit.Log.Sound.{AllSound, sum, IsValid, Allocates}
use colinux_64bit.Log.Refine.{Chunk, view, drain, length-text}
use colinux_64bit.Log.Loop.{debug_read-drain}
use colinux_64bit.Log.Content.{log_record, extend}
use colinux_64bit.Log.Tlv.{Event, debug_event, parse_tlv_buffer}
use colinux_64bit.Log.RoundTrip.{IsEvent, records, entries, AreEvents, parse_tlv_buffer-records}

-- Every chunk's text is records of events, whole.
abbrev pub AreRecords : List Chunk → Type 0
AreRecords [] = Unit {0}
AreRecords (c ∷ l) = ((es : List (Event × ℕ)) × AreEvents es × (c.text ≡ records es)) × AreRecords l

-- The events of all chunks, in their order.
pub events : (l : List Chunk) → AreRecords l → List (Event × ℕ)
events [] h = []
events (c ∷ l) h = h.0.0 ++ events l h.1

pub records-append : (k l : List (Event × ℕ)) → records (k ++ l) ≡ records k ++ records l
records-append [] l = refl
records-append ((e, index) ∷ k) l =
    rw (records-append k l)
      (sym (append_assoc (log_record index (debug_event e)) (records k) (records l)))

AreEvents-append : (k l : List (Event × ℕ)) → AreEvents k → AreEvents l → AreEvents (k ++ l)
AreEvents-append [] l h g = g
AreEvents-append (e ∷ k) l h g = (h.0, AreEvents-append k l h.1 g)

-- A record that is written is one more record of its chunk.
pub extend-AreRecords :
    (a : ℕ) (e : Event) (index : ℕ) (l : List Chunk)
    → IsEvent e
    → index < 2 ^ 32
    → AreRecords l
    → AreRecords (extend a (log_record index (debug_event e)) l)
unfolding extend
extend-AreRecords a e index [] i n h = tt
extend-AreRecords a e index (c ∷ l) i n h = elim (Bool-cases (c.address == a)) [
  | inl t ↦ rw t (
    (
      h.0.0 ++ ((e, index) ∷ []),
      AreEvents-append h.0.0 ((e, index) ∷ []) h.0.1 ((i, n), tt),
      ap (λ (p : List ℕ). p ++ log_record index (debug_event e)) h.0.2
          ∙ sym (
              records-append h.0.0 ((e, index) ∷ [])
              ∙ ap (λ (p : List ℕ). records h.0.0 ++ p) (append-nil _)),
    ),
    h.1,
  )
  | inr t ↦ rw t (h.0, extend-AreRecords a e index l i n h.1)
]

if-AreRecords :
    (b : Bool) (k l : List Chunk) → AreRecords k → AreRecords l → AreRecords (if b then k else l)
if-AreRecords true k l h g = h
if-AreRecords false k l h g = g

-- A reader takes whole records and leaves whole records.
drain-AreRecords :
    (copied : ℕ → Bool) (room : ℕ) (l : List Chunk)
    → AreRecords l
    → ((es : List (Event × ℕ)) × AreEvents es × ((drain copied room l).0 ≡ records es))
      × AreRecords (drain copied room l).1
unfolding drain
drain-AreRecords copied room [] h = (([], tt, refl), tt)
drain-AreRecords copied room (c ∷ l) h =
    let saved = not (ltb room (length c.text)) && copied c.address in
    elim (Bool-cases saved) [
      | inl t ↦
          let ih = drain-AreRecords copied (room - length c.text) l h.1 in
          rw t (
            (
              h.0.0 ++ ih.0.0,
              AreEvents-append h.0.0 ih.0.0 h.0.1 ih.0.1,
              ap (λ (p : List ℕ). p ++ (drain copied (room - length c.text) l).0) h.0.2
                  ∙ ap (λ (p : List ℕ). records h.0.0 ++ p) ih.0.2
                  ∙ sym (records-append h.0.0 ih.0.0),
            ),
            if-AreRecords c.closed _ _ ih.1 (([], tt, refl), ih.1),
          )
      | inr t ↦ let ih = drain-AreRecords copied room l h.1 in rw t (ih.0, (h.0, ih.1))
    ]

total : List Chunk → ℕ
total [] = 0
total (c ∷ l) = length c.text + total l

-- With room for everything and no copy that fails, the reader takes all events in their order.
drain_all :
    (copied : ℕ → Bool) (room : ℕ) (l : List Chunk) (h : AreRecords l)
    → ((a : ℕ) → copied a ≡ true)
    → total l ≤ room
    → (drain copied room l).0 ≡ records (events l h)
unfolding drain total events
drain_all copied room [] h good n = refl
drain_all copied room (c ∷ l) h good n =
    let fits : not (ltb room (length c.text)) ≡ true = ground arith in
    rw
      (
        fits,
        good c.address,
        drain_all copied (room - length c.text) l h.1 good (omega arith),
        h.0.2,
      )
      (sym (records-append h.0.0 (events l h.1)))

total-view : (l : List (ℕ × Section)) → AllSound l → total (view l) ≡ sum (λ s. s.filled) l
unfolding total view sum
total-view [] h = refl
total-view ((a, s) ∷ l) h = omega (arith, length-text s h.0, total-view l h.1)

-- The buffer's filled part, parsed.
parse-records :
    (buffer : List ℕ) (filled : ℕ) (es : List (Event × ℕ))
    → filled ≤ length buffer
    → take filled buffer ≡ records es
    → AreEvents es
    → parse_tlv_buffer buffer filled ≡ entries es
parse-records buffer filled es n h v =
    let long : length (records es) ≡ filled =
      ap length (sym h) ∙ omega (arith, length-take filled buffer) in
    let whole : records es ++ drop filled buffer ≡ buffer =
      ap (λ (p : List ℕ). p ++ drop filled buffer) (sym h) ∙ take-append-drop filled buffer in
    subst (λ (b : List ℕ). parse_tlv_buffer b filled ≡ entries es) whole
      (subst (λ n. parse_tlv_buffer (records es ++ drop filled buffer) n ≡ entries es) long
        (parse_tlv_buffer-records es (drop filled buffer) v))

-- On a sound log whose texts are whole records of events, a reader gets whole records, whatever the
-- room and the copies: what it gets parses into a sequence of events, and what stays in the log is
-- whole records again.
pub debug_read-entries :
    (c : Copying) (d : Log) (buffer : List ℕ) (size : ℕ)
    → ((a : ℕ) → Allocates (c.malloc a))
    → IsValid d
    → size ≤ length buffer
    → AreRecords (view d.sections)
    → ((es : List (Event × ℕ)) × AreEvents es
        × (parse_tlv_buffer
              (debug_read c d buffer size).2.buffer
              (debug_read c d buffer size).2.filled
            ≡ entries es))
      × AreRecords (view (debug_read c d buffer size).1.sections)
debug_read-entries c d buffer size alloc v room h =
    let k = debug_read-drain c d buffer size alloc v room in
    let w = drain-AreRecords c.copied size (view d.sections) h in
    (
      (w.0.0, w.0.1, parse-records _ _ w.0.0 (omega (arith, k.1, k.2)) (k.3 ∙ w.0.2) w.0.1),
      subst AreRecords (sym k.4) w.1,
    )

AreEvents-events : (l : List Chunk) (h : AreRecords l) → AreEvents (events l h)
unfolding events
AreEvents-events [] h = tt
AreEvents-events (c ∷ l) h = AreEvents-append h.0.0 (events l h.1) h.0.1 (AreEvents-events l h.1)

-- On a sound log whose texts are whole records of events, with room for all the text and no copy
-- that fails, what a reader gets parses into all the events of the log, the driver's index with
-- each, section by section in the order of writing.
pub debug_read-all :
    (c : Copying) (d : Log) (buffer : List ℕ) (size : ℕ)
    → ((a : ℕ) → Allocates (c.malloc a))
    → IsValid d
    → size ≤ length buffer
    → (h : AreRecords (view d.sections)) → ((a : ℕ) → c.copied a ≡ true)
    → d.totals.filled ≤ size
    → parse_tlv_buffer (debug_read c d buffer size).2.buffer (debug_read c d buffer size).2.filled
      ≡ entries (events (view d.sections) h)
debug_read-all c d buffer size alloc v room h good n =
    let k = debug_read-drain c d buffer size alloc v room in
    let w =
      drain_all c.copied size (view d.sections) h good
        (omega (arith, total-view d.sections v.sound, v.counts)) in
    parse-records _ _ (events (view d.sections) h) (omega (arith, k.1, k.2)) (k.3 ∙ w)
      (AreEvents-events (view d.sections) h)
