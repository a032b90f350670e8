-- ===== src/Block/Clear.antt =====
-- The release of every block device of a guest.
use colinux_64bit.Base.{
  ℕ, zero, suc, ◌+◌, ◌<◌, ◌≡◌, refl, sym, ap, ◌∙◌, inl, inr, Bool, true, false, ◌&&◌, Option, none,
  some, List, [], ◌∷◌, ◌==◌, ltb, leb, if◌then◌else◌, arith, Option-cases, Bool-cases, ==_iff,
}
use colinux_64bit.Block.{
  BlockDev, Devices, unregister_device, free_devices, unregister_and_free, max_cobd,
}

-- The registered devices among the next `left` numbers from i on, in order.
abbrev pub with_next : Option BlockDev → List BlockDev → List BlockDev
with_next none ds = ds
with_next (some d) ds = d ∷ ds

abbrev pub registered : Devices → ℕ → ℕ → List BlockDev
registered devs zero i = []
registered devs (suc left) i = with_next (devs i) (registered devs left (suc i))

abbrev pub release : {W : Type 0} → (BlockDev → W → W) → List BlockDev → W → W
release free [] w = w
release free (d ∷ ds) w = release free ds (free d w)

if_same : (b : Bool) (o : Option BlockDev) → (if b then o else o) ≡ o
if_same true o = refl
if_same false o = refl

registered-unregister_device :
    (devs : Devices) (left i k : ℕ)
    → k < i
    → registered (unregister_device devs k) left i ≡ registered devs left i
unfolding unregister_device
registered-unregister_device devs zero i k h = refl
registered-unregister_device devs (suc left) i k h =
    let e : (i == k) ≡ false = ground arith in
    rw (e, registered-unregister_device devs left (suc i) k (omega arith)) refl

abbrev Cleared : {W : Type 0} → (BlockDev → W → W) → Devices → ℕ → ℕ → W → Devices × W → Type 0
Cleared free devs left i w (devs', w') =
    ((j : ℕ) → devs' j ≡ (if leb i j && ltb j (i + left) then none else devs j))
    × (w' ≡ release free (registered devs left i) w)

-- The range without its first number, where that number has no device (any more).
past_none :
    (devs : Devices) (left i j : ℕ)
    → devs i ≡ none
    → (if leb (suc i) j && ltb j (suc i + left) then none else devs j)
      ≡ (if leb i j && ltb j (i + suc left) then none else devs j)
past_none devs left i j e = elim (Bool-cases (i == j)) [
  | inl y ↦
      let f : i ≡ j = (==_iff i j).0 y in
      let g : devs j ≡ none = ap devs (sym f) ∙ e in rw g (if_same _ none ∙ sym (if_same _ none))
  | inr y ↦ ground arith
]

past_some :
    (devs : Devices) (left i j : ℕ)
    → (if leb (suc i) j && ltb j (suc i + left) then none else (if j == i then none else devs j))
      ≡ (if leb i j && ltb j (i + suc left) then none else devs j)
past_some devs left i j = ground arith

free_devices-Cleared :
    {W : Type 0} (free : BlockDev → W → W) (left i : ℕ) (devs : Devices) (w : W)
    → Cleared free devs left i w (free_devices free left i devs w)
unfolding free_devices unregister_device
free_devices-Cleared free zero i devs w = (λ j. ground arith, refl)
free_devices-Cleared free (suc left) i devs w = elim (Option-cases (devs i)) [
  | inl e ↦
      let r = free_devices-Cleared free left (suc i) devs w in
      rw (e, free_devices) (λ j. r.0 j ∙ past_none devs left i j e, r.1)
  | inr (d, e) ↦
      let r = free_devices-Cleared free left (suc i) (unregister_device devs i) (free d w) in
      rw (e, free_devices)
        (
          λ j. r.0 j ∙ past_some devs left i j,
          r.1 ∙ rw (registered-unregister_device devs left (suc i) i (omega arith)) refl,
        )
]

-- Whatever is registered, and whatever a device's release does: afterwards no number below
-- CO_MODULE_MAX_COBD has a device, and the devices that had one are released, each once and in the
-- order of their numbers.
pub unregister_and_free_lem :
    {W : Type 0} (free : BlockDev → W → W) (devs : Devices) (w : W)
    → let (devs', w') = unregister_and_free free devs w in
      ((j : ℕ) → devs' j ≡ (if ltb j max_cobd then none else devs j))
      × (w' ≡ release free (registered devs max_cobd 0) w)
unfolding unregister_and_free
unregister_and_free_lem free devs w =
    let r = free_devices-Cleared free max_cobd 0 devs w in (λ j. r.0 j ∙ ground arith, r.1)
