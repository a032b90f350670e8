-- ===== src/Block/Count.antt =====
-- The use count of a block device, against the state of its file.
use colinux_64bit.Base.{
  ℕ, ◌+◌, ◌≤◌, ◌<◌, ◌≡◌, ◌≢◌, refl, ap, ◌∙◌, inl, inr, Bool, true, false, Option, none, some, List,
  [], ◌∷◌, ◌==◌, if◌then◌else◌, arith, Bool-cases, ==_iff, length, Option-cases,
}
use mathlib.Core.Path.{subst}
use mathlib.Core.Option.{some-injective}
use colinux_64bit.Rc.{Rc, ok, error}
use colinux_64bit.Arch.{word}
use colinux_64bit.Block.{
  BlockType, open_, stat, read, write, close, get_alias, BlockDev, closed, opened, Request, FileOps,
  Io, file_service, serve, count, get_alias_of, request_on, Devices, dev_from_index,
  intern_block_request,
}

-- The file is open exactly while the device is in use.
pub record IsConsistent (d : BlockDev) : Type 0 where
  pub idle : d.use_count ≡ 0 → d.state ≡ closed
  pub busy : d.use_count ≢ 0 → d.state ≡ opened

-- What a request does to the number of users: a granted open adds one, a granted close takes one.
abbrev pub opens : BlockType → Rc → ℕ
opens open_ ok = 1
opens type rc = 0

abbrev pub closes : BlockType → Rc → ℕ
closes close ok = 1
closes type rc = 0

module _ {W : Type 0} (ops : FileOps W) where
  abbrev Counted : BlockType → Io W → Rc × Io W → Type 0
  Counted type io (rc, io') =
      (io'.dev.use_count + closes type rc ≡ io.dev.use_count + opens type rc) × IsConsistent io'.dev

  -- The new request keeps the type of the old one.
  request_on-Counted :
      (type : BlockType) (io : Io W)
      → io.request.type ≡ type
      → IsConsistent io.dev
      → io.dev.use_count + 1 < word
      → Counted type io (request_on ops type io)
  unfolding request_on serve file_service count get_alias_of
  request_on-Counted open_ io e c b = ground (arith, c.idle, c.busy)
  request_on-Counted stat io e c b = ground (arith, c.idle, c.busy)
  request_on-Counted read io e c b = ground (arith, c.idle, c.busy)
  request_on-Counted write io e c b = ground (arith, c.idle, c.busy)
  request_on-Counted close io e c b = ground (arith, c.idle, c.busy)
  request_on-Counted get_alias io e c b = ground (arith, c.idle, c.busy)

opens_le : (type : BlockType) (rc : Rc) → opens type rc ≤ 1
opens_le open_ ok = omega arith
opens_le open_ _ = omega arith
opens_le _ rc = omega arith

if_le : (b : Bool) (x : ℕ) → x ≤ 1 → (if b then x else 0) ≤ 1
if_le true x h = h
if_le false x h = omega arith

abbrev use_of : Option BlockDev → ℕ
use_of none = 0
use_of (some d) = d.use_count

-- Every registered device is consistent.
abbrev pub AllConsistent : Devices → Type 0
AllConsistent devs = (j : ℕ) (d : BlockDev) → devs j ≡ some d → IsConsistent d

-- The users of each device.
abbrev pub users : Devices → ℕ → ℕ
users devs j = use_of (devs j)

-- A request, as it was answered: the device, what was asked and the code.
abbrev pub Answer : Type 0
Answer = ℕ × BlockType × Rc

abbrev pub opens_on : ℕ → List Answer → ℕ
opens_on j [] = 0
opens_on j ((i, type, rc) ∷ log) = (if j == i then opens type rc else 0) + opens_on j log

abbrev pub closes_on : ℕ → List Answer → ℕ
closes_on j [] = 0
closes_on j ((i, type, rc) ∷ log) = (if j == i then closes type rc else 0) + closes_on j log

closes-error : (type : BlockType) → closes type error ≡ 0
closes-error close = refl
closes-error _ = refl

opens-error : (type : BlockType) → opens type error ≡ 0
opens-error open_ = refl
opens-error _ = refl

dev_from_index-some :
    (devs : Devices) (i : ℕ) (d : BlockDev) → dev_from_index devs i ≡ some d → devs i ≡ some d
unfolding dev_from_index
dev_from_index-some devs i d e = ground arith

abbrev with_dev : Devices → ℕ → BlockDev → Devices
with_dev devs i d j = if j == i then some d else devs j

replaced_at :
    (b : Bool) (d d' : BlockDev) (o : Option BlockDev)
    → IsConsistent d
    → (o ≡ some d' → IsConsistent d')
    → (if b then some d else o) ≡ some d'
    → IsConsistent d'
replaced_at true d d' o h k e = subst IsConsistent (some-injective d d' e) h
replaced_at false d d' o h k e = k e

replaced :
    (devs : Devices) (i : ℕ) (d : BlockDev)
    → AllConsistent devs
    → IsConsistent d
    → AllConsistent (with_dev devs i d)
replaced devs i d c h j d' = replaced_at (j == i) d d' (devs j) h (c j d')

replaced_users :
    (devs : Devices) (i : ℕ) (d d' : BlockDev) (taken given : ℕ)
    → devs i ≡ some d
    → d'.use_count + taken ≡ d.use_count + given
    → (j : ℕ)
    → users (with_dev devs i d') j + (if j == i then taken else 0)
      ≡ users devs j + (if j == i then given else 0)
replaced_users devs i d d' taken given e h j = elim (Bool-cases (j == i)) [
  | inl y ↦
      let f : users devs j ≡ d.use_count =
        ap (λ k. users devs k) ((==_iff j i).0 y) ∙ ap use_of e in
      rw y (omega (arith, f, h))
  | inr y ↦ rw y refl
]

module _ {W : Type 0} (ops : FileOps W) where
  -- Requests in sequence, to any devices.
  unfoldable pub run : Devices → List (ℕ × Request) → W → Devices × List Answer × W
  run devs [] w = (devs, [], w)
  run devs ((i, r) ∷ rs) w =
      let (rc, devs', r', w') = intern_block_request ops devs i r w in
      let (devs'', log, w'') = run devs' rs w' in (devs'', (i, r.type, rc) ∷ log, w'')

  -- One request, in the table of devices.
  intern_counts :
      (devs : Devices) (i : ℕ) (r : Request) (w : W)
      → AllConsistent devs
      → users devs i + 1 < word
      → let (rc, devs', r', w') = intern_block_request ops devs i r w in
        AllConsistent devs'
        × ((j : ℕ)
            → users devs' j + (if j == i then closes r.type rc else 0)
              ≡ users devs j + (if j == i then opens r.type rc else 0))
  unfolding intern_block_request
  intern_counts devs i r w c b = elim (Option-cases (dev_from_index devs i)) [
    | inl e ↦
        rw (e, intern_block_request)
          (c, λ j. ground (arith, closes-error r.type, opens-error r.type))
    | inr (d, e) ↦
        let f : devs i ≡ some d = dev_from_index-some devs i d e in
        let io : Io W = record { dev = d; request = r; world = w } in
        let q = request_on-Counted ops r.type io refl (c i d f) (rw f at b) in
        rw (e, intern_block_request)
          (
            replaced devs i (request_on ops r.type io).1.dev c q.1,
            λ j.
                replaced_users devs i d (request_on ops r.type io).1.dev
                  (closes r.type (request_on ops r.type io).0)
                  (opens r.type (request_on ops r.type io).0) f q.0 j,
          )
  ]

  -- For any requests in sequence to the devices, whatever the host's files answer: afterwards each
  -- device has as many users as before, plus the granted opens, less the granted closes on it; and
  -- the file of each is open exactly while it has users. (The counts have to fit a word.)
  pub run_counts :
      (reqs : List (ℕ × Request)) (devs : Devices) (w : W)
      → AllConsistent devs
      → ((j : ℕ) → users devs j + length reqs < word)
      → let (devs', log, w') = run devs reqs w in
        AllConsistent devs'
        × ((j : ℕ) → users devs' j + closes_on j log ≡ users devs j + opens_on j log)
  unfolding run
  run_counts [] devs w c b = (c, λ j. refl)
  run_counts ((i, r) ∷ reqs) devs w c b =
      let step = intern_counts devs i r w c (omega (arith, b i)) in
      let rest =
        run_counts reqs (intern_block_request ops devs i r w).1
          (intern_block_request ops devs i r w).3 step.0
          (λ j. omega (
            arith,
            step.1 j,
            b j,
            if_le (j == i) (opens r.type (intern_block_request ops devs i r w).0)
                (opens_le r.type (intern_block_request ops devs i r w).0),
          )) in
      (rest.0, λ j. omega (arith, step.1 j, rest.1 j))
