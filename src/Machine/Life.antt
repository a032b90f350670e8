-- ===== src/Machine/Life.antt =====
-- `co_monitor_create` on every path, what is held afterwards, and what `co_monitor_destroy` gives
-- back.
use colinux_64bit.Base.{
  ℕ, ◌+◌, ◌*◌, ◌%◌, ◌<◌, ◌≤◌, ◌≡◌, refl, sym, ap, ◌∙◌, ◌⊎◌, inl, inr, Bool, true, false, List,
  arith, ltb, if◌then◌else◌,
}
use mathlib.Core.Path.{subst}
use mathlib.Core.Bool.{false≢true}
use colinux_64bit.Rc.{Rc, ok, co_ok}
use colinux_64bit.Arch.{word, add32, sub32}
use colinux_64bit.Machine.Create.{
  Manager, Holdings, Answers, Held, nothing_held, attempt, allocate, enlist, video_stage,
  configuration_stage, timer_stage, memory_stage, os_stage, shared_stage, wait_stage, lock_stage,
  create, destroy, memory_size, destroy_timer, load_configuration, load_video, after_video,
  after_devices, first_unit, free_first_unit,
}

-- All that is held for a guest, with the video devices `devs` and a buffer for the first or not.
abbrev pub complete : List Bool → Bool → Holdings
complete devs has_video = record {
  monitor = true;
  console = true;
  connected_modules_write_lock = true;
  linux_message_queue_mutex = true;
  idle_wait = true;
  io_buffer = true;
  shared = true;
  osdep = true;
  frames = true;
  timer = true;
  devices = true;
  video_devs = devs;
  video_buffer = has_video;
}

abbrev pub size_of : Answers → Manager → ℕ
size_of a m = memory_size a.ram_size m.hostmem_amount

-- The video devices of the configuration, and all its devices.
abbrev pub loaded_units : Answers → List Bool
loaded_units a = (load_configuration a).1.1

abbrev pub left_devices : Answers → Holdings
left_devices a = record nothing_held {
  devices = (load_configuration a).1.0;
  video_devs = loaded_units a;
}

-- The host has everything back, but for the first lock where the second was refused, and what
-- `load_configuration` has left where it fails or the video buffer is refused.
abbrev pub Undone : Answers → Manager → Held → Type 0
Undone a m s =
    (s ≡ (m, nothing_held))
    ⊎ ((co_ok a.mutex_create_2 ≡ false)
        × (s ≡ (m, record nothing_held { connected_modules_write_lock = true })))
    ⊎ (((co_ok (load_configuration a).0 ≡ false)
          ⊎ ((first_unit (loaded_units a) ≡ true) × (a.malloc_video_buffer ≡ false)))
        × (s ≡ (m, left_devices a)))

abbrev pub Created : Answers → Manager → Rc × Held → Type 0
Created a m (ok, s) =
    (add32 m.hostmem_used (size_of a m) ≤ m.hostmem_usage_limit)
    × (s ≡ (
      record m {
        hostmem_used = add32 m.hostmem_used (size_of a m);
        monitors_count = (m.monitors_count + 1) % word;
      },
      complete (loaded_units a) (first_unit (loaded_units a)),
    ))
Created a m (rc, s) = Undone a m s

-- A configuration without an error has all its devices; one with an error before or in the video
-- devices has none but those.
devices_loaded :
    (a : Answers) → co_ok (load_configuration a).0 ≡ true → (load_configuration a).1.0 ≡ true
unfolding load_configuration
devices_loaded a e = go a.load_devices a.pci_setconfig (load_video a.video_units) e
  where
    go :
        (d p : Rc) (v : Rc × List Bool)
        → co_ok (after_devices d (after_video p v)).0 ≡ true
        → (after_devices d (after_video p v)).1.0 ≡ true
    go ok p (ok, l) e = refl
    go ok p (_, l) e = absurd (false≢true e)
    go _ p v e = absurd (false≢true e)

-- A size is whole megabytes, from 8 up to 984.
pub memory_size_range :
    (ram_size amount : ℕ)
    → (0x80_0000 ≤ memory_size ram_size amount)
      × (memory_size ram_size amount ≤ 984 * 0x10_0000)
      × (memory_size ram_size amount % 0x10_0000 ≡ 0)
unfolding memory_size
memory_size_range ram_size amount = ground arith

sub32-add32 : (u s : ℕ) → u < word → s < word → sub32 (add32 u s) s ≡ u
sub32-add32 u s h k = omega arith

module _ (a : Answers) (m : Manager) where
  attempt-Created :
      (rc : Rc) (t : Held) (next : Held → Rc × Held) (undone : Held)
      → (co_ok rc ≡ true → Created a m (next t))
      → (co_ok rc ≡ false → Undone a m undone)
      → Created a m (attempt rc t next undone)
  attempt-Created ok t next undone n u = n refl
  attempt-Created _ t next undone n u = u refl

  allocate-Created :
      (b : Bool) (t : Held) (next : Held → Rc × Held) (undone : Held)
      → Created a m (next t)
      → (b ≡ false → Undone a m undone)
      → Created a m (allocate b t next undone)
  allocate-Created true t next undone n u = n
  allocate-Created false t next undone n u = u refl

  if-Created :
      (b : Bool) (x y : Rc × Held)
      → (b ≡ true → Created a m x)
      → (b ≡ false → Created a m y)
      → Created a m (if b then x else y)
  if-Created true x y f g = f refl
  if-Created false x y f g = g refl

abbrev charged : Answers → Manager → Manager
charged a m = record m { hostmem_used = add32 m.hostmem_used (size_of a m) }

-- What is held at the start of each stage.
abbrev at_lock : Holdings
at_lock = record nothing_held { monitor = true; console = true }

abbrev at_wait : Holdings
at_wait = record at_lock { connected_modules_write_lock = true; linux_message_queue_mutex = true }

abbrev at_shared : Holdings
at_shared = record at_wait { idle_wait = true; io_buffer = true }

abbrev at_memory : Holdings
at_memory = record at_shared { shared = true; osdep = true }

abbrev at_configuration : Holdings
at_configuration = record at_memory { frames = true; timer = true }

abbrev at_video : Answers → Holdings
at_video a = record at_configuration {
  devices = (load_configuration a).1.0;
  video_devs = loaded_units a;
}

module _ (a : Answers) (m : Manager) (below : m.hostmem_used < word) where
  reverted :
      (h : Holdings)
      → ◌≡◌ {A = Held}
          (
            record (charged a m) { hostmem_used = sub32 (charged a m).hostmem_used (size_of a m) },
            h,
          )
          (m, h)
  reverted h =
      ap {B = Held} (λ u. (record m { hostmem_used = u }, h))
        (sub32-add32 m.hostmem_used (size_of a m) below
          (let r = memory_size_range a.ram_size m.hostmem_amount in omega arith))

  module _ (fits : add32 m.hostmem_used (size_of a m) ≤ m.hostmem_usage_limit) where
    module _ (loads : co_ok (load_configuration a).0 ≡ true) where
      listed :
          (b : Bool)
          → first_unit (loaded_units a) ≡ b
          → ◌≡◌ {A = Held}
              (enlist (charged a m, record (at_video a) { video_buffer = b })).1
              (enlist (charged a m, complete (loaded_units a) (first_unit (loaded_units a)))).1
      listed b e =
          ap {B = Held}
            (λ d. (enlist (charged a m, record (at_video a) { devices = d; video_buffer = b })).1)
            (devices_loaded a loads)
          ∙ ap {B = Held} (λ v. (enlist (charged a m, complete (loaded_units a) v)).1) (sym e)

      video_stage-Created : Created a m (video_stage a (size_of a m) (charged a m, at_video a))
      unfolding video_stage
      video_stage-Created =
          if-Created a m (first_unit (loaded_units a)) _ _
            (λ e.
              allocate-Created a m a.malloc_video_buffer
                (charged a m, record (at_video a) { video_buffer = true }) enlist
                (destroy_timer (size_of a m) (charged a m, at_video a)) (fits, listed true e)
                (λ f. inr (inr (inr (e, f), reverted (left_devices a)))))
            (λ e. (fits, listed false e))

    timer_stage-Created :
        Created a m (timer_stage a (size_of a m) (charged a m, record at_memory { frames = true }))
    unfolding timer_stage configuration_stage
    timer_stage-Created =
        attempt-Created a m a.timer_create (charged a m, at_configuration)
          (configuration_stage a (size_of a m)) _
          (λ t.
            attempt-Created a m (load_configuration a).0 (charged a m, at_video a)
              (video_stage a (size_of a m)) _ video_stage-Created
              (λ f. inr (inr (inl f, reverted (left_devices a)))))
          (λ f. inl (reverted nothing_held))

  memory_stage-Created : Created a m (memory_stage a (size_of a m) (m, at_memory))
  unfolding memory_stage
  memory_stage-Created =
      if-Created a m (ltb m.hostmem_usage_limit (add32 m.hostmem_used (size_of a m))) _ _
        (λ e. inl refl)
        (λ e.
          attempt-Created a m a.alloc_pp_ram_mapping
            (charged a m, record at_memory { frames = true }) (timer_stage a (size_of a m)) _
            (λ t. timer_stage-Created (ground arith)) (λ f. inl (reverted nothing_held)))

  wait_stage-Created : Created a m (wait_stage a (m, at_wait))
  unfolding wait_stage shared_stage os_stage
  wait_stage-Created =
      attempt-Created a m a.wait_create (m, record at_wait { idle_wait = true }) _ _
        (λ t.
          allocate-Created a m a.malloc_io_buffer (m, at_shared) (shared_stage a) _
            (attempt-Created a m a.alloc_shared_page (m, record at_shared { shared = true }) _ _
              (λ t.
                attempt-Created a m a.queue_init (m, record at_shared { shared = true })
                  (os_stage a) _
                  (λ t.
                    attempt-Created a m a.os_init (m, at_memory) (memory_stage a (size_of a m)) _
                      (λ t. memory_stage-Created) (λ f. inl refl))
                  (λ f. inl refl))
              (λ f. inl refl))
            (λ f. inl refl))
        (λ f. inl refl)

  lock_stage-Created : Created a m (lock_stage a (m, at_lock))
  unfolding lock_stage
  lock_stage-Created =
      attempt-Created a m a.mutex_create_1
        (m, record at_lock { connected_modules_write_lock = true }) _ _
        (λ t.
          attempt-Created a m a.mutex_create_2 (m, at_wait) (wait_stage a) _
            (λ t. wait_stage-Created) (λ f. inr (inl (f, refl))))
        (λ f. inl refl)

  -- For a host whose memory in use is a word, whatever is refused: where creating a guest succeeds,
  -- all is held, its memory is counted within the limit and the guest is listed. Where it fails,
  -- the host has everything back, memory in use included, but for the first lock where the second
  -- lock was refused, and what load_configuration has left where it has failed or the video buffer
  -- was refused.
  pub create-Created : Created a m (create a m)
  unfolding create
  create-Created =
      if-Created a m a.magic_fits _ _
        (λ e.
          allocate-Created a m a.malloc_monitor (m, record nothing_held { monitor = true }) _ _
            (attempt-Created a m a.console_create (m, at_lock) (lock_stage a) _
              (λ t. lock_stage-Created) (λ f. inl refl))
            (λ f. inl refl))
        (λ e. inl refl)

-- For a host whose memory in use is a word, a guest that has been created: destroying it gives
-- everything back, the memory in use included, except the event on which an idle guest waits and
-- the video devices other than the first.
pub destroy-create :
    (a : Answers) (m : Manager) (s : Held)
    → m.hostmem_used < word
    → create a m ≡ (ok, s)
    → ◌≡◌ {A = Held} (destroy (size_of a m) s) (
      record m { monitors_count = (m.monitors_count + 1) % word },
      record nothing_held { idle_wait = true; video_devs = free_first_unit (loaded_units a) },
    )
unfolding destroy
destroy-create a m s below e =
    let c : Created a m (ok, s) = subst (Created a m) e (create-Created a m below) in
    ap (destroy (size_of a m)) c.1
    ∙ ap {B = Held}
        (λ x. (
          record (x.0) { monitors_count = (m.monitors_count + 1) % word },
          record nothing_held { idle_wait = true; video_devs = free_first_unit (loaded_units a) },
        ))
        (reverted a m below nothing_held)
