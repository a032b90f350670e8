-- ===== src/Machine/Create.antt =====
-- Creating and destroying a guest: `co_monitor_create` and `co_monitor_destroy` of
-- src/colinux/kernel/monitor.c, and what the driver holds of the host for the guest meanwhile.
use colinux_64bit.Base.{
  ℕ, ◌+◌, ◌*◌, ◌/◌, ◌%◌, Bool, true, false, ◌==◌, ltb, leb, if◌then◌else◌, List, [], ◌∷◌,
}
use colinux_64bit.Rc.{Rc, ok, out_of_memory, version_mismatched, hostmem_use_limit_reached}
use colinux_64bit.Arch.{word, add32, sub32}

-- The fields of `co_manager_t` that guests change or ask for.
pub record Manager : Type 0 where
  pub hostmem_amount : ℕ
  pub hostmem_used : ℕ
  pub hostmem_usage_limit : ℕ
  pub monitors_count : ℕ

-- What is held for one guest. `devices` are the SCSI and block devices and the file systems of the
-- configuration, `video_devs` the video devices by their units, `frames` the pages of the memory.
pub record Holdings : Type 0 where
  pub monitor : Bool
  pub console : Bool
  pub connected_modules_write_lock : Bool
  pub linux_message_queue_mutex : Bool
  pub idle_wait : Bool
  pub io_buffer : Bool
  pub shared : Bool
  pub osdep : Bool
  pub frames : Bool
  pub timer : Bool
  pub devices : Bool
  pub video_devs : List Bool
  pub video_buffer : Bool

abbrev pub nothing_held : Holdings
nothing_held = record {
  monitor = false;
  console = false;
  connected_modules_write_lock = false;
  linux_message_queue_mutex = false;
  idle_wait = false;
  io_buffer = false;
  shared = false;
  osdep = false;
  frames = false;
  timer = false;
  devices = false;
  video_devs = [];
  video_buffer = false;
}

-- A unit of the video configuration, of which there are CO_MODULE_MAX_COVIDEO, 2, and whether there
-- is memory for its device.
pub data VideoUnit : Type 0 where
  disabled refused granted : VideoUnit

-- The request, and what the called functions answer. One that fails holds nothing, but for
-- `load_configuration`; `load_devices` is its part before the video devices.
pub record Answers : Type 0 where
  pub magic_fits : Bool
  pub ram_size : ℕ
  pub malloc_monitor : Bool
  pub console_create : Rc
  pub mutex_create_1 : Rc
  pub mutex_create_2 : Rc
  pub wait_create : Rc
  pub malloc_io_buffer : Bool
  pub alloc_shared_page : Rc
  pub queue_init : Rc
  pub os_init : Rc
  pub alloc_pp_ram_mapping : Rc
  pub timer_create : Rc
  pub load_devices : Rc
  pub video_units : List VideoUnit
  pub pci_setconfig : Rc
  pub malloc_video_buffer : Bool

abbrev pub Held : Type 0
Held = Manager × Holdings

-- The labels of the error path, each with those below it.
abbrev pub free_monitor : Held → Held
free_monitor (m, h) = (m, record h { monitor = false })

abbrev pub free_console : Held → Held
free_console (m, h) = free_monitor (m, record h { console = false })

abbrev pub free_mutex1 : Held → Held
free_mutex1 (m, h) = free_console (m, record h { linux_message_queue_mutex = false })

abbrev pub free_mutex2 : Held → Held
free_mutex2 (m, h) = free_mutex1 (m, record h { connected_modules_write_lock = false })

abbrev pub free_wait : Held → Held
free_wait (m, h) = free_mutex2 (m, record h { idle_wait = false })

abbrev pub free_buffer : Held → Held
free_buffer (m, h) = free_wait (m, record h { io_buffer = false })

abbrev pub free_shared_page : Held → Held
free_shared_page (m, h) = free_buffer (m, record h { shared = false })

abbrev pub free_os_dep : Held → Held
free_os_dep (m, h) = free_shared_page (m, record h { osdep = false })

abbrev pub revert_used_mem : ℕ → Held → Held
revert_used_mem size (m, h) = free_os_dep (record m { hostmem_used = sub32 m.hostmem_used size }, h)

abbrev pub free_pp : ℕ → Held → Held
free_pp size (m, h) = revert_used_mem size (m, record h { frames = false })

abbrev pub destroy_timer : ℕ → Held → Held
destroy_timer size (m, h) = free_pp size (m, record h { timer = false })

abbrev pub put_unit : Bool → Rc × List Bool → Rc × List Bool
put_unit b (rc, devs) = (rc, b ∷ devs)

-- The loop over the video units: a refusal ends it, and leaves the devices of the units before.
unfoldable pub load_video : List VideoUnit → Rc × List Bool
load_video [] = (ok, [])
load_video (disabled ∷ units) = put_unit false (load_video units)
load_video (refused ∷ units) = (out_of_memory, [])
load_video (granted ∷ units) = put_unit true (load_video units)

-- Its end: error_3 to error_0 release the other devices, but no video device.
abbrev pub after_video : Rc → Rc × List Bool → Rc × (Bool × List Bool)
after_video pci (ok, devs) = (pci, (true, devs))
after_video pci (rc, devs) = (rc, (false, devs))

abbrev pub after_devices : Rc → Rc × (Bool × List Bool) → Rc × (Bool × List Bool)
after_devices ok rest = rest
after_devices rc rest = (rc, (false, []))

-- `load_configuration`: the code, and what is held then.
unfoldable pub load_configuration : Answers → Rc × (Bool × List Bool)
load_configuration a =
    after_devices a.load_devices (after_video a.pci_setconfig (load_video a.video_units))

-- `video_devs[0]`
abbrev pub first_unit : List Bool → Bool
first_unit [] = false
first_unit (b ∷ devs) = b

-- CO_LOWMEMORY_MAX_MB, of the guest's patch
abbrev pub lowmemory_max_mb : ℕ
lowmemory_max_mb = 984

-- `memory_size` in megabytes as configured, or by the host's memory.
abbrev pub configured_mb : ℕ → ℕ → ℕ
configured_mb ram_size amount =
    if ram_size == 0 then (if leb 128 amount then amount / 4 else 16) else ram_size

abbrev pub adjusted_mb : ℕ → ℕ
adjusted_mb mb = if ltb mb 8 then 8 else if ltb lowmemory_max_mb mb then lowmemory_max_mb else mb

-- `memory_size <<= 20`
unfoldable pub memory_size : ℕ → ℕ → ℕ
memory_size ram_size amount = adjusted_mb (configured_mb ram_size amount) * 0x10_0000 % word

-- `if (!CO_OK(rc)) goto ...`: the state with the new thing and what follows, or the error path.
abbrev pub attempt : Rc → Held → (Held → Rc × Held) → Held → Rc × Held
attempt ok held next undone = next held
attempt rc held next undone = (rc, undone)

abbrev pub allocate : Bool → Held → (Held → Rc × Held) → Held → Rc × Held
allocate true held next undone = next held
allocate false held next undone = (out_of_memory, undone)

abbrev pub enlist : Held → Rc × Held
enlist (m, h) = (ok, (record m { monitors_count = (m.monitors_count + 1) % word }, h))

module _ (a : Answers) (size : ℕ) where
  unfoldable pub video_stage : Held → Rc × Held
  video_stage (m, h) =
      if first_unit h.video_devs
      then allocate a.malloc_video_buffer (m, record h { video_buffer = true }) enlist
          (destroy_timer size (m, h))
      else enlist (m, h)

  unfoldable pub configuration_stage : Held → Rc × Held
  configuration_stage (m, h) =
      let (rc, (d, devs)) = load_configuration a in
      attempt rc (m, record h { devices = d; video_devs = devs }) video_stage
        (destroy_timer size (m, record h { devices = d; video_devs = devs }))

  unfoldable pub timer_stage : Held → Rc × Held
  timer_stage (m, h) =
      attempt a.timer_create (m, record h { timer = true }) configuration_stage
        (free_pp size (m, h))

  unfoldable pub memory_stage : Held → Rc × Held
  memory_stage (m, h) =
      if ltb m.hostmem_usage_limit (add32 m.hostmem_used size)
      then (hostmem_use_limit_reached, free_os_dep (m, h))
      else (let m' = record m { hostmem_used = add32 m.hostmem_used size } in
          attempt a.alloc_pp_ram_mapping (m', record h { frames = true }) timer_stage
            (revert_used_mem size (m', h)))

module _ (a : Answers) where
  unfoldable pub os_stage : Held → Rc × Held
  os_stage (m, h) =
      attempt a.os_init (m, record h { osdep = true })
        (memory_stage a (memory_size a.ram_size m.hostmem_amount)) (free_shared_page (m, h))

  unfoldable pub shared_stage : Held → Rc × Held
  shared_stage (m, h) =
      attempt a.alloc_shared_page (m, record h { shared = true })
        (λ t. attempt a.queue_init t os_stage (free_shared_page t)) (free_buffer (m, h))

  unfoldable pub wait_stage : Held → Rc × Held
  wait_stage (m, h) =
      attempt a.wait_create (m, record h { idle_wait = true })
        (λ (n, g).
          allocate a.malloc_io_buffer (n, record g { io_buffer = true }) shared_stage
            (free_wait (n, g)))
        (free_mutex2 (m, h))

  unfoldable pub lock_stage : Held → Rc × Held
  lock_stage (m, h) =
      attempt a.mutex_create_1 (m, record h { connected_modules_write_lock = true })
        (λ (n, g).
          attempt a.mutex_create_2 (n, record g { linux_message_queue_mutex = true }) wait_stage
            (free_mutex1 (n, g)))
        (free_console (m, h))

  -- `co_monitor_create`
  unfoldable pub create : Manager → Rc × Held
  create m =
      if a.magic_fits
      then allocate a.malloc_monitor (m, record nothing_held { monitor = true })
          (λ (n, g).
            attempt a.console_create (n, record g { console = true }) lock_stage
              (free_monitor (n, g)))
          (m, nothing_held)
      else (version_mismatched, (m, nothing_held))

abbrev pub free_first_unit : List Bool → List Bool
free_first_unit [] = []
free_first_unit (b ∷ devs) = false ∷ devs

-- `co_monitor_destroy`: nothing there destroys `idle_wait`, and of the video devices only the first is
-- freed, since CONFIG_COOPERATIVE_VIDEO is not set. Whether the process still has the shared page
-- mapped (`user_context`) is left out.
unfoldable pub destroy : ℕ → Held → Held
destroy size (m, h) = (
  record m { hostmem_used = sub32 m.hostmem_used size },
  record h {
    devices = false;
    video_devs = free_first_unit h.video_devs;
    frames = false;
    io_buffer = false;
    shared = false;
    osdep = false;
    timer = false;
    connected_modules_write_lock = false;
    linux_message_queue_mutex = false;
    console = false;
    video_buffer = false;
    monitor = false;
  },
)
