-- ===== src/Machine/Tests.antt =====
-- A small machine with two pages of kernel memory.
use colinux_64bit.Base.{ℕ, ◌+◌, ◌*◌, ◌%◌, arith, ◌≡◌, refl, some, List, [], ◌∷◌, true, false}
use colinux_64bit.Rc.{ok, error, out_of_memory}
use colinux_64bit.Arch.{word}
use colinux_64bit.Space.Example.{guest, guest-IsValid}
use colinux_64bit.Machine.{
  Monitor, initialized, terminated, alloc_pages, load_section, load_initrd, initrd_start,
}
use colinux_64bit.Machine.Alloc.{Allocated, alloc_pages-Allocated}
use colinux_64bit.Machine.Create.{
  Manager, Answers, Holdings, Held, nothing_held, create, destroy, lock_stage, wait_stage,
  shared_stage, os_stage, memory_stage, timer_stage, configuration_stage, video_stage, memory_size,
  load_configuration, load_video, granted, refused,
}
use colinux_64bit.Machine.Life.{complete, size_of, Created, create-Created, destroy-create}
use colinux_64bit.Machine.Load.{IsLoaded, load_initrd-IsLoaded}

abbrev machine : Monitor
machine = record {
  state = initialized;
  space = guest;
  core_end = 0xc020_0000;
  memory_size = 0x80_0000;
  initrd_address = 0;
  initrd_size = 0;
}

abbrev disk : List ℕ
disk = 9 ∷ 8 ∷ 7 ∷ []

-- Three bytes take the last page.
initrd_start_test : initrd_start machine 3 ≡ 0xc07f_f000
initrd_start_test = refl

late_test :
    load_section true 0xc000_0000 3 disk (record machine { state = terminated })
    ≡ some (error, record machine { state = terminated })
unfolding load_section
late_test = refl

alloc_pages-Allocated_example :
    Allocated 0xc000_1000 3 0xc000_1000 3 guest (alloc_pages 0xc000_1000 3 guest)
alloc_pages-Allocated_example = alloc_pages-Allocated 0xc000_1000 3 guest guest-IsValid

load_initrd-IsLoaded_example : IsLoaded 3 machine (load_initrd 3 disk machine)
load_initrd-IsLoaded_example =
    load_initrd-IsLoaded 3 machine guest-IsValid (omega arith) (omega arith) refl (omega arith) disk

-- A host of 1024 MB, 700 of them for guests, and a guest of 64 MB where all goes well.
abbrev host : Manager
host = record {
  hostmem_amount = 1024;
  hostmem_used = 0x400_0000;
  hostmem_usage_limit = 700 * 0x10_0000;
  monitors_count = 1;
}

abbrev all_granted : Answers
all_granted = record {
  magic_fits = true;
  ram_size = 64;
  malloc_monitor = true;
  console_create = ok;
  mutex_create_1 = ok;
  mutex_create_2 = ok;
  wait_create = ok;
  malloc_io_buffer = true;
  alloc_shared_page = ok;
  queue_init = ok;
  os_init = ok;
  alloc_pp_ram_mapping = ok;
  timer_create = ok;
  load_devices = ok;
  video_units = granted ∷ granted ∷ [];
  pci_setconfig = ok;
  malloc_video_buffer = true;
}

second_lock_test :
    create (record all_granted { mutex_create_2 = out_of_memory }) host
    ≡ (out_of_memory, (host, record nothing_held { connected_modules_write_lock = true }))
unfolding create lock_stage
second_lock_test = refl

abbrev with_guest : Held
with_guest = (
  record host { hostmem_used = 0x800_0000; monitors_count = 2 },
  complete (true ∷ true ∷ []) true,
)

create_test : create all_granted host ≡ (ok, with_guest)
unfolding create lock_stage wait_stage shared_stage os_stage memory_stage timer_stage
    configuration_stage video_stage memory_size load_configuration load_video
create_test = refl

create-Created_example : Created all_granted host (create all_granted host)
create-Created_example = create-Created all_granted host (omega arith)

-- All devices are lost where the first one's buffer is refused; and the first video device where the
-- second is.
abbrev with_devices : Holdings
with_devices = record nothing_held { devices = true; video_devs = true ∷ true ∷ [] }

no_buffer_test :
    create (record all_granted { malloc_video_buffer = false }) host
    ≡ (out_of_memory, (host, with_devices))
unfolding create lock_stage wait_stage shared_stage os_stage memory_stage timer_stage
    configuration_stage video_stage memory_size load_configuration load_video
no_buffer_test = refl

second_unit_test :
    create (record all_granted { video_units = granted ∷ refused ∷ [] }) host
    ≡ (out_of_memory, (host, record nothing_held { video_devs = true ∷ [] }))
unfolding create lock_stage wait_stage shared_stage os_stage memory_stage timer_stage
    configuration_stage video_stage memory_size load_configuration load_video
second_unit_test = refl

destroy-create_example : ◌≡◌ {A = Held} (destroy (size_of all_granted host) with_guest) (
  record host { monitors_count = (host.monitors_count + 1) % word },
  record nothing_held { idle_wait = true; video_devs = false ∷ true ∷ [] },
)
unfolding load_configuration load_video
destroy-create_example = destroy-create all_granted host with_guest (omega arith) create_test
