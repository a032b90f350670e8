-- ===== src/Block.antt =====
-- src/colinux/kernel/block.c over the file devices of src/colinux/kernel/fileblock.c: block devices
-- that several users of the guest open and close. The operations on host files
-- (`co_monitor_file_block_operations_t`) are a parameter; `W` is the host that they change.
pub mod Count
pub mod Clear
mod Tests
use colinux_64bit.Base.{
  ℕ, zero, suc, ◌+◌, ◌-◌, ◌%◌, ◌^◌, Bool, true, false, ◌&&◌, ◌||◌, not, Option, none, some, List,
  [], ◌∷◌, ◌==◌, ltb, leb, if◌then◌else◌, set, take,
}
use colinux_64bit.Rc.{Rc, ok, error, co_ok}
use colinux_64bit.Arch.{word}

-- `co_block_request_type_t`
pub data BlockType : Type 0 where
  open_ stat read write close get_alias : BlockType

-- The fields of `co_block_dev_desc_t` that the driver reads.
pub record BlockDesc : Type 0 where
  pub enabled : Bool
  pub alias_used : Bool
  pub alias : List ℕ

-- `co_monitor_file_block_state_t`
pub data FileState : Type 0 where
  closed opened : FileState

-- `co_block_dev_t` with the state of `co_monitor_file_block_dev_t`.
pub record BlockDev : Type 0 where
  pub size : ℕ
  pub conf : Option BlockDesc
  pub use_count : ℕ
  pub unit : ℕ
  pub state : FileState

-- `co_block_request_t`: the fields that the driver reads or writes itself. `retcode` is true for
-- CO_BLOCK_REQUEST_RETCODE_OK.
pub record Request : Type 0 where
  pub type : BlockType
  pub retcode : Bool
  pub disk_size : ℕ
  pub alias : List ℕ

pub record FileOps (W : Type 0) : Type 0 where
  pub file_open : W → Rc × W
  pub file_read : Request → W → Rc × W
  pub file_write : Request → W → Rc × W
  pub file_close : W → W
  pub file_size : ℕ → W → Rc × ℕ × W

-- What a request changes: the device, the request and the host.
pub record Io (W : Type 0) : Type 0 where
  pub dev : BlockDev
  pub request : Request
  pub world : W

-- The text in a buffer, up to its first NUL.
abbrev pub c_string : List ℕ → List ℕ
c_string [] = []
c_string (c ∷ cs) = if c == 0 then [] else c ∷ c_string cs

-- `sizeof(alias)`, in the description and in the request.
abbrev pub alias_size : ℕ
alias_size = 20

-- `co_monitor_block_register_device`, `co_monitor_block_unregister_device`
abbrev pub Devices : Type 0
Devices = ℕ → Option BlockDev

pub register_device : Devices → ℕ → BlockDev → Devices
register_device devs index dev i = if i == index then some (record dev { unit = index }) else devs i

unfoldable pub unregister_device : Devices → ℕ → Devices
unregister_device devs index i = if i == index then none else devs i

-- CO_MODULE_MAX_COBD
abbrev pub max_cobd : ℕ
max_cobd = 32

-- `co_monitor_block_dev_from_index`
pub dev_from_index : Devices → ℕ → Option BlockDev
dev_from_index devs index = if leb max_cobd index then none else devs index

-- `co_monitor_file_block_init`, without the operations that it selects.
pub file_block_init : BlockDev
file_block_init = record { size = 0; conf = none; use_count = 0; unit = 0; state = closed }

module _ {W : Type 0} (ops : FileOps W) where
  open ops use {file_open, file_read, file_write, file_close, file_size}

  -- `co_monitor_file_block_service`, by the state that each request wants.
  unfoldable pub file_service : BlockType → FileState → Io W → Rc × Io W
  file_service open_ closed io =
      let (rc, w) = file_open io.world in
      (
        rc,
        record io {
          dev = if co_ok rc then record (io.dev) { state = opened } else io.dev;
          world = w;
        },
      )
  file_service read opened io =
      let (rc, w) = file_read io.request io.world in (rc, record io { world = w })
  file_service write opened io =
      let (rc, w) = file_write io.request io.world in (rc, record io { world = w })
  file_service close opened io =
      (ok, record io { dev = record (io.dev) { state = closed }; world = file_close io.world })
  file_service stat closed io =
      let (rc, size, w) = file_size io.dev.size io.world in
      (
        rc,
        record io {
          dev = record (io.dev) { size = size };
          request = if co_ok rc then record (io.request) { disk_size = size } else io.request;
          world = w;
        },
      )
  file_service type state io = (error, io)

  -- `co_monitor_file_block_shutdown`
  unfoldable pub file_block_shutdown : BlockDev → W → BlockDev × W
  file_block_shutdown dev w = elim dev.state [
    | opened ↦ (record dev { state = closed }, file_close w)
    | closed ↦ (dev, w)
  ]

  -- The service of a device, and the counting after it.
  unfoldable pub serve : Io W → Rc × Io W
  serve io = file_service io.request.type io.dev.state io

  unfoldable pub count : BlockType → Rc × Io W → Rc × Io W
  count open_ (ok, io) =
      (ok, record io { dev = record (io.dev) { use_count = (io.dev.use_count + 1) % word } })
  count close (ok, io) =
      (ok, record io { dev = record (io.dev) { use_count = (io.dev.use_count + word - 1) % word } })
  count type r = r

  -- `CO_BLOCK_GET_ALIAS`
  unfoldable pub get_alias_of : Option BlockDesc → Io W → Rc × Io W
  get_alias_of none io = (error, io)
  get_alias_of (some d) io =
      if not d.enabled || not d.alias_used
      then (error, io)
      else let text = set d.alias (alias_size - 1) 0 in
        (
          ok,
          record io {
            dev = record (io.dev) { conf = some (record d { alias = text }) };
            request = record (io.request) { alias = take (alias_size - 1) (c_string text) };
          },
        )

  -- The rest of `intern_monitor_block_request`, with the device found: the first `switch`, the
  -- service, and the second `switch`.
  unfoldable pub request_on : BlockType → Io W → Rc × Io W
  request_on open_ io =
      if leb 1 io.dev.use_count
      then (ok, record io { dev = record (io.dev) { use_count = (io.dev.use_count + 1) % word } })
      else count open_ (serve io)
  request_on close io =
      if io.dev.use_count == 0
      then (error, io)
      else if ltb 1 io.dev.use_count
      then (ok, record io { dev = record (io.dev) { use_count = io.dev.use_count - 1 } })
      else count close (serve io)
  request_on get_alias io = get_alias_of io.dev.conf io
  request_on type io = count type (serve io)

  -- `intern_monitor_block_request`
  unfoldable pub intern_block_request : Devices → ℕ → Request → W → Rc × Devices × Request × W
  intern_block_request devs index request w = elim (dev_from_index devs index) [
    | none ↦ (error, devs, request, w)
    | some dev ↦
        let (rc, io) =
          request_on request.type (record { dev = dev; request = request; world = w }) in
        (rc, (λ i. if i == index then some io.dev else devs i), io.request, io.world)
  ]

  -- `co_monitor_block_request`
  unfoldable pub block_request : Devices → ℕ → Request → W → Devices × Request × W
  block_request devs index request w =
      let (rc, devs', request', w') = intern_block_request devs index request w in
      (devs', record request' { retcode = co_ok rc }, w')

-- The loop of `co_monitor_unregister_and_free_block_devices`: every device, in order, with its
-- number, and `dev->free` as a parameter.
unfoldable pub free_devices : {W : Type 0} → (BlockDev → W → W) → ℕ → ℕ → Devices → W → Devices × W
free_devices free zero i devs w = (devs, w)
free_devices free (suc left) i devs w = elim (devs i) [
  | none ↦ free_devices free left (suc i) devs w
  | some dev ↦ free_devices free left (suc i) (unregister_device devs i) (free dev w)
]

unfoldable pub unregister_and_free : {W : Type 0} → (BlockDev → W → W) → Devices → W → Devices × W
unfolding free_devices
unregister_and_free free devs w = free_devices free max_cobd 0 devs w
