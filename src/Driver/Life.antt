-- ===== src/Driver/Life.antt =====
-- Loading as a whole: every failure, and loading followed by unloading.
use colinux_64bit.Base.{
  inl, inr, ap, ℕ, ◌^◌, ◌≤◌, ◌≡◌, ◌≢◌, refl, sym, ◌∙◌, Bool, true, false, some, ltb, if◌then◌else◌,
  arith,
}
use colinux_64bit.Rc.{Rc, ok, error, co_ok}
use colinux_64bit.Driver.{
  not_initialized, Host, Manager, Answers, alloc_reversed_pfns, Loaded, err_mutex, err_debug,
  err_arch, os_init, load_os_lock, load_os, load_arch, load_debug, load_pages, load_lock, cleared,
  manager_load,
}
use colinux_64bit.Driver.Load.{HeldBut, Returns, IsHolding, loaded-Returns, alloc_with-Allocated}

-- A failure that releases all that is held, but for `lost` data of the page allocator.
released :
    (a : Answers) (h : Host) (rc : Rc) (m : Manager) (h' : Host)
    → co_ok rc ≡ false
    → m.state ≡ not_initialized
    → HeldBut 0 h h'
    → Returns a h (some (rc, m, h'))
released a h rc m h' e s k = inl (e, s, inl k)

err_mutex-Returns :
    (a : Answers) (h h' : Host) (rc : Rc) (m : Manager)
    → IsHolding h 1 0 0 0 h'
    → co_ok rc ≡ false
    → Returns a h (err_mutex rc m h')
unfolding err_mutex
err_mutex-Returns a h h' rc m k e = released a h rc _ _ e refl (record {
  mutexes = omega (arith, k.mutexes_held);
  debugs = omega (arith, k.debugs_held);
  archdeps = omega (arith, k.archdeps_held);
  osdeps = omega (arith, k.osdeps_held);
  frames = k.same_frames;
})

err_debug-Returns :
    (a : Answers) (h h' : Host) (rc : Rc) (m : Manager)
    → IsHolding h 1 1 0 0 h'
    → co_ok rc ≡ false
    → Returns a h (err_debug rc m h')
unfolding err_mutex err_debug
err_debug-Returns a h h' rc m k e = released a h rc _ _ e refl (record {
  mutexes = omega (arith, k.mutexes_held);
  debugs = omega (arith, k.debugs_held);
  archdeps = omega (arith, k.archdeps_held);
  osdeps = omega (arith, k.osdeps_held);
  frames = k.same_frames;
})

err_arch-Returns :
    (a : Answers) (h h' : Host) (rc : Rc) (m : Manager)
    → IsHolding h 1 1 1 0 h'
    → co_ok rc ≡ false
    → Returns a h (err_arch rc m h')
unfolding err_mutex err_debug err_arch
err_arch-Returns a h h' rc m k e = released a h rc _ _ e refl (record {
  mutexes = omega (arith, k.mutexes_held);
  debugs = omega (arith, k.debugs_held);
  archdeps = omega (arith, k.archdeps_held);
  osdeps = omega (arith, k.osdeps_held);
  frames = k.same_frames;
})

if_Returns :
    (a : Answers) (h : Host) (c : Bool) (o o' : Loaded)
    → (c ≡ true → Returns a h o)
    → (c ≡ false → Returns a h o')
    → Returns a h (if c then o else o')
if_Returns a h true o o' r s = r refl
if_Returns a h false o o' r s = s refl

-- The lock of the page allocator is refused: its data is lost.
lock_refused :
    (a : Answers) (h h' : Host) (rc : Rc) (m : Manager)
    → IsHolding h 1 1 1 0 h'
    → a.os_malloc ≡ true
    → co_ok a.os_mutex_create ≡ false
    → co_ok rc ≡ false
    → Returns a h (err_arch rc m (os_init h'))
unfolding err_mutex err_debug err_arch
lock_refused a h h' rc m k t f e = inl (
  e,
  refl,
  inr (
    t,
    f,
    record {
      mutexes = omega (arith, k.mutexes_held);
      debugs = omega (arith, k.debugs_held);
      archdeps = omega (arith, k.archdeps_held);
      osdeps = omega (arith, k.osdeps_held);
      frames = k.same_frames;
    },
  ),
)

module _ (a : Answers) (h : Host) (b : h.blocks ≢ 1) where
  load_os_lock-Returns :
      (h' : Host) (rc : Rc) (m : Manager)
      → a.os_mutex_create ≡ rc
      → a.os_malloc ≡ true
      → IsHolding h 1 1 1 0 h'
      → m.hostmem_pages ≤ 2 ^ 20
      → Returns a h (load_os_lock rc m h')
  unfolding load_os_lock alloc_reversed_pfns
  load_os_lock-Returns h' ok m q t k p =
      loaded-Returns a h _ _
        (record {
          mutexes_held = omega (arith, k.mutexes_held);
          debugs_held = omega (arith, k.debugs_held);
          archdeps_held = omega (arith, k.archdeps_held);
          osdeps_held = omega (arith, k.osdeps_held);
          same_blocks = k.same_blocks;
          same_frames = k.same_frames;
        })
        k.same_frames (alloc_with-Allocated _ _ h'.blocks p (λ e. b (sym k.same_blocks ∙ e)) refl)
  load_os_lock-Returns h' _ m q t k p = lock_refused a h h' _ m k t (ap co_ok q) refl

  load_os-Returns :
      (h' : Host) (m : Manager)
      → IsHolding h 1 1 1 0 h'
      → m.hostmem_pages ≤ 2 ^ 20
      → Returns a h (load_os a m h')
  unfolding load_os
  load_os-Returns h' m k p =
      if_Returns a h a.os_malloc _ _ (λ t. load_os_lock-Returns h' a.os_mutex_create m refl t k p)
        (λ t. err_arch-Returns a h h' _ m k refl)

  load_arch-Returns :
      (h' : Host) (rc : Rc) (m : Manager)
      → IsHolding h 1 1 0 0 h'
      → m.hostmem_pages ≤ 2 ^ 20
      → Returns a h (load_arch a rc m h')
  unfolding load_arch
  load_arch-Returns h' ok m k p =
      load_os-Returns _ _
        (record {
          mutexes_held = omega (arith, k.mutexes_held);
          debugs_held = omega (arith, k.debugs_held);
          archdeps_held = omega (arith, k.archdeps_held);
          osdeps_held = omega (arith, k.osdeps_held);
          same_blocks = k.same_blocks;
          same_frames = k.same_frames;
        })
        p
  load_arch-Returns h' _ m k p = err_debug-Returns a h h' _ m k refl

  load_debug-Returns :
      (h' : Host) (rc : Rc) (m : Manager)
      → IsHolding h 1 0 0 0 h'
      → m.hostmem_pages ≤ 2 ^ 20
      → Returns a h (load_debug a rc m h')
  unfolding load_debug
  load_debug-Returns h' ok m k p =
      load_arch-Returns _ a.arch_init _
        (record {
          mutexes_held = omega (arith, k.mutexes_held);
          debugs_held = omega (arith, k.debugs_held);
          archdeps_held = omega (arith, k.archdeps_held);
          osdeps_held = omega (arith, k.osdeps_held);
          same_blocks = k.same_blocks;
          same_frames = k.same_frames;
        })
        p
  load_debug-Returns h' _ m k p = err_mutex-Returns a h h' _ m k refl

  load_pages-Returns :
      (h' : Host) (r : Rc × ℕ) (m : Manager)
      → IsHolding h 1 0 0 0 h'
      → Returns a h (load_pages a r m h')
  unfolding load_pages
  load_pages-Returns h' (ok, pages) m k =
      if_Returns a h (ltb 0x10_0000 pages) _ _ (λ e. err_mutex-Returns a h h' error _ k refl)
        (λ e. load_debug-Returns h' a.debug_init _ k (ground (arith, e)))
  load_pages-Returns h' (_, pages) m k = err_mutex-Returns a h h' _ m k refl

  load_lock-Returns : (rc : Rc) → Returns a h (load_lock a rc h)
  unfolding load_lock
  load_lock-Returns ok = load_pages-Returns _ a.physical_memory_pages cleared (record {
    mutexes_held = refl;
    debugs_held = omega arith;
    archdeps_held = omega arith;
    osdeps_held = omega arith;
    same_blocks = refl;
    same_frames = refl;
  })
  load_lock-Returns _ = inl (
    refl,
    refl,
    inl (record {
      mutexes = refl;
      debugs = refl;
      archdeps = refl;
      osdeps = omega arith;
      frames = refl;
    }),
  )

-- On a host that does not have exactly one block of memory, whatever its functions answer, loading
-- the driver comes to an end without a write through NULL. After a failure the driver is not
-- initialized, every frame is unused as before, and no lock, log or data of the host is held by it,
-- but for the data of the page allocator where the allocator's lock was refused. After a success,
-- freeing the reverse tables gives back every frame as often as it was unused before, and unloading
-- all locks, logs, data, memory and frames.
pub manager_load-Returns : (a : Answers) (h : Host) → h.blocks ≢ 1 → Returns a h (manager_load a h)
unfolding manager_load
manager_load-Returns a h b = load_lock-Returns a h b a.mutex_create
