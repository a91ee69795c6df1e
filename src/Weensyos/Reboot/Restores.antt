-- ===== src/Weensyos/Reboot/Restores.antt =====
-- A soft reboot of weensyos/k-hardware.cc restores the kernel's data.
use c_proj.Base.{
  ℕ, ◌+◌, ◌-◌, ◌≤◌, ◌<◌, ◌≡◌, ◌⊎◌, inl, inr, refl, ap, ◌∙◌, true, false, ◌||◌, some, ◌==◌,
  if◌then◌else◌, Memory, within, arith,
}
use c_proj.Weensyos.Strings.{memcpy, memset}
use c_proj.Weensyos.Strings.Copy.{moved, memmove_lem, memcpy-eq-memmove, memset_lem}
use c_proj.Weensyos.Reboot.{
  Image, symtab_addr, data_size_of, data_stash, stash_kernel_data, install_pagetable, argument_of,
  reboot_memory, restarted, check_key, check_keyboard,
}

-- The kernel lies behind the temporary page table and in front of the stash.
pub record Placed (image : Image) : Type 0 where
  pub behind : 0x3000 ≤ image.data_start
  pub data_first : image.data_start ≤ image.edata
  pub bss_next : image.edata ≤ image.kernel_end
  pub in_front : image.kernel_end + (image.edata - image.data_start) ≤ symtab_addr

memcpy_at :
    (dst src n : ℕ) (m : Memory) (i : ℕ)
    → (dst ≤ src) ⊎ (src + n ≤ dst)
    → memcpy dst src n m i ≡ moved m dst src n i
memcpy_at dst src n m i apart = memcpy-eq-memmove dst src n m apart i ∙ memmove_lem dst src n m i

-- The data copied from the stash, and zeros behind it.
abbrev reloaded : Image → Memory → Memory
reloaded image m =
    memset image.edata 0 (image.kernel_end - image.edata)
      (memcpy image.data_start (data_stash image) (data_size_of image) m)

module _ (image : Image) (placed : Placed image) where
  apart :
      (image.data_start ≤ data_stash image)
      ⊎ (data_stash image + data_size_of image ≤ image.data_start)
  apart = inl (omega (arith, placed.in_front, placed.data_first, placed.bss_next))

  reloaded_lem :
      (m : Memory) (i : ℕ)
      → reloaded image m i ≡ (
          if within image.edata (image.kernel_end - image.edata) i
          then 0
          else moved m image.data_start (data_stash image) (data_size_of image) i)
  reloaded_lem m i =
      memset_lem image.edata 0 (image.kernel_end - image.edata)
        (memcpy image.data_start (data_stash image) (data_size_of image) m) i
      ∙ ap (λ v. if within image.edata (image.kernel_end - image.edata) i then 0 else v)
          (memcpy_at image.data_start (data_stash image) (data_size_of image) m i apart)

  reloaded_data :
      (m : Memory) (i : ℕ)
      → image.data_start ≤ i
      → i < image.edata
      → reloaded image m i ≡ m (data_stash image + (i - image.data_start))
  reloaded_data m i h k = reloaded_lem m i ∙ ground (arith, placed.data_first)

  reloaded_bss :
      (m : Memory) (i : ℕ) → image.edata ≤ i → i < image.kernel_end → reloaded image m i ≡ 0
  reloaded_bss m i h k = reloaded_lem m i ∙ ground arith

  reloaded_elsewhere :
      (m : Memory) (i : ℕ)
      → (i < image.data_start) ⊎ (image.kernel_end ≤ i)
      → reloaded image m i ≡ m i
  reloaded_elsewhere m i (inl low) =
      reloaded_lem m i ∙ ground (arith, placed.data_first, placed.bss_next)
  reloaded_elsewhere m i (inr high) =
      reloaded_lem m i ∙ ground (arith, placed.data_first, placed.bss_next)

install_elsewhere : (m : Memory) (i : ℕ) → (i < 0x1000) ⊎ (0x3000 ≤ i) → install_pagetable m i ≡ m i
install_elsewhere m i (inl low) =
    let cleared = memset_lem 0x1000 0 0x2000 m i in ground (arith, cleared)
install_elsewhere m i (inr high) =
    let cleared = memset_lem 0x1000 0 0x2000 m i in ground (arith, cleared)

-- The bytes of the stash since boot, where the memory at boot was `m0`.
abbrev pub Stashed : Image → (m0 m : Memory) → Type 0
Stashed image m0 m =
    (j : ℕ) → data_stash image ≤ j → j < symtab_addr → m j ≡ stash_kernel_data image false m0 j

Stashed-at :
    (image : Image) (m0 m : Memory) (i : ℕ)
    → Placed image
    → Stashed image m0 m
    → image.data_start ≤ i
    → i < image.edata
    → m (data_stash image + (i - image.data_start)) ≡ m0 i
unfolding stash_kernel_data
Stashed-at image m0 m i placed stashed h k =
    let a = data_stash image + (i - image.data_start) in
    let back : image.data_start + (a - data_stash image) ≡ i = omega (arith, h, k) in
    let inside : within (data_stash image) (data_size_of image) a ≡ true = ground arith in
    stashed a (omega (arith, h, k)) (omega (arith, h, k, placed.in_front))
    ∙ memcpy_at (data_stash image) image.data_start (data_size_of image) m0 a
        (inr (omega (arith, placed.in_front, placed.bss_next, placed.data_first)))
    ∙ rw (inside, moved) (ap m0 back)

-- With the kernel placed behind the temporary page table and in front of the stash, and the stash as
-- it was made at boot: the keys a, f and e begin the kernel anew with every byte of its initialised
-- data as at boot and zeros behind it, and outside of the kernel and of the temporary page table
-- memory is as it was.
pub reboot_restores :
    (image : Image) (c : ℕ) (m0 m : Memory)
    → Placed image
    → Stashed image m0 m
    → (c == b'a' || c == b'f' || c == b'e') ≡ true
    → (m1 : Memory) × (check_keyboard image (some c) m ≡ restarted (argument_of c) m1)
      × ((i : ℕ) → image.data_start ≤ i → i < image.edata → m1 i ≡ m0 i)
      × ((i : ℕ) → image.edata ≤ i → i < image.kernel_end → m1 i ≡ 0)
      × ((i : ℕ)
          → (i < 0x1000) ⊎ (0x3000 ≤ i)
          → (i < image.data_start) ⊎ (image.kernel_end ≤ i)
          → m1 i ≡ m i)
unfolding check_keyboard reboot_memory stash_kernel_data
reboot_restores image c m0 m placed stashed key =
    let m2 = install_pagetable m in
    let m3 = reloaded image m2 in
    (
      reboot_memory image m,
      rw (key, check_keyboard, check_key) refl,
      (λ i h k.
          let a = data_stash image + (i - image.data_start) in
          reloaded_data image placed m3 i h k
          ∙ reloaded_elsewhere image placed m2 a (inr (omega (arith, placed.in_front)))
          ∙ install_elsewhere m a (
              inr
                (omega (arith, placed.in_front, placed.behind, placed.data_first, placed.bss_next)))
          ∙ Stashed-at image m0 m i placed stashed h k),
      (λ i h k. reloaded_bss image placed m3 i h k),
      (λ i outside other.
          reloaded_elsewhere image placed m3 i other
          ∙ reloaded_elsewhere image placed m2 i other
          ∙ install_elsewhere m i outside),
    )
