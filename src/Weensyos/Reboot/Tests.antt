-- ===== src/Weensyos/Reboot/Tests.antt =====
-- A soft reboot with the key f.
use c_proj.Base.{ℕ, ◌≤◌, ◌<◌, ◌≡◌, ◌⊎◌, refl, some, arith, false, Memory}
use c_proj.Weensyos.Reboot.{Image, stash_kernel_data, argument_of, restarted, check_keyboard}
use c_proj.Weensyos.Reboot.Restores.{Placed, reboot_restores}

abbrev small : Image
small = record { data_start = 0x45000; edata = 0x45100; kernel_end = 0x46000 }

abbrev at_boot : Memory
at_boot i = i

abbrev now : Memory
now = stash_kernel_data small false at_boot

small-Placed : Placed small
small-Placed = record {
  behind = omega arith;
  data_first = omega arith;
  bss_next = omega arith;
  in_front = omega arith;
}

reboot_restores_example :
    (m1 : Memory) × (check_keyboard small (some b'f') now ≡ restarted (argument_of b'f') m1)
    × ((i : ℕ) → small.data_start ≤ i → i < small.edata → m1 i ≡ at_boot i)
    × ((i : ℕ) → small.edata ≤ i → i < small.kernel_end → m1 i ≡ 0)
    × ((i : ℕ)
        → (i < 0x1000) ⊎ (0x3000 ≤ i)
        → (i < small.data_start) ⊎ (small.kernel_end ≤ i)
        → m1 i ≡ now i)
reboot_restores_example = reboot_restores small b'f' at_boot now small-Placed (λ j h k. refl) refl
