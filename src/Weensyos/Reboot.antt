-- ===== src/Weensyos/Reboot.antt =====
-- check_keyboard and stash_kernel_data of weensyos/k-hardware.cc: the soft reboot. Memory is by bytes here.
pub mod Restores
mod Tests
use Prim.Native.Nat.{bit_or}
use c_proj.Base.{
  ℕ, ◌+◌, ◌-◌, ◌*◌, ◌/◌, ◌%◌, ◌^◌, Bool, true, false, ◌&&◌, ◌||◌, Option, none, some, List, [], ◌∷◌,
  ltb, leb, ◌==◌, if◌then◌else◌, Memory, within,
}
use c_proj.Weensyos.Strings.{memcpy, memset}

-- Where the linker puts the kernel: `_data_start`, `_edata` and `_kernel_end`.
pub record Image : Type 0 where
  pub data_start : ℕ
  pub edata : ℕ
  pub kernel_end : ℕ

abbrev pub symtab_addr : ℕ
symtab_addr = 0x1000000

abbrev pub data_size_of : Image → ℕ
data_size_of image = image.edata - image.data_start

-- `data_stash`
abbrev pub data_stash : Image → ℕ
data_stash image = symtab_addr - data_size_of image

unfoldable pub stash_kernel_data : Image → (reboot : Bool) → Memory → Memory
stash_kernel_data image true m =
    memset image.edata 0 (image.kernel_end - image.edata)
      (memcpy image.data_start (data_stash image) (data_size_of image) m)
stash_kernel_data image false m = memcpy (data_stash image) image.data_start (data_size_of image) m

-- `entry[i] = v` for a page table entry at address `a`: eight bytes, the low one first.
abbrev pub store_entry : (a v : ℕ) → Memory → Memory
store_entry a v m i = if within a 8 i then v / 256 ^ (i - a) % 256 else m i

abbrev pub reboot_pagetable : ℕ
reboot_pagetable = 0x1000

-- The temporary page table: PTE_P is 1, PTE_W is 2 and PTE_PS is 128.
abbrev pub install_pagetable : Memory → Memory
install_pagetable m =
    store_entry 0x2000 (bit_or (bit_or 1 2) 128)
      (store_entry 0x1000 (bit_or (bit_or 0x2000 1) 2) (memset reboot_pagetable 0 0x2000 m))

-- The argument for the new kernel, by the key.
abbrev pub argument_of : ℕ → List ℕ
argument_of c =
    if c == b'a'
    then b'a' ∷ b'l' ∷ b'l' ∷ b'o' ∷ b'c' ∷ b'a' ∷ b't' ∷ b'o' ∷ b'r' ∷ b's' ∷ []
    else if c == b'e'
    then b'f' ∷ b'o' ∷ b'r' ∷ b'k' ∷ b'e' ∷ b'x' ∷ b'i' ∷ b't' ∷ []
    else b'f' ∷ b'o' ∷ b'r' ∷ b'k' ∷ []

-- The memory in which kernel_entry begins: stash_kernel_data, and the same once more by hand.
unfoldable pub reboot_memory : Image → Memory → Memory
reboot_memory image m = memset image.edata 0 (image.kernel_end - image.edata) (
    memcpy image.data_start (symtab_addr - data_size_of image) (data_size_of image)
      (stash_kernel_data image true (install_pagetable m)))

-- What check_keyboard comes to, where `c` is what keyboard_readc returns.
pub data Checked : Type 0 where
  returned : Option ℕ → Checked
  -- The kernel begins anew with this argument, and in this memory.
  restarted : (argument : List ℕ) → Memory → Checked
  powered_off : Checked

abbrev pub check_key : Image → ℕ → Memory → Checked
check_key image c m =
    if c == b'a' || c == b'f' || c == b'e'
    then restarted (argument_of c) (reboot_memory image m)
    else if c == 0x03 || c == b'q'
    then powered_off
    else returned (some c)

unfoldable pub check_keyboard : Image → (c : Option ℕ) → Memory → Checked
check_keyboard image none m = returned none
check_keyboard image (some c) m = check_key image c m
