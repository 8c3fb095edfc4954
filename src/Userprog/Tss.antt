-- ===== src/Userprog/Tss.antt =====
-- userprog/tss.c: segment descriptors and the task state segment. `x & 0x00ff0000 >> 16` and the
-- like are written with `/` and `%`.
pub mod Segment
use winux_os.Base.{
  ℕ, ◌+◌, ◌-◌, ◌*◌, ◌/◌, ◌%◌, ◌^◌, List, [], ◌∷◌, ◌==◌, if◌then◌else◌, update, u8, u32,
}

-- struct gdt_desc
pub record GdtDesc : Type 0 where
  pub limit_low_word : ℕ
  pub base_low_word : ℕ
  pub base_mid_byte : ℕ
  pub attr_low_byte : ℕ
  pub limit_high_attr_high : ℕ
  pub base_high_byte : ℕ

unfoldable pub make_gdt_desc : ℕ → ℕ → ℕ → ℕ → GdtDesc
make_gdt_desc base_addr limit attr_low attr_high = record {
  limit_low_word = limit % 2 ^ 16;
  base_low_word = base_addr % 2 ^ 16;
  base_mid_byte = base_addr / 2 ^ 16 % 2 ^ 8;
  attr_low_byte = u8 attr_low;
  limit_high_attr_high = u8 (limit / 2 ^ 16 % 2 ^ 4 + u8 attr_high);
  base_high_byte = base_addr / 2 ^ 24;
}

-- The fields of `struct tss` that the kernel sets.
pub record TssSegment : Type 0 where
  pub esp0 : ℕ
  pub ss0 : ℕ
  pub io_base : ℕ

unfoldable pub update_tss_esp : TssSegment → ℕ → TssSegment
update_tss_esp tss pthread = record tss { esp0 = u32 (pthread + 4096) }

-- 27 words
abbrev pub tss_size : ℕ
tss_size = 108

abbrev pub gdt_attr_high : ℕ
gdt_attr_high = 1 * 2 ^ 7 + 1 * 2 ^ 6 + 0 * 2 ^ 5 + 0 * 2 ^ 4

abbrev pub gdt_code_attr_low_dpl3 : ℕ
gdt_code_attr_low_dpl3 = 1 * 2 ^ 7 + 3 * 2 ^ 5 + 1 * 2 ^ 4 + 8

abbrev pub gdt_data_attr_low_dpl3 : ℕ
gdt_data_attr_low_dpl3 = 1 * 2 ^ 7 + 3 * 2 ^ 5 + 1 * 2 ^ 4 + 2

abbrev pub tss_attr_high : ℕ
tss_attr_high = 1 * 2 ^ 7 + 0 * 2 ^ 6 + 0 * 2 ^ 5 + 0 * 2 ^ 4 + 0

abbrev pub tss_attr_low : ℕ
tss_attr_low = 1 * 2 ^ 7 + 0 * 2 ^ 5 + 0 * 2 ^ 4 + 9

-- The table at 0xc0000900 by number of the descriptor: 4 is at 0xc0000920.
pub record Gdt : Type 0 where
  pub tss : TssSegment
  pub descriptors : ℕ → GdtDesc
  pub limit : ℕ

-- `tss_at` is the address of the segment; `lgdt` takes seven descriptors.
unfoldable pub tss_init : ℕ → Gdt → Gdt
unfolding make_gdt_desc
tss_init tss_at gdt = record {
  tss = record { esp0 = 0; ss0 = 2 * 2 ^ 3 + 0 * 2 ^ 2 + 0; io_base = tss_size };
  descriptors =
      update
        (update
          (update gdt.descriptors 4
            (make_gdt_desc tss_at (tss_size - 1) tss_attr_low tss_attr_high))
          5 (make_gdt_desc 0 0xfffff gdt_code_attr_low_dpl3 gdt_attr_high))
        6 (make_gdt_desc 0 0xfffff gdt_data_attr_low_dpl3 gdt_attr_high);
  limit = 8 * 7 - 1;
}
