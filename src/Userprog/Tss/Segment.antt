-- ===== src/Userprog/Tss/Segment.antt =====
-- What the processor reads from a descriptor is what was put in.
use winux_os.Base.{ℕ, ◌+◌, ◌*◌, ◌/◌, ◌%◌, ◌^◌, ◌<◌, ◌≡◌, refl, arith}
use winux_os.Userprog.Tss.{GdtDesc, make_gdt_desc, Gdt, tss_init}

abbrev pub base_of : GdtDesc → ℕ
base_of d = d.base_high_byte * 2 ^ 24 + d.base_mid_byte * 2 ^ 16 + d.base_low_word

abbrev pub limit_of : GdtDesc → ℕ
limit_of d = d.limit_high_attr_high % 2 ^ 4 * 2 ^ 16 + d.limit_low_word

abbrev pub attr_high_of : GdtDesc → ℕ
attr_high_of d = d.limit_high_attr_high / 2 ^ 4 * 2 ^ 4

-- The privilege level and the type with the system bit.
abbrev pub dpl_of : GdtDesc → ℕ
dpl_of d = d.attr_low_byte / 2 ^ 5 % 4

-- For a 32-bit base, a 20-bit limit and attributes of a byte each, the high ones without low bits,
-- the processor reads from the descriptor the base, the limit and the attributes that were given.
pub make_gdt_desc_lem :
    (base_addr limit attr_low attr_high : ℕ)
    → base_addr < 2 ^ 32
    → limit < 2 ^ 20
    → attr_low < 2 ^ 8
    → attr_high < 2 ^ 8
    → attr_high % 2 ^ 4 ≡ 0
    → (base_of (make_gdt_desc base_addr limit attr_low attr_high) ≡ base_addr)
      × (limit_of (make_gdt_desc base_addr limit attr_low attr_high) ≡ limit)
      × ((make_gdt_desc base_addr limit attr_low attr_high).attr_low_byte ≡ attr_low)
      × (attr_high_of (make_gdt_desc base_addr limit attr_low attr_high) ≡ attr_high)
unfolding make_gdt_desc
make_gdt_desc_lem base limit low high hb hl ha hh h4 =
    (omega arith, omega arith, omega arith, omega arith)

-- After `tss_init` the user's code and data segments cover 4 GB at privilege level 3, the task
-- state segment is at its address with its size, and descriptors below the fourth are as before.
pub tss_init_lem :
    (tss_at : ℕ) (gdt : Gdt) (i : ℕ)
    → tss_at < 2 ^ 32
    → i < 4
    → (base_of ((tss_init tss_at gdt).descriptors 4) ≡ tss_at)
      × (limit_of ((tss_init tss_at gdt).descriptors 4) + 1 ≡ (tss_init tss_at gdt).tss.io_base)
      × (dpl_of ((tss_init tss_at gdt).descriptors 5) ≡ 3)
      × ((limit_of ((tss_init tss_at gdt).descriptors 5) + 1) * 4096 ≡ 2 ^ 32)
      × (dpl_of ((tss_init tss_at gdt).descriptors 6) ≡ 3)
      × ((tss_init tss_at gdt).descriptors i ≡ gdt.descriptors i)
unfolding tss_init make_gdt_desc
tss_init_lem tss_at gdt i h hi = (omega arith, refl, refl, refl, refl, ground arith)
