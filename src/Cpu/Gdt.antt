-- ===== src/Cpu/Gdt.antt =====
-- src/kernel/cpu/gdt/gdt.cc and src/include/cpu/gdt.h: the table of segments.
-- The address of the table and that of the task state segment are arguments. What `load_gdt` and
-- `load_tss_register` are given is noted.
pub mod Segments
mod Tests
use slayer_os.Base.{ℕ, ◌+◌, ◌-◌, ◌*◌, ◌==◌, List, [], ◌∷◌, ◌++◌, if◌then◌else◌, update}
use slayer_os.Cpu.Tss.{Tss, create_tss_descriptor, create_tss_descriptor_high, tss_init}

abbrev pub entries_num : ℕ
entries_num = 7

-- `GDT::TablePtr`
pub record TablePtr : Type 0 where
  pub limit : ℕ
  pub base : ℕ

pub record Gdt : Type 0 where
  pub gp : TablePtr
  pub table : ℕ → ℕ
  pub tss : Tss
  pub loaded : List TablePtr

-- The contents of `table` at the start.
unfoldable pub first_table : ℕ → ℕ
first_table i =
    if i == 1
    then 0xaf_9a00_0000_ffff
    else (if i == 2
        then 0xaf_9200_0000_ffff
        else (if i == 3 then 0xcf_fa00_0000_ffff else (if i == 4 then 0xcf_f200_0000_ffff else 0)))

-- `GDT::init`, up to `TSS::load_tss`.
unfoldable pub gdt_init : (table_addr tss_addr : ℕ) → Gdt → Gdt
unfolding tss_init create_tss_descriptor create_tss_descriptor_high
gdt_init table_addr tss_addr g =
    let gp : TablePtr = record { limit = 8 * entries_num - 1; base = table_addr } in
    record {
      gp = gp;
      table =
          update (update g.table 5 (create_tss_descriptor tss_addr)) 6
            (create_tss_descriptor_high tss_addr);
      tss = tss_init g.tss;
      loaded = g.loaded ++ (gp ∷ gp ∷ []);
    }
