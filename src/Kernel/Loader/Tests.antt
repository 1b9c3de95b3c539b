-- ===== src/Kernel/Loader/Tests.antt =====
-- A read-only segment of two pages with 5 bytes in its file, for process 1.
use cs61_f16_psets_team_md.Base.{◌≡◌, refl, inr, arith, Bool, true, false}
use cs61_f16_psets_team_md.Kernel.Paging.{virtual_memory_map}
use cs61_f16_psets_team_md.Kernel.Check.Tests.{machine}
use cs61_f16_psets_team_md.Kernel.Paging.{virtual_memory_lookup}
use cs61_f16_psets_team_md.Kernel.Loader.{ElfProgram, Loaded, loaded, program_load_segment}
use cs61_f16_psets_team_md.Kernel.Loader.Segment.{
  pages_of, SegmentLoaded, program_load_segment-SegmentLoaded,
}

abbrev segment : ElfProgram
segment = record {
  p_type = 1;
  p_flags = 4;
  p_offset = 0x100;
  p_va = 0x10_0000;
  p_pa = 0x10_0000;
  p_filesz = 5;
  p_memsz = 0x1010;
}

program_load_segment-SegmentLoaded_example :
    SegmentLoaded machine
      (pages_of machine 1 segment)
      1
      segment
      0x6_0100
      (program_load_segment machine 1 segment 0x6_0100)
program_load_segment-SegmentLoaded_example =
    program_load_segment-SegmentLoaded machine 1 segment 0x6_0100 refl (omega arith) (omega arith)
      (inr (omega arith))

abbrev is_loaded : Loaded → Bool
is_loaded (loaded k) = true
is_loaded r = false

program_load_segment_test : is_loaded (program_load_segment machine 1 segment 0x6_0100) ≡ true
unfolding program_load_segment virtual_memory_map virtual_memory_lookup
program_load_segment_test = refl
