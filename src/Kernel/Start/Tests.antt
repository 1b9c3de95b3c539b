-- ===== src/Kernel/Start/Tests.antt =====
-- A machine whose memory is not set, and commands of the boot loader.
use cs61_f16_psets_team_md.Base.{◌≡◌, refl, arith, some, none, [], ◌∷◌}
use cs61_f16_psets_team_md.Kernel.Pages.{free}
use cs61_f16_psets_team_md.Kernel.Process.{Kernel}
use cs61_f16_psets_team_md.Kernel.Start.{
  no_process, programs_of, four_programs, fork_command, forkexit_command, start_kernel,
}
use cs61_f16_psets_team_md.Kernel.Start.Started.{IsStarted, start_kernel-IsStarted}

abbrev unset : Kernel
unset = record {
  processes = λ pid. no_process;
  current = 0;
  ticks = 0;
  pageinfo = λ pn. record { owner = free; refcount = 0 };
  entries = λ pt i. 0xFF;
  memory = λ a. 0;
  kernel_pagetable = 0;
  default_int_handler = 0x4_0100;
  map_function = 0x4_0200;
}

start_kernel-IsStarted_example :
    (k : Kernel) × (start_kernel 0x5_A000 0x6_0000 unset ≡ some k)
    × IsStarted 0x5_A000 0x6_0000 unset k
start_kernel-IsStarted_example =
    start_kernel-IsStarted 0x5_A000 0x6_0000 unset (record { aligned = refl; inside = omega arith })

no_command_test : programs_of none ≡ four_programs
unfolding programs_of
no_command_test = refl

fork_test : programs_of (some fork_command) ≡ (1, 4) ∷ []
unfolding programs_of
fork_test = refl

forkexit_test : programs_of (some forkexit_command) ≡ (1, 5) ∷ []
unfolding programs_of
forkexit_test = refl

other_command_test : programs_of (some (b'f' ∷ b'o' ∷ [])) ≡ four_programs
unfolding programs_of
other_command_test = refl
