-- ===== src/Kernel/Fork/Tests.antt =====
-- Process 1 of a machine with two processes forks.
use cs61_f16_psets_team_md.Base.{◌≡◌, refl, Option, none, some, ℕ}
use cs61_f16_psets_team_md.Kernel.Paging.{virtual_memory_lookup, virtual_memory_map}
use cs61_f16_psets_team_md.Kernel.Check.Tests.{machine}
use cs61_f16_psets_team_md.Kernel.Fork.{Forked, forked, panicked, fork}
use cs61_f16_psets_team_md.Kernel.Fork.Child.{ForkOutcome, fork-ForkOutcome}

fork-ForkOutcome_example : ForkOutcome machine (fork machine)
fork-ForkOutcome_example = fork-ForkOutcome machine refl

abbrev child_of : Forked → Option ℕ
child_of (forked k child) = child
child_of panicked = none

-- The child is process 3.
fork_test : child_of (fork machine) ≡ some 3
unfolding fork virtual_memory_lookup virtual_memory_map
fork_test = refl
