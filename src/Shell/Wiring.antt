-- ===== src/Shell/Wiring.antt =====
-- How the programs of a tree of calls are connected, on a system where forks, programs, pipes and
-- files succeed: a new descriptor has the next number, and a descriptor is named by the number it
-- was made with. A `dup2` of a descriptor that is not open fails, and the process goes on.
use cs61_f16_psets_team_md.Base.{
  ℕ, zero, suc, ◌+◌, Bool, true, false, if◌then◌else◌, ◌||◌, ◌==◌, some, List, [], ◌∷◌, ◌++◌, Bytes,
  ℤ, pos, negsuc,
}
use cs61_f16_psets_team_md.Shell.System.{
  exited, setpgid, set_foreground, dup2, close, Shell, forks, waits, execs, pipes, opens, chdirs,
  acts, returns, exits, undefined, unfinished,
}

-- A program with its standard input and output, and the pipes and files that it has open besides.
pub record Stage : Type 0 where
  pub program : List Bytes
  pub input : ℤ
  pub output : ℤ
  pub inherited : List ℤ

abbrev pub same_fd : ℤ → ℤ → Bool
same_fd (pos m) (pos n) = m == n
same_fd (negsuc m) (negsuc n) = m == n
same_fd (pos m) (negsuc n) = false
same_fd (negsuc m) (pos n) = false

unfoldable pub is_open : ℤ → List ℤ → Bool
is_open fd [] = false
is_open fd (x ∷ xs) = let rest = is_open fd xs in same_fd fd x || rest

-- The open descriptors behind a `close`.
unfoldable pub without : ℤ → List ℤ → List ℤ
without fd [] = []
without fd (x ∷ xs) = let rest = without fd xs in if same_fd fd x then xs else x ∷ rest

-- The standard input and output behind a `dup2`.
abbrev pub new_input : ℤ → ℕ → ℤ → ℤ
new_input fd zero input = fd
new_input fd (suc n) input = input

abbrev pub new_output : ℤ → ℕ → ℤ → ℤ
new_output fd zero output = output
new_output fd (suc zero) output = fd
new_output fd (suc (suc n)) output = output

abbrev pub dup_input : List ℤ → ℤ → ℕ → ℤ → ℤ
dup_input opened fd to input = if is_open fd opened then new_input fd to input else input

abbrev pub dup_output : List ℤ → ℤ → ℕ → ℤ → ℤ
dup_output opened fd to output = if is_open fd opened then new_output fd to output else output

-- The programs that are executed, those of a child before those of its parent. `next` is the next
-- descriptor, and `opened` are the pipes and files that the process has open.
unfoldable pub wire : ℕ → List ℤ → ℤ → ℤ → Shell → List Stage
unfolding is_open without
wire next opened input output (forks k) =
    wire next opened input output (k (pos 0)) ++ wire next opened input output (k (pos 1))
wire next opened input output (waits pid k) = wire next opened input output (k (some (exited 0)))
wire next opened input output (execs argv failing) =
    record { program = argv; input = input; output = output; inherited = opened } ∷ []
wire next opened input output (pipes k) =
    wire (next + 2) (opened ++ pos next ∷ pos (next + 1) ∷ []) input output
      (k (some (pos next, pos (next + 1))))
wire next opened input output (opens mode file k) =
    wire (next + 1) (opened ++ pos next ∷ []) input output (k (pos next))
wire next opened input output (chdirs dir k) = wire next opened input output (k true)
wire next opened input output (acts (setpgid p g) then_do) = wire next opened input output then_do
wire next opened input output (acts (set_foreground p) then_do) =
    wire next opened input output then_do
wire next opened input output (acts (close fd) then_do) =
    wire next (without fd opened) input output then_do
wire next opened input output (acts (dup2 fd to) then_do) =
    wire next opened (dup_input opened fd to input) (dup_output opened fd to output) then_do
wire next opened input output returns = []
wire next opened input output (exits status) = []
wire next opened input output undefined = []
wire next opened input output unfinished = []
