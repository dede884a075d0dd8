-- ===== src/Common/Process.antt =====
-- `exec_process` (store.common/src/process.hpp): the output of a command, by lines of at most 127 bytes.
-- `popen` gives the output that is read, and `pclose` the world behind it.
use store_cpp.Base.{
  ℕ, zero, suc, ◌≤◌, ◌≡◌, ◌≢◌, refl, ap, ◌∙◌, arith, Option, none, some, Str, [], ◌∷◌, ◌++◌,
  append_assoc, sym, subst, some_injective, append-nil, ◌==◌, if◌then◌else◌, length, All,
}
use store_cpp.Extensions.Format.{c_str}

pub record Processes : Type 1 where
  pub World : Type 0
  pub popen : Str → World → Option Str × World
  pub pclose : World → World

abbrev consed : ℕ → Str × Str → Str × Str
consed c (line, rest) = (c ∷ line, rest)

-- `fgets` with room for so many bytes: up to a newline, which is kept; and what is left to read.
unfoldable pub fgets : ℕ → Str → Str × Str
fgets zero s = ([], s)
fgets (suc room) [] = ([], [])
fgets (suc room) (c ∷ s) = if c == 10 then (c ∷ [], s) else consed c (fgets room s)

-- The size of the buffer less the zero at its end.
abbrev pub room_of_buffer : ℕ
room_of_buffer = 127

-- The loop over the output; `fgets` gives null at its end, and `result += buffer.data()` takes the line
-- as a C string. `none` means that the fuel ran out.
unfoldable pub read_all : ℕ → Str → Str → Option Str
unfolding fgets
read_all fuel [] result = some result
read_all zero (c ∷ s) result = none
read_all (suc fuel) (c ∷ s) result =
    let (line, rest) = fgets room_of_buffer (c ∷ s) in read_all fuel rest (result ++ c_str line)

-- `runtime_error("popen() failed!")`, or the text that is returned, behind `pclose`.
pub data Execution (W : Type 0) : Type 0 where
  popen_failed : W → Execution W
  output : Str → W → Execution W

module _ (P : Processes) where
  open P use {World, popen, pclose}

  unfoldable pub close_with : World → Option Str → Option (Execution World)
  close_with w none = none
  close_with w (some result) = some (output result (pclose w))

  unfoldable pub run_pipe : Option Str × World → Option (Execution World)
  unfolding close_with read_all
  run_pipe (none, w) = some (popen_failed w)
  run_pipe (some s, w) = close_with w (read_all (length s) s [])

  unfoldable pub exec_process : Str → World → Option (Execution World)
  unfolding run_pipe
  exec_process cmd w = run_pipe (popen cmd w)

-- The line and the rest are the text.
fgets-append : (room : ℕ) (s : Str) → (fgets room s).0 ++ (fgets room s).1 ≡ s
unfolding fgets
fgets-append zero s = refl
fgets-append (suc room) [] = refl
fgets-append (suc room) (c ∷ s) = ground (arith, fgets-append room s)

fgets_rest : (room : ℕ) (s : Str) → length (fgets room s).1 ≤ length s
unfolding fgets
fgets_rest zero s = omega arith
fgets_rest (suc room) [] = omega arith
fgets_rest (suc room) (c ∷ s) = ground (arith, fgets_rest room s)

-- A line has a byte, if there is one to read.
fgets_shorter : (room c : ℕ) (s : Str) → length (fgets (suc room) (c ∷ s)).1 ≤ length s
unfolding fgets
fgets_shorter room c s = ground (arith, fgets_rest room s)

c_str_whole : (s : Str) → All (λ c. c ≢ 0) s → c_str s ≡ s
unfolding c_str
c_str_whole [] h = refl
c_str_whole (c ∷ s) (h, hs) = ground (arith, c_str_whole s hs)

All-parts : (P : ℕ → Type 0) (xs ys : Str) → All P (xs ++ ys) → All P xs × All P ys
All-parts P [] ys h = (tt, h)
All-parts P (x ∷ xs) ys (p, h) = let (a, b) = All-parts P xs ys h in ((p, a), b)

read_all_whole :
    (fuel : ℕ) (s result : Str)
    → length s ≤ fuel
    → All (λ c. c ≢ 0) s
    → read_all fuel s result ≡ some (result ++ s)
unfolding read_all
read_all_whole fuel [] result h z = ap some (sym (append-nil result))
read_all_whole zero (c ∷ s) result h z = absurd (omega arith)
read_all_whole (suc fuel) (c ∷ s) result h z =
    let (line, rest) = fgets room_of_buffer (c ∷ s) in
    let whole : line ++ rest ≡ c ∷ s = fgets-append room_of_buffer (c ∷ s) in
    let (zl, zr) = All-parts (λ k. k ≢ 0) line rest (subst (All (λ k. k ≢ 0)) (sym whole) z) in
    read_all_whole fuel rest (result ++ c_str line) (omega (arith, h, fgets_shorter 126 c s)) zr
    ∙ ap (λ t. some ((result ++ t) ++ rest)) (c_str_whole line zl)
    ∙ ap some (append_assoc result line rest ∙ ap (λ t. result ++ t) whole)

module _ (P : Processes) where
  run_pipe_whole :
      (r : Option Str × P.World) (out : Str)
      → r.0 ≡ some out
      → All (λ c. c ≢ 0) out
      → run_pipe P r ≡ some (output out (P.pclose r.1))
  unfolding run_pipe close_with
  run_pipe_whole (none, w) out e z = cc
  run_pipe_whole (some s, w) out e z =
      let same : s ≡ out = some_injective e in
      rw (same, read_all_whole (length out) out [] (omega arith) z) refl

  -- Whatever lines the command writes, and however long they are, its output is returned whole if no
  -- byte of it is zero, and the pipe is closed once, behind the last read.
  pub exec_process_lem :
      (cmd out : Str) (w : P.World)
      → (P.popen cmd w).0 ≡ some out
      → All (λ c. c ≢ 0) out
      → exec_process P cmd w ≡ some (output out (P.pclose (P.popen cmd w).1))
  unfolding exec_process
  exec_process_lem cmd out w e z = run_pipe_whole (P.popen cmd w) out e z
