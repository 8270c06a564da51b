-- ===== src/Userland.antt =====
-- The programs of Userland/SampleCodeModule: what they use of the C library there, and the shell.
pub mod Stdlib
pub mod Shell
pub mod Restaurant
pub mod Philosophers
pub mod Increments
use Prim.Native.Char.{code}
use Prim.Native.String.{String}
use horaci_os.Prelude.{ℕ, List, [], ◌∷◌}

-- The bytes of a string literal, without the terminator.
abbrev pub codes : String → List ℕ
codes String.[] = []
codes (String.◌∷◌ c s) = code c ∷ codes s
