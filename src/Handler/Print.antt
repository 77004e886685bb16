-- ===== src/Handler/Print.antt =====
-- What the handler writes with `ikgt_printf`, as the calls that it makes.
use ikgt_usage.Base.{ℕ, List, Option}
use Prim.Native.String.{String}

-- An argument of a call; `text none` is a null pointer.
pub data Arg : Type 0 where
  number : ℕ → Arg
  text : Option String → Arg

-- One call: the format and the arguments.
pub record Print : Type 0 where
  pub format : String
  pub args : List Arg
