-- ===== src/Examples/Guards.antt =====
-- A guard in parentheses under a negation.
use Prim.Native.String
use rstmdb.Base.{◌≡◌, ◌*◌, ◌+◌}
use rstmdb.Core.Guard.Parser.Lexer.{out_of_fuel}
use rstmdb.Core.Guard.Parser.Grammar.{parse_text}
use rstmdb.Core.Guard.Parser.Fuel.{parse_text-returns}
use rstmdb.Examples.Machines.{platform}

parse_text-returns_example : ¬ (
    parse_text platform
      (4 * String.count "!(ctx.paid && ctx.total > 10)" + 5)
      "!(ctx.paid && ctx.total > 10)"
    ≡ out_of_fuel)
parse_text-returns_example = parse_text-returns platform "!(ctx.paid && ctx.total > 10)"
