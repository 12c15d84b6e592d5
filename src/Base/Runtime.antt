-- ===== src/Base/Runtime.antt =====
-- What the run time supplies and the code only calls.
use mathlib.Core.Option.{Option}
use pods.Base.Strings.{Text}
use pods.Base.Numbers.{Number}
use pods.Base.Values.{Value}

-- The parts of a WHATWG URL that the code reads.
pub record Url : Type 0 where
  pub protocol : Text
  pub username : Text
  pub password : Text
  pub hostname : Text
  pub pathname : Text

pub record Platform : Type 0 where
  pub parse_url : Text → Option Url  -- `new URL(value)`, or none where it throws
  pub to_lower_case : Text → Text  -- `String.prototype.toLowerCase`
  pub string_of : Value → Text  -- `String(value)`
  pub print_number : Number → Text  -- a number in a template literal
